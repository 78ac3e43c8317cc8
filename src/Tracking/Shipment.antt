-- ===== src/Tracking/Shipment.antt =====
-- apps/tracking-service/src/services/shipment.types.ts, and the mapping of rows to records in
-- repositories/tracking.repository.ts
use logistics_platform.Prelude.{ℕ, String, ◌≡◌, Option, none, some, List, map, arith}
use logistics_platform.Number.{Number}
use logistics_platform.Json.{Json, num, str, obj, end, field, get}
use logistics_platform.Contracts.Envelope.{or_null}

pub record ShipmentLocation : Type 0 where
  pub lat : Number
  pub lng : Number
  pub label : Option String

pub record TrackingEventRecord : Type 0 where
  pub id : String
  pub shipment_id : String
  pub status : String
  pub occurred_at : ℕ
  pub location : Option ShipmentLocation

pub record ShipmentRecord : Type 0 where
  pub id : String
  pub order_id : String
  pub status : String
  pub created_at : ℕ
  pub updated_at : ℕ
  pub events : List TrackingEventRecord

-- The rows; `location` is a JSON column that may be null.
pub record TrackingEventRow : Type 0 where
  pub id : String
  pub shipment_id : String
  pub status : String
  pub occurred_at : ℕ
  pub location : Option Json

pub record ShipmentWithEvents : Type 0 where
  pub id : String
  pub order_id : String
  pub status : String
  pub created_at : ℕ
  pub updated_at : ℕ
  pub events : List TrackingEventRow

-- `typeof label === "string" ? label : null`
abbrev label_of : Option Json → Option String
label_of (some (str s)) = some s
label_of _ = none

located : Option Json → Option Json → Option Json → Option ShipmentLocation
located (some (num lat)) (some (num lng)) label =
    some (record { lat = lat; lng = lng; label = label_of label })
located _ _ label = none

unfoldable pub to_location : Option Json → Option ShipmentLocation
unfolding located
to_location (some (obj fs)) = located (get "lat" fs) (get "lng" fs) (get "label" fs)
to_location _ = none

unfoldable pub map_tracking_event : TrackingEventRow → TrackingEventRecord
map_tracking_event event = record {
  id = event.id;
  shipment_id = event.shipment_id;
  status = event.status;
  occurred_at = event.occurred_at;
  location = to_location event.location;
}

unfoldable pub map_shipment : ShipmentWithEvents → ShipmentRecord
map_shipment shipment = record {
  id = shipment.id;
  order_id = shipment.order_id;
  status = shipment.status;
  created_at = shipment.created_at;
  updated_at = shipment.updated_at;
  events = map map_tracking_event shipment.events;
}

unfoldable pub tracking_location_to_json : ShipmentLocation → Json
tracking_location_to_json l =
    obj (field "lat" (num l.lat) (field "lng" (num l.lng) (field "label" (or_null l.label) end)))

-- A location is read back from the JSON that is stored for it.
pub to_location-tracking_location_to_json :
    (l : ShipmentLocation) → to_location (some (tracking_location_to_json l)) ≡ some l
unfolding to_location tracking_location_to_json
to_location-tracking_location_to_json l = ground arith
