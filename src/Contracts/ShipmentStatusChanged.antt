-- ===== src/Contracts/ShipmentStatusChanged.antt =====
-- libs/contracts/src/events/shipment-status-changed.event.ts
use logistics_platform.Prelude.{String, Option, none, some, ◌==◌, if◌then◌else◌}
use logistics_platform.Number.{Number}
use logistics_platform.Runtime.{Runtime}
use logistics_platform.Json.{
  Json, null, num, str, obj, end, field, get, ◌>>=◌, string, number_where, string_where, within,
  nullable, object, required,
}
use logistics_platform.Contracts.Envelope.{
  Envelope, shipment_status_changed, event_schema, or_null, envelope_json,
}

pub data ShipmentStatus : Type 0 where
  pending picked_up in_transit out_for_delivery delivered cancelled failed : ShipmentStatus

unfoldable pub status_text : ShipmentStatus → String
status_text pending = "PENDING"
status_text picked_up = "PICKED_UP"
status_text in_transit = "IN_TRANSIT"
status_text out_for_delivery = "OUT_FOR_DELIVERY"
status_text delivered = "DELIVERED"
status_text cancelled = "CANCELLED"
status_text failed = "FAILED"

-- `shipmentStatusSchema`, on a string
unfoldable pub status_of : String → Option ShipmentStatus
status_of s =
    if s == "PENDING"
    then some pending
    else if s == "PICKED_UP"
    then some picked_up
    else if s == "IN_TRANSIT"
    then some in_transit
    else if s == "OUT_FOR_DELIVERY"
    then some out_for_delivery
    else if s == "DELIVERED"
    then some delivered
    else if s == "CANCELLED"
    then some cancelled
    else if s == "FAILED"
    then some failed
    else none

pub record EventLocation : Type 0 where
  pub latitude : Number
  pub longitude : Number
  pub label : Option String

pub record ShipmentStatusChangedPayload : Type 0 where
  pub shipment_id : String
  pub order_id : String
  pub previous_status : Option ShipmentStatus
  pub current_status : ShipmentStatus
  pub changed_at : String
  pub location : Option EventLocation

abbrev pub shipment_status_schema : Json → Option ShipmentStatus
shipment_status_schema v = do s ← string v; status_of s

unfoldable pub location_schema : Json → Option EventLocation
location_schema v = do
  fs ← object v
  latitude ← required (number_where (within 90)) (get "latitude" fs)
  longitude ← required (number_where (within 180)) (get "longitude" fs)
  label ← required (nullable string) (get "label" fs)
  some (record { latitude = latitude; longitude = longitude; label = label })

unfoldable pub shipment_status_changed_payload_schema :
    Runtime → Json → Option ShipmentStatusChangedPayload
shipment_status_changed_payload_schema rt v = do
  fs ← object v
  shipment_id ← required (string_where rt.uuid_format) (get "shipmentId" fs)
  order_id ← required (string_where rt.uuid_format) (get "orderId" fs)
  previous_status ← required (nullable shipment_status_schema) (get "previousStatus" fs)
  current_status ← required shipment_status_schema (get "currentStatus" fs)
  changed_at ← required (string_where rt.datetime_format) (get "changedAt" fs)
  location ← required (nullable location_schema) (get "location" fs)
  some (record {
    shipment_id = shipment_id;
    order_id = order_id;
    previous_status = previous_status;
    current_status = current_status;
    changed_at = changed_at;
    location = location;
  })

unfoldable pub shipment_status_changed_event_schema :
    Runtime → Json → Option (Envelope ShipmentStatusChangedPayload)
unfolding event_schema
shipment_status_changed_event_schema rt =
    event_schema rt (λ t. t == shipment_status_changed)
      (required (shipment_status_changed_payload_schema rt))

abbrev pub status_json : ShipmentStatus → Json
status_json s = str (status_text s)

abbrev pub previous_json : Option ShipmentStatus → Json
previous_json none = null
previous_json (some s) = status_json s

unfoldable pub location_json : Option EventLocation → Json
location_json none = null
location_json (some l) = obj (
    field "latitude" (num l.latitude)
      (field "longitude" (num l.longitude) (field "label" (or_null l.label) end)))

unfoldable pub shipment_status_changed_payload_json : ShipmentStatusChangedPayload → Json
shipment_status_changed_payload_json p = obj (
    field "shipmentId" (str p.shipment_id) (
      field "orderId" (str p.order_id) (
        field "previousStatus" (previous_json p.previous_status) (
          field "currentStatus" (status_json p.current_status) (
            field "changedAt" (str p.changed_at)
              (field "location" (location_json p.location) end))))))

unfoldable pub shipment_status_changed_json : Envelope ShipmentStatusChangedPayload → Json
unfolding envelope_json
shipment_status_changed_json = envelope_json shipment_status_changed_payload_json
