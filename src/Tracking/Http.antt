-- ===== src/Tracking/Http.antt =====
-- apps/tracking-service/src/http: the controllers' answers.
use logistics_platform.Prelude.{String, Option, List, map}
use logistics_platform.Act.{Act, pure, ◌>>=◌}
use logistics_platform.Runtime.{Runtime}
use logistics_platform.Tracking.Shipment.{ShipmentLocation, TrackingEventRecord, ShipmentRecord}
use logistics_platform.Tracking.Client.{TrackingClient}
use logistics_platform.Tracking.Service.{get_shipment_by_id, get_shipment_by_order_id}

pub record TrackingEventDto : Type 0 where
  pub id : String
  pub shipment_id : String
  pub status : String
  pub occurred_at : String
  pub location : Option ShipmentLocation

pub record ShipmentDto : Type 0 where
  pub id : String
  pub order_id : String
  pub status : String
  pub created_at : String
  pub updated_at : String
  pub events : List TrackingEventDto

unfoldable pub to_event_dto : Runtime → TrackingEventRecord → TrackingEventDto
to_event_dto rt event = record {
  id = event.id;
  shipment_id = event.shipment_id;
  status = event.status;
  occurred_at = rt.to_iso_string event.occurred_at;
  location = event.location;
}

unfoldable pub to_shipment_dto : Runtime → ShipmentRecord → ShipmentDto
unfolding to_event_dto
to_shipment_dto rt shipment = record {
  id = shipment.id;
  order_id = shipment.order_id;
  status = shipment.status;
  created_at = rt.to_iso_string shipment.created_at;
  updated_at = rt.to_iso_string shipment.updated_at;
  events = map (to_event_dto rt) shipment.events;
}

module _ {W : Type 0} (client : TrackingClient W) (rt : Runtime) where
  -- `ShipmentsController.getById`, once the pipe has accepted the id
  unfoldable pub get_by_id : String → Act W ShipmentDto
  get_by_id id = do shipment ← get_shipment_by_id client id; pure (to_shipment_dto rt shipment)

  -- `OrdersController.getByOrderId`
  unfoldable pub get_by_order_id : String → Act W ShipmentDto
  get_by_order_id order_id = do
    shipment ← get_shipment_by_order_id client order_id
    pure (to_shipment_dto rt shipment)
