-- ===== src/Tests/Tracking.antt =====
-- The tracking service.
use logistics_platform.Prelude.{◌≡◌, refl, false, none, some, []}
use logistics_platform.Number.{nat}
use logistics_platform.Messaging.Relay.Control.{initial}
use logistics_platform.Tracking.Shipment.{ShipmentLocation}
use logistics_platform.Tracking.Service.{
  CreatePendingShipmentInput, UpdateShipmentStatusInput, Inputs, create_pending_shipment,
  update_shipment_status,
}
use logistics_platform.Tracking.Service.Updates
use logistics_platform.Tracking.Service.Updates.{update_shipment_status-Ended}
use logistics_platform.Tracking.Service.Creation
use logistics_platform.Tracking.Service.Creation.{create_pending_shipment-Ended}
use logistics_platform.Tracking.ProcessedMessages.{mark_processed, repository-IsProcessedStore}
use logistics_platform.Tracking.OrderCreatedConsumer.{
  options, handle_event, on_delivery, Shipped, on_delivery-Shipped,
}
use logistics_platform.Messaging.Consumer.{stays_open, MarkProcessed}
use logistics_platform.Messaging.Consumer.Settlements.{event_of}
use logistics_platform.Messaging.ProcessedStore.{IsProcessedStore}
use logistics_platform.Contracts.OrderCreated.{
  order_created_event_schema, order_created_json, order_created_payload_json,
  order_created_payload_schema, order_item_schema, order_item_json, shipping_address_schema,
  shipping_address_json,
}
use logistics_platform.Contracts.Envelope.{
  event_schema, base_event_envelope_schema, envelope_json, base_envelope_json,
}
use logistics_platform.Observability.Correlation.{is_uuid}
use logistics_platform.Text.{text_length}
use logistics_platform.Tests.Samples.{rt, uuid_a, created_payload, enveloped}
use logistics_platform.Tests.Database.{undoing, undoing-IsTransaction}
use logistics_platform.Tests.Desk.{
  Desk, desk, view, desk-IsTrackingClient, seen, record_message, record_message-IsCreate,
}

abbrev place : ShipmentLocation
place = record { lat = nat 37; lng = nat 122; label = some "depot" }

abbrev pub inputs : Inputs
inputs = record { event_uuid = uuid_a; correlation_uuid = uuid_a; now = 5; context = none }

abbrev pub picked_up : UpdateShipmentStatusInput
picked_up = record {
  shipment_id = "s1";
  status = "PICKED_UP";
  occurred_at = none;
  location = some place;
}

abbrev empty_desk : Desk
empty_desk = record {
  shipment = none;
  events = [];
  outbox = [];
  processed = λ consumer event. false;
}

abbrev pub open_desk : Desk
open_desk = record {
  shipment = some ("o1", "PENDING");
  events = [];
  outbox = [];
  processed = λ consumer event. false;
}

update_shipment_status-Ended_example :
    Updates.Ended desk view desk-IsTrackingClient rt inputs picked_up
      (open_desk, initial)
      (update_shipment_status desk undoing false rt inputs picked_up (open_desk, initial))
update_shipment_status-Ended_example =
    update_shipment_status-Ended desk view desk-IsTrackingClient undoing undoing-IsTransaction rt
      inputs picked_up open_desk initial

abbrev first : CreatePendingShipmentInput
first = record { order_id = "o1"; occurred_at = 5 }

create_pending_shipment-Ended_example :
    Creation.Ended desk view desk-IsTrackingClient first empty_desk
      (create_pending_shipment desk undoing false first empty_desk)
create_pending_shipment-Ended_example =
    create_pending_shipment-Ended desk view desk-IsTrackingClient undoing undoing-IsTransaction
      first empty_desk

abbrev pub store : MarkProcessed Desk
store = mark_processed undoing record_message

pub store-IsProcessedStore : IsProcessedStore store seen
store-IsProcessedStore =
    repository-IsProcessedStore undoing record_message seen undoing-IsTransaction
      record_message-IsCreate

created-event_of :
    event_of stays_open store options rt
      (order_created_event_schema rt)
      (handle_event undoing desk rt)
      (some (order_created_json (enveloped "order.created" created_payload)))
    ≡ some (
      enveloped "order.created" (some (order_created_payload_json created_payload)),
      enveloped "order.created" created_payload,
    )
unfolding order_created_event_schema order_created_json order_created_payload_schema
    order_created_payload_json order_item_schema order_item_json shipping_address_schema
    shipping_address_json event_schema base_event_envelope_schema envelope_json base_envelope_json
    is_uuid text_length
created-event_of = refl

on_delivery-Shipped_example :
    Shipped undoing desk rt view desk-IsTrackingClient uuid_a empty_desk [] (
      on_delivery undoing desk rt store
        (some (order_created_json (enveloped "order.created" created_payload)))
        empty_desk
        [])
on_delivery-Shipped_example =
    on_delivery-Shipped undoing desk rt view desk-IsTrackingClient store seen store-IsProcessedStore
      (some (order_created_json (enveloped "order.created" created_payload)))
      (enveloped "order.created" (some (order_created_payload_json created_payload)))
      (enveloped "order.created" created_payload) empty_desk [] created-event_of
