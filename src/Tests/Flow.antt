-- ===== src/Tests/Flow.antt =====
-- An order on its way through the three services.
use logistics_platform.Prelude.{String, ◌≡◌, refl, ap, ◌⊎◌, true, false, some, none, []}
use logistics_platform.Result.{Result, ok, err}
use logistics_platform.Text.{trim, trim_start, trim_end, is_space, text_length, to_upper_case}
use logistics_platform.Contracts.Envelope.{event_schema, envelope_json}
use logistics_platform.Contracts.OrderCreated.{
  order_created_event_schema, order_created_json, order_created_payload_json,
  order_created_payload_schema, order_item_schema, order_item_json, shipping_address_schema,
  shipping_address_json,
}
use logistics_platform.Observability.Correlation.{is_uuid, middleware}
use logistics_platform.Number.{nat, plus, rounded, double}
use logistics_platform.Messaging.Consumer.{context_of}
use logistics_platform.Flow.Correlated.{Correlated, request-Correlated}
use logistics_platform.Messaging.EnvelopeBuilder.{BuildEnvelopeInput, build_event_envelope}
use logistics_platform.Messaging.Relay.Control.{Control, initial}
use logistics_platform.Orders.Item
use logistics_platform.Orders.Order
use logistics_platform.Orders.Publisher.{build_order_created_message}
use logistics_platform.Orders.Repository.{save_new, order_row, outbox_row}
use logistics_platform.Orders.Commands.{prepare_order}
use logistics_platform.Orders.Handlers.{create_order}
use logistics_platform.Notifications.Providers.{resolve}
use logistics_platform.Flow.OrderPlaced
use logistics_platform.Flow.OrderPlaced.{create_order-Reaches}
use logistics_platform.Flow.ShipmentMoved
use logistics_platform.Flow.ShipmentMoved.{SoundRun, update_shipment_status-Reaches}
use logistics_platform.Runtime.{Runtime}
use logistics_platform.Tracking.Shipment.{ShipmentRecord, map_shipment}
use logistics_platform.Tracking.Client.{Same}
use logistics_platform.Tracking.Service.{
  update_shipment_status, with_transaction, update_operation, find_by_id, change_status,
  create_event,
}
use logistics_platform.Tracking.Service
use logistics_platform.Contracts.ShipmentStatusChanged.{status_of}
use logistics_platform.Tests.Samples.{rt, uuid_a}
use logistics_platform.Tests.Database.{
  Shop, orders, outbox, shop, shop-IsOrderClient, undoing, undoing-IsTransaction,
}
use logistics_platform.Tests.Handlers.{command, inputs}
use logistics_platform.Tests.Desk.{Desk, desk, view, desk-IsTrackingClient, seen}
use logistics_platform.Tests.Tracking
use logistics_platform.Tests.Notifications

abbrev ran : Result String × (Shop × Control)
ran = create_order shop rt inputs command ((none, []), initial)

returned : ran.0 ≡ ok uuid_a
unfolding create_order save_new order_row outbox_row prepare_order build_order_created_message
    build_event_envelope Order.place Order.pull_domain_events Item.create Item.to_primitives trim
    trim_start trim_end is_space text_length to_upper_case order_created_event_schema
    order_created_json order_created_payload_json order_created_payload_schema order_item_schema
    order_item_json shipping_address_schema shipping_address_json event_schema envelope_json is_uuid
    Order.total_cents plus Item.total_cents rounded double
returned = refl

ended : ran ≡ (ok uuid_a, (ran.1.0, ran.1.1))
ended = ap (λ (r : Result String). (r, ran.1)) returned

create_order-Reaches_example :
    OrderPlaced.Reaches rt shop orders outbox shop-IsOrderClient undoing desk view
      desk-IsTrackingClient Tracking.store seen Tracking.store-IsProcessedStore Notifications.sql
      Notifications.row_of Notifications.sql-IsDeliverySql
      (resolve Notifications.env)
      Notifications.provider_keeps
      7
      Notifications.store
      Notifications.seen
      Notifications.store-IsProcessedStore
      uuid_a
      (none, [])
      ran.1.0
create_order-Reaches_example =
    create_order-Reaches rt shop orders outbox shop-IsOrderClient undoing desk view
      desk-IsTrackingClient Tracking.store seen Tracking.store-IsProcessedStore Notifications.sql
      Notifications.row_of Notifications.sql-IsDeliverySql (resolve Notifications.env)
      Notifications.provider_keeps 7 Notifications.store Notifications.seen
      Notifications.store-IsProcessedStore inputs command (none, []) ran.1.0 initial ran.1.1 uuid_a
      ended

abbrev host : Runtime
host = record rt { uuid_format = λ s. true; datetime_format = λ s. true }

abbrev moved : Result ShipmentRecord × (Desk × Control)
moved =
    update_shipment_status desk undoing false host Tracking.inputs Tracking.picked_up
      (Tracking.open_desk, initial)

abbrev record_of : Result ShipmentRecord → ShipmentRecord
record_of (ok s) = s
record_of (err e) = record {
  id = "";
  order_id = "";
  status = "";
  created_at = 0;
  updated_at = 0;
  events = [];
}

moved_ok : moved.0 ≡ ok (record_of moved.0)
unfolding update_shipment_status with_transaction update_operation find_by_id map_shipment
    change_status Service.update_status create_event status_of
moved_ok = refl

inputs-SoundRun : SoundRun host Tracking.inputs
inputs-SoundRun = record { event_uuid = refl; correlation_uuid = refl; context = tt; time = refl }

update_shipment_status-Reaches_example :
    (Same view Tracking.open_desk moved.1.0
      × (view.status Tracking.open_desk "s1" ≡ some Tracking.picked_up.status))
    ⊎ ShipmentMoved.Reaches host undoing undoing-IsTransaction desk view desk-IsTrackingClient
        Notifications.sql Notifications.row_of Notifications.sql-IsDeliverySql
        (resolve Notifications.env)
        Notifications.provider_keeps
        7
        Notifications.store
        Notifications.seen
        Notifications.store-IsProcessedStore
        Tracking.inputs
        Tracking.picked_up
        Tracking.open_desk
        moved.1.0
update_shipment_status-Reaches_example =
    update_shipment_status-Reaches host undoing undoing-IsTransaction desk view
      desk-IsTrackingClient Notifications.sql Notifications.row_of Notifications.sql-IsDeliverySql
      (resolve Notifications.env) Notifications.provider_keeps 7 Notifications.store
      Notifications.seen Notifications.store-IsProcessedStore Tracking.inputs inputs-SoundRun
      Tracking.picked_up refl Tracking.open_desk moved.1.0 (λ order found. refl) initial moved.1.1
      (record_of moved.0) (ap (λ (r : Result ShipmentRecord). (r, moved.1)) moved_ok)

-- What an event of the text is built from.
abbrev input : BuildEnvelopeInput String
input = record {
  event_type = "order.created";
  event_version = nat 1;
  producer = "order-service";
  payload = "";
  correlation_id = none;
  causation_id = none;
  event_id = none;
  occurred_at = none;
}

uuid_a-is_uuid : is_uuid uuid_a ≡ true
unfolding is_uuid
uuid_a-is_uuid = refl

request-Correlated_example :
    let (header, ctx) = middleware (some "x") (some uuid_a) uuid_a in
    let event = build_event_envelope rt (some ctx) "1" "2" 3 input in
    Correlated
      (some "x")
      (some uuid_a)
      header
      ctx
      event
      (build_event_envelope rt (some (context_of event)) "4" "5" 6 input)
request-Correlated_example =
    request-Correlated rt (some "x") (some uuid_a) uuid_a "1" "2" "4" "5" 3 6 input input
      uuid_a-is_uuid (refl, refl) (refl, refl)
