-- ===== src/Orders/Publisher.antt =====
-- apps/order-service/src/infrastructure/events/rmq-order-event.publisher.ts, and the message of
-- domain/order.repository.ts
use logistics_platform.Prelude.{ℕ, String, Option, none, some, List, [], ◌∷◌, or_else}
use logistics_platform.Number.{nat}
use logistics_platform.Runtime.{Runtime}
use logistics_platform.Contracts.Envelope.{Envelope, event_schema_version, order_created}
use logistics_platform.Contracts.OrderCreated.{OrderCreatedPayload}
use logistics_platform.Observability.Correlation.{CorrelationContext, get_id}
use logistics_platform.Messaging.EnvelopeBuilder.{build_event_envelope}
use logistics_platform.Orders.Order.{OrderCreatedEvent}

pub record PendingOutboxMessage : Type 0 where
  pub aggregate_type : String
  pub aggregate_id : String
  pub event_type : String
  pub routing_key : String
  pub payload : Envelope OrderCreatedPayload
  -- the headers of the message; an order's has one, `correlationId`
  pub headers : Option (List (String × String))

abbrev pub created_payload : Runtime → OrderCreatedEvent → OrderCreatedPayload
created_payload rt event = record {
  order_id = event.order_id;
  customer_id = event.customer_id;
  shipping_address = event.shipping_address;
  items = event.items;
  total_cents = event.total_cents;
  currency = event.currency;
  placed_at = rt.to_iso_string event.placed_at;
}

unfoldable pub build_order_created_message :
    Runtime
    → Option CorrelationContext
    → (uuid uuid' : String) (now : ℕ) → OrderCreatedEvent
    → PendingOutboxMessage
build_order_created_message rt ctx uuid uuid' now event =
    let envelope = build_event_envelope rt ctx uuid uuid' now (record {
      event_type = order_created;
      event_version = nat event_schema_version;
      producer = "order-service";
      payload = created_payload rt event;
      correlation_id = none;
      causation_id = none;
      event_id = none;
      occurred_at = some event.occurred_at;
    }) in
    record {
      aggregate_type = "order";
      aggregate_id = event.order_id;
      event_type = order_created;
      routing_key = order_created;
      payload = envelope;
      headers = some (("correlationId", or_else (get_id ctx) envelope.correlation_id) ∷ []);
    }
