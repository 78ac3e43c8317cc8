-- ===== src/Orders/Commands.antt =====
-- apps/order-service/src/application: the commands, the views, and what the handlers compute before
-- they write.
use Prim.Native.String
use logistics_platform.Prelude.{ℕ, String, Option, none, some, List, [], ◌∷◌, map}
use logistics_platform.Result.{error, not_found_exception, zod_error, Result, ok, err, ◌>>=◌, ◌>>◌}
use logistics_platform.Number.{Number}
use logistics_platform.Runtime.{Runtime}
use logistics_platform.Contracts.Envelope.{order_created}
use logistics_platform.Contracts.OrderCreated.{order_created_event_schema, order_created_json}
use logistics_platform.Observability.Correlation.{CorrelationContext}
use logistics_platform.Orders.Item
use logistics_platform.Orders.Item.{OrderItemProps}
use logistics_platform.Orders.Order
use logistics_platform.Orders.Order.{
  Order, OrderStatus, OrderCreatedEvent, ShippingAddress, place, pull_domain_events,
}
use logistics_platform.Orders.Publisher.{PendingOutboxMessage, build_order_created_message}

pub record CreateOrderCommand : Type 0 where
  pub customer_id : String
  pub currency : String
  pub items : List OrderItemProps
  pub shipping_address : ShippingAddress

-- What a run takes from its host: the ids that `randomUUID()` returns for the order, the event and
-- the correlation, the time, and the context of the request.
pub record Inputs : Type 0 where
  pub order_uuid : String
  pub event_uuid : String
  pub correlation_uuid : String
  pub now : ℕ
  pub context : Option CorrelationContext

pub record OrderView : Type 0 where
  pub id : String
  pub customer_id : String
  pub status : OrderStatus
  pub total_cents : Number
  pub currency : String
  pub placed_at : String
  pub items : List OrderItemProps

abbrev pub first_event : List OrderCreatedEvent → Result OrderCreatedEvent
first_event [] = err (error "Order creation must emit a domain event")
first_event (event ∷ _) = ok event

-- `schema.parse(value)`, for its check alone
abbrev pub parsed {ℓ} : {A : Type ℓ} → Option A → Result (Unit {0})
parsed none = err zod_error
parsed (some _) = ok tt

abbrev pub found : String → Option Order → Result Order
found message none = err (not_found_exception message)
found message (some o) = ok o

abbrev pub not_found : String → String
not_found id = String.◌++◌ "Order " (String.◌++◌ id " not found")

-- What `CreateOrderHandler.execute` computes before it writes: the order, its events pulled, and the
-- message for the outbox, which the schema has accepted.
unfoldable pub prepare_order :
    Runtime → Inputs → CreateOrderCommand → Result (Order × PendingOutboxMessage)
unfolding pull_domain_events
prepare_order rt inputs command = do
  placed ← place rt inputs.order_uuid inputs.now (record {
    id = none;
    customer_id = command.customer_id;
    currency = command.currency;
    items = command.items;
    shipping_address = command.shipping_address;
    placed_at = none;
  })
  let (events, order) = pull_domain_events placed
  created_event ← first_event events
  let message =
      build_order_created_message rt inputs.context inputs.event_uuid inputs.correlation_uuid
        inputs.now created_event
  parsed (
      order_created_event_schema rt
        (order_created_json (record message.payload { event_type = order_created })))
  ok (order, message)

unfoldable pub view : Runtime → Order → OrderView
view rt o = record {
  id = o.id;
  customer_id = o.customer_id;
  status = o.status;
  total_cents = Order.total_cents o;
  currency = o.currency;
  placed_at = rt.to_iso_string o.placed_at;
  items = map Item.to_primitives o.items;
}
