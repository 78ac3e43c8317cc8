-- ===== src/Contracts/OrderCancelled.antt =====
-- libs/contracts/src/events/order-cancelled.event.ts
use logistics_platform.Prelude.{String, Bool, ◌&&◌, Option, some, ◌==◌, leb}
use logistics_platform.Text.{text_length}
use logistics_platform.Runtime.{Runtime}
use logistics_platform.Json.{Json, str, obj, end, field, get, ◌>>=◌, string_where, object, required}
use logistics_platform.Contracts.Envelope.{Envelope, order_cancelled, event_schema, envelope_json}

pub record OrderCancelledPayload : Type 0 where
  pub order_id : String
  pub customer_id : String
  pub reason : String
  pub cancelled_at : String

abbrev pub is_reason : String → Bool
is_reason s = leb 1 (text_length s) && leb (text_length s) 500

unfoldable pub order_cancelled_payload_schema : Runtime → Json → Option OrderCancelledPayload
order_cancelled_payload_schema rt v = do
  fs ← object v
  order_id ← required (string_where rt.uuid_format) (get "orderId" fs)
  customer_id ← required (string_where rt.uuid_format) (get "customerId" fs)
  reason ← required (string_where is_reason) (get "reason" fs)
  cancelled_at ← required (string_where rt.datetime_format) (get "cancelledAt" fs)
  some (record {
    order_id = order_id;
    customer_id = customer_id;
    reason = reason;
    cancelled_at = cancelled_at;
  })

unfoldable pub order_cancelled_event_schema :
    Runtime → Json → Option (Envelope OrderCancelledPayload)
unfolding event_schema
order_cancelled_event_schema rt =
    event_schema rt (λ t. t == order_cancelled) (required (order_cancelled_payload_schema rt))

unfoldable pub order_cancelled_payload_json : OrderCancelledPayload → Json
order_cancelled_payload_json p = obj (
    field "orderId" (str p.order_id) (
      field "customerId" (str p.customer_id)
        (field "reason" (str p.reason) (field "cancelledAt" (str p.cancelled_at) end))))

unfoldable pub order_cancelled_json : Envelope OrderCancelledPayload → Json
unfolding envelope_json
order_cancelled_json = envelope_json order_cancelled_payload_json
