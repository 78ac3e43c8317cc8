-- ===== src/Contracts/OrderCreated.antt =====
-- libs/contracts/src/events/order-created.event.ts. TypeScript compares types by their shape, so
-- the items and the address of a payload are those of the order service.
use logistics_platform.Prelude.{String, Option, some, List, ◌==◌, map, leb, length}
use logistics_platform.Number.{Number}
use logistics_platform.Runtime.{Runtime}
use logistics_platform.Json.{
  Json, num, str, arr, obj, end, field, of_list, get, ◌>>=◌, ◌>>◌, check, string, string_where,
  at_least_one, has_length, number_where, positive_int, nonnegative_int, nullable, array, object,
  required,
}
use logistics_platform.Contracts.Envelope.{
  Envelope, order_created, event_schema, or_null, envelope_json,
}
use logistics_platform.Orders.Item.{OrderItemProps}
use logistics_platform.Orders.Order.{ShippingAddress}

pub record OrderCreatedPayload : Type 0 where
  pub order_id : String
  pub customer_id : String
  pub shipping_address : ShippingAddress
  pub items : List OrderItemProps
  pub total_cents : Number
  pub currency : String
  pub placed_at : String

unfoldable pub order_item_schema : Json → Option OrderItemProps
order_item_schema v = do
  fs ← object v
  sku ← required (string_where at_least_one) (get "sku" fs)
  name ← required (string_where at_least_one) (get "name" fs)
  quantity ← required (number_where positive_int) (get "quantity" fs)
  unit_price_cents ← required (number_where nonnegative_int) (get "unitPriceCents" fs)
  some (record { sku = sku; name = name; quantity = quantity; unit_price_cents = unit_price_cents })

unfoldable pub shipping_address_schema : Json → Option ShippingAddress
shipping_address_schema v = do
  fs ← object v
  line1 ← required (string_where at_least_one) (get "line1" fs)
  line2 ← required (nullable string) (get "line2" fs)
  city ← required (string_where at_least_one) (get "city" fs)
  region ← required (string_where at_least_one) (get "region" fs)
  postal_code ← required (string_where at_least_one) (get "postalCode" fs)
  country ← required (string_where (has_length 2)) (get "country" fs)
  some (record {
    line1 = line1;
    line2 = line2;
    city = city;
    region = region;
    postal_code = postal_code;
    country = country;
  })

unfoldable pub order_created_payload_schema : Runtime → Json → Option OrderCreatedPayload
order_created_payload_schema rt v = do
  fs ← object v
  order_id ← required (string_where rt.uuid_format) (get "orderId" fs)
  customer_id ← required (string_where rt.uuid_format) (get "customerId" fs)
  shipping_address ← required shipping_address_schema (get "shippingAddress" fs)
  items ← required (array order_item_schema) (get "items" fs)
  check (leb 1 (length items))
  total_cents ← required (number_where nonnegative_int) (get "totalCents" fs)
  currency ← required (string_where (has_length 3)) (get "currency" fs)
  placed_at ← required (string_where rt.datetime_format) (get "placedAt" fs)
  some (record {
    order_id = order_id;
    customer_id = customer_id;
    shipping_address = shipping_address;
    items = items;
    total_cents = total_cents;
    currency = currency;
    placed_at = placed_at;
  })

unfoldable pub order_created_event_schema : Runtime → Json → Option (Envelope OrderCreatedPayload)
unfolding event_schema
order_created_event_schema rt =
    event_schema rt (λ t. t == order_created) (required (order_created_payload_schema rt))

unfoldable pub order_item_json : OrderItemProps → Json
order_item_json item = obj (
    field "sku" (str item.sku) (
      field "name" (str item.name) (
        field "quantity" (num item.quantity)
          (field "unitPriceCents" (num item.unit_price_cents) end))))

unfoldable pub shipping_address_json : ShippingAddress → Json
shipping_address_json a = obj (
    field "line1" (str a.line1) (
      field "line2" (or_null a.line2) (
        field "city" (str a.city) (
          field "region" (str a.region)
            (field "postalCode" (str a.postal_code) (field "country" (str a.country) end))))))

unfoldable pub order_created_payload_json : OrderCreatedPayload → Json
order_created_payload_json p = obj (
    field "orderId" (str p.order_id) (
      field "customerId" (str p.customer_id) (
        field "shippingAddress" (shipping_address_json p.shipping_address) (
          field "items" (arr (of_list (map order_item_json p.items))) (
            field "totalCents" (num p.total_cents)
              (field "currency" (str p.currency) (field "placedAt" (str p.placed_at) end)))))))

unfoldable pub order_created_json : Envelope OrderCreatedPayload → Json
unfolding envelope_json
order_created_json = envelope_json order_created_payload_json
