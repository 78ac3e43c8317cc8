-- ===== src/Contracts/Acceptance.antt =====
-- Which events the schemas accept, and what a consumer reads of them.
use logistics_platform.Prelude.{
  String, ◌≡◌, refl, Bool, true, Option, none, some, List, [], ◌∷◌, ◌==◌, map, all, ◌&&◌,
  if◌then◌else◌, leb, length, arith,
}
use logistics_platform.Runtime.{Runtime}
use logistics_platform.Json.{
  Json, Fields, obj, within, of_list, all_of, at_least_one, has_length, positive_int,
  nonnegative_int, nullable,
}
use logistics_platform.Contracts.Envelope.{
  Envelope, order_created, order_cancelled, shipment_status_changed, event_schema,
  base_envelope_json, base_event_envelope_schema,
}
use logistics_platform.Contracts.OrderCreated.{
  OrderCreatedPayload, order_item_schema, order_item_json, shipping_address_schema,
  shipping_address_json, order_created_payload_schema, order_created_payload_json,
  order_created_event_schema, order_created_json,
}
use logistics_platform.Contracts.OrderCancelled.{
  OrderCancelledPayload, is_reason, order_cancelled_payload_schema, order_cancelled_payload_json,
  order_cancelled_event_schema, order_cancelled_json,
}
use logistics_platform.Contracts.ShipmentStatusChanged.{
  ShipmentStatus, pending, status_of, status_text, EventLocation, ShipmentStatusChangedPayload,
  location_schema, location_json, shipment_status_schema, previous_json,
  shipment_status_changed_payload_schema, shipment_status_changed_payload_json,
  shipment_status_changed_event_schema, shipment_status_changed_json,
}
use logistics_platform.Orders.Item.{OrderItemProps}
use logistics_platform.Orders.Order.{ShippingAddress}

-- The checks of the schemas, as tests on the values themselves.
abbrev pub item_ok : OrderItemProps → Bool
item_ok item =
    at_least_one item.sku
    && at_least_one item.name
    && positive_int item.quantity
    && nonnegative_int item.unit_price_cents

abbrev pub address_ok : ShippingAddress → Bool
address_ok a =
    at_least_one a.line1
    && at_least_one a.city
    && at_least_one a.region
    && at_least_one a.postal_code
    && has_length 2 a.country

abbrev pub payload_ok : Runtime → OrderCreatedPayload → Bool
payload_ok rt p =
    rt.uuid_format p.order_id
    && rt.uuid_format p.customer_id
    && address_ok p.shipping_address
    && (all item_ok p.items && leb 1 (length p.items))
    && nonnegative_int p.total_cents
    && has_length 3 p.currency
    && rt.datetime_format p.placed_at

abbrev pub causation_ok : Runtime → Option String → Bool
causation_ok rt none = true
causation_ok rt (some s) = rt.uuid_format s

abbrev pub envelope_ok : {P : Type 0} → Runtime → Envelope P → Bool
envelope_ok rt e =
    rt.uuid_format e.event_id
    && positive_int e.event_version
    && rt.datetime_format e.occurred_at
    && rt.uuid_format e.correlation_id
    && causation_ok rt e.causation_id
    && at_least_one e.producer

abbrev pub some_if {ℓ} : {A : Type ℓ} → Bool → A → Option A
some_if b a = if b then some a else none

item_read :
    (item : OrderItemProps) → order_item_schema (order_item_json item) ≡ some_if (item_ok item) item
unfolding order_item_schema order_item_json
item_read item = ground arith

items_read :
    (items : List OrderItemProps)
    → all_of order_item_schema (of_list (map order_item_json items))
      ≡ some_if (all item_ok items) items
items_read [] = refl
items_read (item ∷ items) = rw (item_read item) (rw (items_read items) (ground arith))

address_read :
    (a : ShippingAddress)
    → shipping_address_schema (shipping_address_json a) ≡ some_if (address_ok a) a
unfolding shipping_address_schema shipping_address_json
address_read a = ground arith

payload_read :
    (rt : Runtime) (p : OrderCreatedPayload)
    → order_created_payload_schema rt (order_created_payload_json p) ≡ some_if (payload_ok rt p) p
unfolding order_created_payload_schema order_created_payload_json
payload_read rt p = rw (address_read p.shipping_address) (rw (items_read p.items) (ground arith))

-- On the JSON of an order.created envelope the schema returns that envelope if all of its checks
-- hold, and refuses it otherwise.
pub order_created_read :
    (rt : Runtime) (e : Envelope OrderCreatedPayload)
    → order_created_event_schema rt (order_created_json e)
      ≡ some_if (envelope_ok rt e && (e.event_type == order_created) && payload_ok rt e.payload) e
unfolding order_created_event_schema order_created_json
order_created_read rt e = rw (payload_read rt e.payload) (ground arith)

abbrev pub cancellation_ok : Runtime → OrderCancelledPayload → Bool
cancellation_ok rt p =
    rt.uuid_format p.order_id
    && rt.uuid_format p.customer_id
    && is_reason p.reason
    && rt.datetime_format p.cancelled_at

cancellation_read :
    (rt : Runtime) (p : OrderCancelledPayload)
    → order_cancelled_payload_schema rt (order_cancelled_payload_json p)
      ≡ some_if (cancellation_ok rt p) p
unfolding order_cancelled_payload_schema order_cancelled_payload_json
cancellation_read rt p = ground arith

-- The same for order.cancelled.
pub order_cancelled_read :
    (rt : Runtime) (e : Envelope OrderCancelledPayload)
    → order_cancelled_event_schema rt (order_cancelled_json e)
      ≡ some_if
          (envelope_ok rt e && (e.event_type == order_cancelled) && cancellation_ok rt e.payload)
          e
unfolding order_cancelled_event_schema order_cancelled_json
order_cancelled_read rt e = rw (cancellation_read rt e.payload) (ground arith)

status_read : (s : ShipmentStatus) → status_of (status_text s) ≡ some s
unfolding status_of status_text
status_read pending = refl
status_read _ = refl

abbrev pub location_ok : Option EventLocation → Bool
location_ok none = true
location_ok (some l) = within 90 l.latitude && within 180 l.longitude

location_read :
    (l : Option EventLocation)
    → nullable location_schema (location_json l) ≡ some_if (location_ok l) l
unfolding location_schema location_json
location_read none = refl
location_read (some l) = ground arith

previous_read :
    (s : Option ShipmentStatus) → nullable shipment_status_schema (previous_json s) ≡ some s
previous_read none = refl
previous_read (some s) = rw (status_read s)

abbrev pub change_ok : Runtime → ShipmentStatusChangedPayload → Bool
change_ok rt p =
    rt.uuid_format p.shipment_id
    && rt.uuid_format p.order_id
    && rt.datetime_format p.changed_at
    && location_ok p.location

change_read :
    (rt : Runtime) (p : ShipmentStatusChangedPayload)
    → shipment_status_changed_payload_schema rt (shipment_status_changed_payload_json p)
      ≡ some_if (change_ok rt p) p
unfolding shipment_status_changed_payload_schema shipment_status_changed_payload_json
change_read rt p =
    rw (previous_read p.previous_status)
      (rw (status_read p.current_status) (rw (location_read p.location) (ground arith)))

-- On the JSON of a shipment.status_changed envelope the schema returns that envelope if its checks
-- hold, with every one of the seven statuses accepted, and refuses it otherwise.
pub shipment_status_changed_read :
    (rt : Runtime) (e : Envelope ShipmentStatusChangedPayload)
    → shipment_status_changed_event_schema rt (shipment_status_changed_json e)
      ≡ some_if
          (envelope_ok rt e && (e.event_type == shipment_status_changed) && change_ok rt e.payload)
          e
unfolding shipment_status_changed_event_schema shipment_status_changed_json
shipment_status_changed_read rt e = rw (change_read rt e.payload) (ground arith)

two_stage_fields :
    {P : Type 0} (rt : Runtime) (type_ok : String → Bool) (payload_schema : Option Json → Option P)
    (fs : Fields) {b : Envelope (Option Json)}
    → base_event_envelope_schema rt (obj fs) ≡ some b
    → event_schema rt type_ok payload_schema (base_envelope_json b)
      ≡ event_schema rt type_ok payload_schema (obj fs)
unfolding event_schema base_event_envelope_schema base_envelope_json
two_stage_fields rt type_ok payload_schema fs h = ground arith

-- Where the base schema accepts a value, validating what it kept of it with a typed schema gives
-- the same as validating the value itself.
pub event_schema-base_envelope_json :
    {P : Type 0} (rt : Runtime) (type_ok : String → Bool) (payload_schema : Option Json → Option P)
    (v : Json) {b : Envelope (Option Json)}
    → base_event_envelope_schema rt v ≡ some b
    → event_schema rt type_ok payload_schema (base_envelope_json b)
      ≡ event_schema rt type_ok payload_schema v
unfolding event_schema base_event_envelope_schema
event_schema-base_envelope_json rt type_ok payload_schema (obj fs) h =
    two_stage_fields rt type_ok payload_schema fs h
event_schema-base_envelope_json rt type_ok payload_schema _ h = cc
