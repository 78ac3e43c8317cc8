-- ===== src/Tests/Samples.antt =====
-- Values for the tests: a host, an order, and an outbox of one row whose calls never fail.
use Prim.Native.String.{◌∷◌}
use logistics_platform.Prelude.{
  ℕ, ◌≤◌, String, ◌≡◌, refl, Bool, true, false, ◌&&◌, Option, none, some, List, [], ◌∷◌ as cons,
  ◌==◌, eq_iff, ltb, All, length, arith, if◌then◌else◌,
}
use logistics_platform.Number.{nat}
use logistics_platform.Json.{null}
use logistics_platform.Result.{error, ok, err, ok-injective}
use logistics_platform.Runtime.{Runtime}
use logistics_platform.Contracts.Envelope.{Envelope}
use logistics_platform.Contracts.OrderCreated.{OrderCreatedPayload}
use logistics_platform.Contracts.ShipmentStatusChanged.{
  ShipmentStatus, ShipmentStatusChangedPayload,
}
use logistics_platform.Observability.Correlation.{is_uuid}
use logistics_platform.Messaging.Outbox.{Publish}
use logistics_platform.Messaging.OutboxTable.{
  OutboxRow, OutboxTable, IsOutboxTable, HasDistinctIds, is_pending,
}
use logistics_platform.Messaging.Relay.{OutboxRelayOptions}
use logistics_platform.Orders.Item.{OrderItem}
use logistics_platform.Orders.Order.{PlaceOrderProps, ShippingAddress, Order, pending}

abbrev pub rt : Runtime
rt = record {
  upper_other = λ c. c ∷ "";
  to_iso_string = λ t. "2026-01-01T00:00:00.000Z";
  date_of = λ s. 0;
  uuid_format = is_uuid;
  datetime_format = λ s. s == "2026-01-01T00:00:00.000Z";
  number_text = λ n. "0";
}

abbrev pub uuid_a : String
uuid_a = "a3f1c2b4-5e6d-4c7b-9a8f-1d2e3c4b5a6f"

abbrev pub widget : OrderItem
widget = record { sku = "SKU-001"; name = "Widget"; quantity = 2; unit_price_cents = 1999 }

abbrev pub address : ShippingAddress
address = record {
  line1 = "1 Market St";
  line2 = none;
  city = "San Francisco";
  region = "CA";
  postal_code = "94103";
  country = "US";
}

abbrev pub order : Order
order = record {
  id = uuid_a;
  customer_id = uuid_a;
  status = pending;
  currency = "USD";
  items = cons widget [];
  placed_at = 5;
  shipping_address_value = some address;
  domain_events = [];
}

abbrev pub order_props : PlaceOrderProps
order_props = record {
  id = none;
  customer_id = uuid_a;
  currency = "usd";
  items =
      cons
        (record {
          sku = " SKU-001 ";
          name = "Widget";
          quantity = nat 2;
          unit_price_cents = nat 1999;
        })
        [];
  shipping_address = record address { country = "us" };
  placed_at = none;
}

-- The row has the key "o1".
abbrev pub one_row : OutboxRow → String → Option OutboxRow
one_row w id = if id == "o1" then some w else none

abbrev pub one_table : OutboxTable OutboxRow
one_table = record {
  find_pending = λ n w. (ok (if w.id == "o1" && is_pending w && ltb 0 n then cons w [] else []), w);
  update = λ id f w. if id == "o1" then (ok (f w), f w) else (err (error "Record not found"), w);
  count_pending = λ w. (ok (if is_pending w then 1 else 0), w);
  now = λ w. 7;
}

find_one :
    (n : ℕ) (w : OutboxRow) (rs : List OutboxRow) (b : Bool)
    → b ≡ (w.id == "o1" && is_pending w && ltb 0 n)
    → ok (if b then cons w [] else []) ≡ ok rs
    → All (λ r. (one_row w r.id ≡ some r) × (is_pending r ≡ true)) rs
      × HasDistinctIds rs
      × (length rs ≤ n)
find_one n w rs false e h = rw (← ok-injective h) (tt, tt, omega arith)
find_one n w rs true e h =
    rw (← ok-injective h)
      (((ground (arith, eq_iff w.id "o1"), ground arith), tt), (tt, tt), ground arith)

pub one_table-IsOutboxTable : IsOutboxTable one_table one_row
one_table-IsOutboxTable = record {
  find_pending_keeps = λ n w id. refl;
  find_pending_rows = λ n w rs h. find_one n w rs _ refl h;
  update_ok = λ id f w r' h. (w, ground arith, ground arith, ground arith);
  update_err = λ id f w e h. ground arith;
  update_ne = λ id f w other ne. ground (arith, eq_iff other "o1", eq_iff id "o1");
  count_keeps = λ w id. refl;
}

-- A broker that refuses every message, and one that takes every message.
abbrev pub refusing : {W : Type 0} → Publish W
refusing args w = (err (error "nacked"), w)

abbrev pub accepting : {W : Type 0} → Publish W
accepting args w = (ok tt, w)

abbrev pub options : OutboxRelayOptions
options = record {
  poll_interval_ms = 500;
  batch_size = 50;
  max_attempts = 10;
  service_name = "test";
}

abbrev pub waiting : ℕ → OutboxRow
waiting attempts = record {
  id = "o1";
  aggregate_type = "order";
  aggregate_id = uuid_a;
  event_type = "order.created";
  routing_key = "order.created";
  payload = null;
  headers = none;
  attempts = attempts;
  created_at = 1;
  published_at = none;
  dead_at = none;
  last_error = none;
}

abbrev pub created_payload : OrderCreatedPayload
created_payload = record {
  order_id = uuid_a;
  customer_id = uuid_a;
  shipping_address = address;
  items =
      cons
        (record { sku = "SKU-001"; name = "Widget"; quantity = nat 2; unit_price_cents = nat 1999 })
        [];
  total_cents = nat 3998;
  currency = "USD";
  placed_at = "2026-01-01T00:00:00.000Z";
}

abbrev pub enveloped : {P : Type 0} → String → P → Envelope P
enveloped event_type payload = record {
  event_id = uuid_a;
  event_type = event_type;
  event_version = nat 1;
  occurred_at = "2026-01-01T00:00:00.000Z";
  correlation_id = uuid_a;
  causation_id = none;
  producer = "test";
  payload = payload;
}

abbrev pub moved : ShipmentStatusChangedPayload
moved = record {
  shipment_id = uuid_a;
  order_id = uuid_a;
  previous_status = some ShipmentStatus.pending;
  current_status = ShipmentStatus.in_transit;
  changed_at = "2026-01-01T00:00:00.000Z";
  location = some (record { latitude = nat 37; longitude = nat 122; label = none });
}
