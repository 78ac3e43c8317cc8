-- ===== src/Orders/Repository.antt =====
-- apps/order-service/src/infrastructure/prisma/prisma-order.repository.ts. The generated Prisma
-- client is a parameter: each of its calls may fail.
use logistics_platform.Prelude.{ℕ, String, ◌≡◌, ◌≢◌, Option, none, some, List, [], ◌∷◌, ◌++◌, map}
use logistics_platform.Number.{Number, nat}
use logistics_platform.Json.{Json, str, obj, Fields, end, field}
use logistics_platform.Result.{Failure, Result, ok, err}
use logistics_platform.Act.{Act, lift, ◌>>=◌}
use logistics_platform.Contracts.OrderCreated.{order_created_json}
use logistics_platform.Messaging.OutboxTable.{NewRow}
use logistics_platform.Orders.Item.{OrderItemProps, OrderItem}
use logistics_platform.Orders.Order.{Order, OrderStatus, RehydrateOrderProps, rehydrate}
use logistics_platform.Orders.Order
use logistics_platform.Orders.Publisher.{PendingOutboxMessage}

pub record StoredItem : Type 0 where
  pub sku : String
  pub name : String
  pub quantity : ℕ
  pub unit_price_cents : ℕ

-- A row of `orders` with its items. The service writes no other status than the enumerated ones.
pub record StoredOrder : Type 0 where
  pub id : String
  pub customer_id : String
  pub status : OrderStatus
  pub total_cents : Number
  pub currency : String
  pub placed_at : ℕ
  pub items : List StoredItem

-- What `update` writes.
pub record OrderData : Type 0 where
  pub status : OrderStatus
  pub total_cents : Number
  pub currency : String
  pub placed_at : ℕ

pub record OrderClient (W : Type 0) : Type 0 where
  -- `$transaction([order.create({ data }), outbox.create({ data })])`
  pub create_both : StoredOrder → NewRow → Act W (Unit {0})
  -- `order.findUnique({ where: { id }, include: { items: true } })`
  pub find_unique : String → Act W (Option StoredOrder)
  -- `order.update({ where: { id }, data })`
  pub update : String → OrderData → Act W (Unit {0})

abbrev pub updated : OrderData → StoredOrder → StoredOrder
updated d o = record o {
  status = d.status;
  total_cents = d.total_cents;
  currency = d.currency;
  placed_at = d.placed_at;
}

-- The documented behaviour of the client. `orders w` finds an order by its key, `outbox w` lists
-- the messages in the order of their creation.
pub record IsOrderClient {W : Type 0} (client : OrderClient W)
    (orders : W → String → Option StoredOrder) (outbox : W → List NewRow) : Type 0 where
  pub keyed : (w : W) (id : String) (o : StoredOrder) → orders w id ≡ some o → o.id ≡ id
  pub create_ok :
      (o : StoredOrder) (m : NewRow) (w : W)
      → (client.create_both o m w).0 ≡ ok tt
      → (orders (client.create_both o m w).1 o.id ≡ some o)
        × (outbox (client.create_both o m w).1 ≡ outbox w ++ m ∷ [])
  pub create_ne :
      (o : StoredOrder) (m : NewRow) (w : W) (id : String)
      → id ≢ o.id
      → orders (client.create_both o m w).1 id ≡ orders w id
  pub create_err :
      (o : StoredOrder) (m : NewRow) (w : W) (e : Failure)
      → (client.create_both o m w).0 ≡ err e
      → ((id : String) → orders (client.create_both o m w).1 id ≡ orders w id)
        × (outbox (client.create_both o m w).1 ≡ outbox w)
  pub find_keeps :
      (id : String) (w : W)
      → ((other : String) → orders (client.find_unique id w).1 other ≡ orders w other)
        × (outbox (client.find_unique id w).1 ≡ outbox w)
  pub find_ok :
      (id : String) (w : W) (o : Option StoredOrder)
      → (client.find_unique id w).0 ≡ ok o
      → o ≡ orders w id
  pub update_ok :
      (id : String) (d : OrderData) (w : W)
      → (client.update id d w).0 ≡ ok tt
      → (o : StoredOrder) × (orders w id ≡ some o)
        × (orders (client.update id d w).1 id ≡ some (updated d o))
  pub update_ne :
      (id : String) (d : OrderData) (w : W) (other : String)
      → other ≢ id
      → orders (client.update id d w).1 other ≡ orders w other
  pub update_err :
      (id : String) (d : OrderData) (w : W) (e : Failure)
      → (client.update id d w).0 ≡ err e
      → orders (client.update id d w).1 id ≡ orders w id
  pub update_outbox :
      (id : String) (d : OrderData) (w : W) → outbox (client.update id d w).1 ≡ outbox w

unfoldable pub stored_item : OrderItem → StoredItem
stored_item item = record {
  sku = item.sku;
  name = item.name;
  quantity = item.quantity;
  unit_price_cents = item.unit_price_cents;
}

unfoldable pub order_row : Order → StoredOrder
unfolding stored_item
order_row o = record {
  id = o.id;
  customer_id = o.customer_id;
  status = o.status;
  total_cents = Order.total_cents o;
  currency = o.currency;
  placed_at = o.placed_at;
  items = map stored_item o.items;
}

abbrev header_fields : List (String × String) → Fields
header_fields [] = end
header_fields ((key, value) ∷ hs) = field key (str value) (header_fields hs)

abbrev headers_json : Option (List (String × String)) → Option Json
headers_json none = none
headers_json (some hs) = some (obj (header_fields hs))

unfoldable pub outbox_row : PendingOutboxMessage → NewRow
outbox_row m = record {
  aggregate_type = m.aggregate_type;
  aggregate_id = m.aggregate_id;
  event_type = m.event_type;
  routing_key = m.routing_key;
  payload = order_created_json m.payload;
  headers = headers_json m.headers;
}

abbrev pub item_props : StoredItem → OrderItemProps
item_props item = record {
  sku = item.sku;
  name = item.name;
  quantity = nat item.quantity;
  unit_price_cents = nat item.unit_price_cents;
}

abbrev pub row_props : StoredOrder → RehydrateOrderProps
row_props o = record {
  id = o.id;
  customer_id = o.customer_id;
  status = o.status;
  currency = o.currency;
  items = map item_props o.items;
  placed_at = o.placed_at;
  shipping_address = none;
}

-- the order of a row, without an address
unfoldable pub read_row : Option StoredOrder → Result (Option Order)
read_row none = ok none
read_row (some o) = elim (rehydrate (row_props o)) [ ok order ↦ ok (some order) | err e ↦ err e ]

abbrev pub order_data : Order → OrderData
order_data o = record {
  status = o.status;
  total_cents = Order.total_cents o;
  currency = o.currency;
  placed_at = o.placed_at;
}

module _ {W : Type 0} (client : OrderClient W) where
  unfoldable pub save_new : Order → PendingOutboxMessage → Act W (Unit {0})
  save_new o m = client.create_both (order_row o) (outbox_row m)

  unfoldable pub find_by_id : String → Act W (Option Order)
  find_by_id id = do row ← client.find_unique id; lift (read_row row)

  unfoldable pub update : Order → Act W (Unit {0})
  update o = client.update o.id (order_data o)
