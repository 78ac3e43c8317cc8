-- ===== src/Orders/Handlers/Get.antt =====
-- Reading an order that was stored.
use logistics_platform.Prelude.{String, ◌≡◌, refl, ap, ◌∙◌, Option, none, some, List, [], ◌∷◌, map}
use logistics_platform.Result.{ok}
use logistics_platform.Runtime.{Runtime}
use logistics_platform.Messaging.OutboxTable.{NewRow}
use logistics_platform.Orders.Item
use logistics_platform.Orders.Item.{OrderItem}
use logistics_platform.Orders.Order
use logistics_platform.Orders.Order.{Order, RehydrateOrderProps, rehydrate, to_persistence}
use logistics_platform.Orders.Order.Rehydrate.{IsOrder, rehydrate-to_persistence}
use logistics_platform.Orders.Repository.{
  OrderClient, IsOrderClient, StoredOrder, stored_item, order_row, item_props, row_props, read_row,
  find_by_id,
}
use logistics_platform.Orders.Commands.{view}
use logistics_platform.Orders.Handlers.{get_order}

-- The order as a row keeps it: without its address and its pending events.
abbrev pub kept : Order → Order
kept o = record o { shipping_address_value = none; domain_events = [] }

items-kept :
    (items : List OrderItem) → map item_props (map stored_item items) ≡ map Item.to_primitives items
unfolding stored_item Item.to_primitives
items-kept [] = refl
items-kept (item ∷ items) = rw (items-kept items)

row_props-order_row : (o : Order) → row_props (order_row o) ≡ to_persistence (kept o)
unfolding order_row to_persistence
row_props-order_row o =
    ap
      (λ items. record {
        id = o.id;
        customer_id = o.customer_id;
        status = o.status;
        currency = o.currency;
        items = items;
        placed_at = o.placed_at;
        shipping_address = none;
      })
      (items-kept o.items)

kept-IsOrder : (o : Order) → IsOrder o → IsOrder (kept o)
kept-IsOrder o h = record {
  customer_given = h.customer_given;
  currency_length = h.currency_length;
  items_given = h.items_given;
  items_valid = h.items_valid;
}

read_row-rehydrate :
    (s : StoredOrder) {o : Order} → rehydrate (row_props s) ≡ ok o → read_row (some s) ≡ ok (some o)
unfolding read_row
read_row-rehydrate s h = rw (h, read_row) refl

pub read_row-order_row :
    (o : Order) → IsOrder o → read_row (some (order_row o)) ≡ ok (some (kept o))
read_row-order_row o h =
    read_row-rehydrate (order_row o)
      (ap rehydrate (row_props-order_row o) ∙ rehydrate-to_persistence (kept o) (kept-IsOrder o h))

module _ {W : Type 0} (client : OrderClient W) (orders : W → String → Option StoredOrder)
    (outbox : W → List NewRow) (laws : IsOrderClient client orders outbox) (rt : Runtime) where
  -- For an order client that behaves as documented, where a valid order was stored and the row is
  -- found, get_order returns the view of that order, with its own total.
  pub get_order-view :
      (o : Order)
      → IsOrder o
      → (w : W) (row : Option StoredOrder) → orders w o.id ≡ some (order_row o)
      → (client.find_unique o.id w).0 ≡ ok row
      → (get_order client rt o.id w).0 ≡ ok (view rt o)
  unfolding get_order find_by_id view Order.total_cents
  get_order-view o h w row stored found_row =
      let is_row = laws.find_ok o.id w row found_row ∙ stored in
      rw found_row (rw is_row (rw (read_row-order_row o h) refl))
