-- ===== src/Orders/Order/Rehydrate.antt =====
-- Which orders the aggregate can hold, and how they are placed, stored and read back.
use logistics_platform.Prelude.{
  ℕ, String, ◌≡◌, refl, subst, false, Option, some, List, [], ◌∷◌, map, All, arith, or_else,
}
use logistics_platform.Text.{is_empty, trim, text_length, to_upper_case}
use logistics_platform.Text.Laws.{is_empty_of_text_length}
use logistics_platform.Result.{ok, >>=-eq-ok, map_all, map_all-All, ok-injective}
use logistics_platform.Runtime.{Runtime}
use logistics_platform.Orders.Item
use logistics_platform.Orders.Item.{OrderItemProps, OrderItem}
use logistics_platform.Orders.Item.Laws.{IsItem, create-IsItem, create-to_primitives}
use logistics_platform.Orders.Order.{
  Order, OrderStatus, ShippingAddress, PlaceOrderProps, RehydrateOrderProps, no_items, new_order,
  place, rehydrate, to_persistence, pending, OrderCreatedEvent, total_cents, normalized,
}

pub record IsOrder (o : Order) : Type 0 where
  pub customer_given : is_empty (trim o.customer_id) ≡ false
  pub currency_length : text_length (trim o.currency) ≡ 3
  pub items_given : no_items o.items ≡ false
  pub items_valid : All IsItem o.items

map_all-to_primitives :
    (items : List OrderItem)
    → All IsItem items
    → map_all Item.create (map Item.to_primitives items) ≡ ok items
map_all-to_primitives [] h = refl
map_all-to_primitives (item ∷ items) (h, hs) =
    rw (create-to_primitives item h) (rw (map_all-to_primitives items hs))

new_order-IsOrder :
    (id customer_id : String) (status : OrderStatus) (currency : String) (items : List OrderItem)
    (placed_at : ℕ) (address : Option ShippingAddress) {o : Order}
    → All IsItem items
    → new_order id customer_id status currency items placed_at address ≡ ok o
    → IsOrder o
unfolding new_order
new_order-IsOrder id customer_id status currency items placed_at address v h = ground arith

pub new_order_of_IsOrder :
    (o : Order)
    → IsOrder o
    → new_order o.id o.customer_id o.status o.currency o.items o.placed_at o.shipping_address_value
      ≡ ok (record o { domain_events = [] })
unfolding new_order
new_order_of_IsOrder o h =
    rw (h.customer_given, is_empty_of_text_length (trim o.currency) h.currency_length)
      (rw (h.currency_length, h.items_given))

-- A valid order is read back from what to_persistence writes as it was, less its pending events.
pub rehydrate-to_persistence :
    (o : Order) → IsOrder o → rehydrate (to_persistence o) ≡ ok (record o { domain_events = [] })
unfolding rehydrate to_persistence
rehydrate-to_persistence o h =
    rw (map_all-to_primitives o.items h.items_valid) (new_order_of_IsOrder o h)

-- What is read from storage is a valid order, or the call throws.
pub rehydrate-IsOrder :
    (props : RehydrateOrderProps) {o : Order} → rehydrate props ≡ ok o → IsOrder o
unfolding rehydrate
rehydrate-IsOrder props h =
    let (items, made, built) = >>=-eq-ok (map_all Item.create props.items) _ h in
    new_order-IsOrder _ _ _ _ items _ _ (map_all-All Item.create IsItem create-IsItem _ _ made)
      built

pub rehydrate-eq :
    (props : RehydrateOrderProps) {o : Order}
    → rehydrate props ≡ ok o
    → (o.id ≡ props.id) × (o.status ≡ props.status)
unfolding rehydrate new_order
rehydrate-eq props h = ground arith

-- The event that announces an order.
abbrev pub created_event : Order → ShippingAddress → OrderCreatedEvent
created_event o address = record {
  order_id = o.id;
  customer_id = o.customer_id;
  items = map Item.to_primitives o.items;
  total_cents = total_cents o;
  currency = o.currency;
  shipping_address = address;
  placed_at = o.placed_at;
  occurred_at = o.placed_at;
}

-- An order as `place` makes it of its properties.
pub record Placed (rt : Runtime) (uuid : String) (now : ℕ) (props : PlaceOrderProps) (o : Order)
    : Type 0 where
  pub valid : IsOrder o
  pub id : o.id ≡ or_else props.id uuid
  pub customer_id : o.customer_id ≡ props.customer_id
  pub status : o.status ≡ pending
  pub currency : o.currency ≡ to_upper_case rt.upper_other props.currency
  pub items : map_all Item.create props.items ≡ ok o.items
  pub placed_at : o.placed_at ≡ or_else props.placed_at now
  pub address : o.shipping_address_value ≡ some (normalized rt props.shipping_address)
  pub events : o.domain_events ≡ created_event o (normalized rt props.shipping_address) ∷ []

-- An order fresh from the constructor, and the order that `place` makes of it.
abbrev bare : Runtime → String → ℕ → PlaceOrderProps → List OrderItem → Order
bare rt uuid now props items = record {
  id = or_else props.id uuid;
  customer_id = props.customer_id;
  status = pending;
  currency = to_upper_case rt.upper_other props.currency;
  items = items;
  placed_at = or_else props.placed_at now;
  shipping_address_value = some (normalized rt props.shipping_address);
  domain_events = [];
}

abbrev announced : Order → ShippingAddress → Order
announced o address = record o { domain_events = created_event o address ∷ [] }

new_order-eq :
    (o : Order) {o' : Order}
    → new_order o.id o.customer_id o.status o.currency o.items o.placed_at o.shipping_address_value
      ≡ ok o'
    → o' ≡ record o { domain_events = [] }
unfolding new_order
new_order-eq o h = ground arith

IsOrder-Placed :
    (rt : Runtime) (uuid : String) (now : ℕ) (props : PlaceOrderProps) (items : List OrderItem)
    → map_all Item.create props.items ≡ ok items
    → IsOrder (bare rt uuid now props items)
    → Placed rt uuid now props
        (announced (bare rt uuid now props items) (normalized rt props.shipping_address))
IsOrder-Placed rt uuid now props items made v = record {
  valid = record {
    customer_given = v.customer_given;
    currency_length = v.currency_length;
    items_given = v.items_given;
    items_valid = v.items_valid;
  };
  id = refl;
  customer_id = refl;
  status = refl;
  currency = refl;
  items = made;
  placed_at = refl;
  address = refl;
  events = unfold total_cents in refl;
}

-- Where place returns an order, it is valid and pending, has the given data, trimmed and
-- upper-cased as the code does, and carries the one event that announces it.
pub place-Placed :
    (rt : Runtime) (uuid : String) (now : ℕ) (props : PlaceOrderProps) {o : Order}
    → place rt uuid now props ≡ ok o
    → Placed rt uuid now props o
unfolding place
place-Placed rt uuid now props h =
    let (items, made, rest) = >>=-eq-ok (map_all Item.create props.items) _ h in
    let (order, built, done) = >>=-eq-ok (new_order _ _ _ _ items _ _) _ rest in
    let same : order ≡ bare rt uuid now props items =
      new_order-eq (bare rt uuid now props items) built in
    let valid = map_all-All Item.create IsItem create-IsItem _ _ made in
    let sound : IsOrder order = new_order-IsOrder _ _ _ _ items _ _ valid built in
    subst (Placed rt uuid now props) (ok-injective (rw same at done))
      (IsOrder-Placed rt uuid now props items made (rw same at sound))
