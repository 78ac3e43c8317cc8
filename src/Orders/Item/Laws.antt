-- ===== src/Orders/Item/Laws.antt =====
-- What `OrderItem.create` accepts.
use logistics_platform.Prelude.{ℕ, zero, suc, ◌<◌, ◌*◌, ◌≡◌, refl, ◌↔◌, sym, false, arith}
use logistics_platform.Text.{is_empty, trim}
use logistics_platform.Text.Laws.{trim_idem}
use logistics_platform.Number.{Number, nat, exact_limit, rounded_exact}
use logistics_platform.Result.{ok}
use logistics_platform.Orders.Item.{
  OrderItemProps, OrderItem, positive, create, total_cents, to_primitives,
}

-- An item as `create` leaves it: trimmed texts that are not empty, and at least one piece.
pub record IsItem (item : OrderItem) : Type 0 where
  pub sku_trimmed : trim item.sku ≡ item.sku
  pub name_trimmed : trim item.name ≡ item.name
  pub sku_given : is_empty item.sku ≡ false
  pub name_given : is_empty item.name ≡ false
  pub some_pieces : 0 < item.quantity

-- The properties that `create` accepts, and the item that it makes of them.
pub record Makes (props : OrderItemProps) (item : OrderItem) : Type 0 where
  pub sku_given : is_empty (trim props.sku) ≡ false
  pub name_given : is_empty (trim props.name) ≡ false
  pub sku : item.sku ≡ trim props.sku
  pub name : item.name ≡ trim props.name
  pub quantity : props.quantity ≡ nat item.quantity
  pub some_pieces : 0 < item.quantity
  pub price : props.unit_price_cents ≡ nat item.unit_price_cents

positive-eq-ok : (n : Number) {q : ℕ} → positive n ≡ ok q → (n ≡ nat q) × (0 < q)
unfolding positive
positive-eq-ok (nat (suc n)) h = ground arith
positive-eq-ok _ h = cc

positive_ok : (q : ℕ) → 0 < q → positive (nat q) ≡ ok q
unfolding positive
positive_ok zero h = elim h [ ]
positive_ok (suc q) h = refl

create-Makes :
    {props : OrderItemProps} {item : OrderItem} → create props ≡ ok item → Makes props item
unfolding create
create-Makes {props} {item} h = ground arith

Makes-create :
    {props : OrderItemProps} {item : OrderItem} → Makes props item → create props ≡ ok item
unfolding create
Makes-create {props} {item} h = ground arith

-- Creating an item returns an item exactly when the sku and the name are not blank and the quantity
-- is a positive and the price a non-negative integer, and then it has the trimmed texts and those
-- numbers.
pub create-Makes_iff :
    (props : OrderItemProps) (item : OrderItem) → (create props ≡ ok item) ↔ Makes props item
create-Makes_iff props item = (create-Makes, Makes-create)

pub Makes-IsItem : {props : OrderItemProps} {item : OrderItem} → Makes props item → IsItem item
Makes-IsItem {props} {item} m = record {
  sku_trimmed = rw m.sku (trim_idem props.sku);
  name_trimmed = rw m.name (trim_idem props.name);
  sku_given = rw m.sku m.sku_given;
  name_given = rw m.name m.name_given;
  some_pieces = m.some_pieces;
}

pub create-IsItem :
    (props : OrderItemProps) {item : OrderItem} → create props ≡ ok item → IsItem item
create-IsItem props h = Makes-IsItem (create-Makes h)

-- A valid item is created again, unchanged, from its own properties.
pub create-to_primitives : (item : OrderItem) → IsItem item → create (to_primitives item) ≡ ok item
unfolding to_primitives
create-to_primitives item h = Makes-create (record {
  sku_given = rw h.sku_trimmed h.sku_given;
  name_given = rw h.name_trimmed h.name_given;
  sku = sym h.sku_trimmed;
  name = sym h.name_trimmed;
  quantity = refl;
  some_pieces = h.some_pieces;
  price = refl;
})

-- Below 2 ^ 53 the total of an item is the exact product.
pub total_cents_exact :
    (item : OrderItem)
    → item.quantity * item.unit_price_cents < exact_limit
    → total_cents item ≡ nat (item.quantity * item.unit_price_cents)
unfolding total_cents
total_cents_exact item h = rounded_exact _ h
