-- ===== src/Orders/Item.antt =====
-- apps/order-service/src/domain/order-item.value-object.ts
pub mod Laws
use logistics_platform.Prelude.{
  ℕ, zero, suc, ◌*◌, String, Bool, true, false, not, List, if◌then◌else◌,
}
use logistics_platform.Text.{is_empty, trim}
use logistics_platform.Number.{Number, nat, rounded}
use logistics_platform.Result.{Failure, error, Result, ok, err, ◌>>=◌, ◌>>◌, guard}

pub record OrderItemProps : Type 0 where
  pub sku : String
  pub name : String
  pub quantity : Number
  pub unit_price_cents : Number

-- The constructor is private: `create` alone builds items, with the two numbers checked.
pub record OrderItem : Type 0 where
  pub sku : String
  pub name : String
  pub quantity : ℕ
  pub unit_price_cents : ℕ

-- the integer at least 1
positive : Number → Result ℕ
positive (nat (suc n)) = ok (suc n)
positive _ = err (error "Order item quantity must be a positive integer")

-- the integer at least 0
non_negative : Number → Result ℕ
non_negative (nat n) = ok n
non_negative _ = err (error "Order item unit price must be a non-negative integer")

unfoldable pub create : OrderItemProps → Result OrderItem
unfolding positive non_negative
create props = do
  guard (not (is_empty (trim props.sku))) (error "Order item SKU is required")
  guard (not (is_empty (trim props.name))) (error "Order item name is required")
  quantity ← positive props.quantity
  unit_price_cents ← non_negative props.unit_price_cents
  ok (record {
    sku = trim props.sku;
    name = trim props.name;
    quantity = quantity;
    unit_price_cents = unit_price_cents;
  })

unfoldable pub total_cents : OrderItem → Number
total_cents item = rounded (item.quantity * item.unit_price_cents)

unfoldable pub to_primitives : OrderItem → OrderItemProps
to_primitives item = record {
  sku = item.sku;
  name = item.name;
  quantity = nat item.quantity;
  unit_price_cents = nat item.unit_price_cents;
}
