-- ===== src/Orders/Order.antt =====
-- apps/order-service/src/domain/order.aggregate.ts, order-created.event.ts, order-status.enum.ts
pub mod Rehydrate
pub mod Lifecycle
pub mod Totals
use logistics_platform.Prelude.{
  ℕ, zero, suc, ◌+◌, String, ◌≡◌, Bool, true, false, not, ◌||◌, ◌&&◌, Option, none, some, List, [],
  ◌∷◌, ◌++◌, map, eqb, if◌then◌else◌, or_else,
}
use mathlib.Core.Option
use logistics_platform.Text.{is_empty, trim, text_length, to_upper_case}
use logistics_platform.Number.{Number, nat, plus}
use logistics_platform.Result.{Failure, error, Result, ok, err, ◌>>=◌, ◌>>◌, guard, map_all}
use logistics_platform.Runtime.{Runtime}
use logistics_platform.Orders.Item
use logistics_platform.Orders.Item.{OrderItemProps, OrderItem}

pub data OrderStatus : Type 0 where
  pending confirmed cancelled : OrderStatus

pub record ShippingAddress : Type 0 where
  pub line1 : String
  pub line2 : Option String
  pub city : String
  pub region : String
  pub postal_code : String
  pub country : String

pub record OrderCreatedEvent : Type 0 where
  pub order_id : String
  pub customer_id : String
  pub items : List OrderItemProps
  pub total_cents : Number
  pub currency : String
  pub shipping_address : ShippingAddress
  pub placed_at : ℕ
  pub occurred_at : ℕ

pub record PlaceOrderProps : Type 0 where
  pub id : Option String
  pub customer_id : String
  pub currency : String
  pub items : List OrderItemProps
  pub shipping_address : ShippingAddress
  pub placed_at : Option ℕ

pub record RehydrateOrderProps : Type 0 where
  pub id : String
  pub customer_id : String
  pub status : OrderStatus
  pub currency : String
  pub items : List OrderItemProps
  pub placed_at : ℕ
  pub shipping_address : Option ShippingAddress

pub record Order : Type 0 where
  pub id : String
  pub customer_id : String
  pub status : OrderStatus
  pub currency : String
  pub items : List OrderItem
  pub placed_at : ℕ
  pub shipping_address_value : Option ShippingAddress
  pub domain_events : List OrderCreatedEvent

abbrev pub no_items : List OrderItem → Bool
no_items [] = true
no_items (_ ∷ _) = false

-- the checks of the constructor
unfoldable pub new_order :
    String
    → String
    → OrderStatus
    → String
    → List OrderItem
    → ℕ
    → Option ShippingAddress
    → Result Order
new_order id customer_id status currency items placed_at address = do
  guard (not (is_empty (trim customer_id))) (error "Customer ID is required")
  guard (not (is_empty (trim currency) || not (eqb (text_length (trim currency)) 3)))
      (error "Currency must be a 3-letter code")
  guard (not (no_items items)) (error "Order must contain at least one item")
  ok (record {
    id = id;
    customer_id = customer_id;
    status = status;
    currency = currency;
    items = items;
    placed_at = placed_at;
    shipping_address_value = address;
    domain_events = [];
  })

-- `get totalCents()`: the sum is rounded at each addition
sum_cents : Number → List OrderItem → Number
sum_cents sum [] = sum
sum_cents sum (item ∷ items) = sum_cents (plus sum (Item.total_cents item)) items

unfoldable pub total_cents : Order → Number
unfolding sum_cents
total_cents o = sum_cents (nat 0) o.items

unfoldable pub shipping_address : Order → Result ShippingAddress
shipping_address o = elim o.shipping_address_value [
  | none ↦ err (error "Shipping address is unavailable for this order state")
  | some address ↦ ok address
]

unfoldable pub normalized : Runtime → ShippingAddress → ShippingAddress
normalized rt a = record {
  line1 = trim a.line1;
  line2 = Option.map trim a.line2;
  city = trim a.city;
  region = trim a.region;
  postal_code = trim a.postal_code;
  country = to_upper_case rt.upper_other (trim a.country);
}

-- `uuid` is what `randomUUID()` returns, `now` the time of `new Date()`.
unfoldable pub place : Runtime → (uuid : String) (now : ℕ) → PlaceOrderProps → Result Order
unfolding new_order shipping_address normalized
place rt uuid now props = do
  let placed_at = or_else props.placed_at now
  items ← map_all Item.create props.items
  order ←
      new_order (or_else props.id uuid) props.customer_id pending
        (to_upper_case rt.upper_other props.currency) items placed_at
        (some (normalized rt props.shipping_address))
  address ← shipping_address order
  ok (record order {
    domain_events =
        order.domain_events
        ++ record {
          order_id = order.id;
          customer_id = order.customer_id;
          items = map Item.to_primitives order.items;
          total_cents = total_cents order;
          currency = order.currency;
          shipping_address = address;
          placed_at = order.placed_at;
          occurred_at = placed_at;
        }
          ∷ [];
  })

unfoldable pub rehydrate : RehydrateOrderProps → Result Order
unfolding new_order
rehydrate props = do
  items ← map_all Item.create props.items
  new_order props.id props.customer_id props.status props.currency items props.placed_at
      props.shipping_address

confirm_status : OrderStatus → Result OrderStatus
confirm_status cancelled = err (error "Cancelled order cannot be confirmed")
confirm_status _ = ok confirmed

unfoldable pub confirm : Order → Result Order
unfolding confirm_status
confirm o = do status ← confirm_status o.status; ok (record o { status = status })

cancel_status : OrderStatus → Result OrderStatus
cancel_status cancelled = err (error "Order is already cancelled")
cancel_status confirmed = err (error "Confirmed order cannot be cancelled")
cancel_status pending = ok cancelled

unfoldable pub cancel : Order → Result Order
unfolding cancel_status
cancel o = do status ← cancel_status o.status; ok (record o { status = status })

unfoldable pub pull_domain_events : Order → List OrderCreatedEvent × Order
pull_domain_events o = (o.domain_events, record o { domain_events = [] })

unfoldable pub to_persistence : Order → RehydrateOrderProps
to_persistence o = record {
  id = o.id;
  customer_id = o.customer_id;
  status = o.status;
  currency = o.currency;
  items = map Item.to_primitives o.items;
  placed_at = o.placed_at;
  shipping_address = o.shipping_address_value;
}
