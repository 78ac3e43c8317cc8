-- ===== src/Tests/Orders.antt =====
-- Orders.
use logistics_platform.Prelude.{◌≡◌, ◌≢◌, refl, ◌↔◌, [], ◌∷◌, arith}
use logistics_platform.Text.{trim, to_upper_case, text_length}
use logistics_platform.Number.{nat, rounded, plus, double}
use logistics_platform.Result.{Result, ok, err}
use logistics_platform.Orders.Item
use logistics_platform.Orders.Item.{OrderItemProps, OrderItem}
use logistics_platform.Orders.Item.Laws.{IsItem, Makes, create-Makes_iff}
use logistics_platform.Orders.Order.{
  Order, pending, cancelled, place, total_cents, rehydrate, to_persistence,
}
use logistics_platform.Orders.Order.Rehydrate.{
  IsOrder, rehydrate-to_persistence, Placed, place-Placed,
}
use logistics_platform.Orders.Order.Lifecycle.{
  confirming, cancelling, run, SameContent, run-IsOrder,
}
use logistics_platform.Orders.Order.Totals.{order-total_cents_exact}
use logistics_platform.Tests.Samples.{rt, uuid_a, widget, order, order_props}

widget-IsItem : IsItem widget
unfolding trim
widget-IsItem = record {
  sku_trimmed = refl;
  name_trimmed = refl;
  sku_given = refl;
  name_given = refl;
  some_pieces = omega arith;
}

pub order-IsOrder : IsOrder order
unfolding trim text_length
order-IsOrder = record {
  customer_given = refl;
  currency_length = refl;
  items_given = refl;
  items_valid = (widget-IsItem, tt);
}

abbrev padded : OrderItemProps
padded = record {
  sku = " SKU-001 ";
  name = "Widget";
  quantity = nat 2;
  unit_price_cents = nat 1999;
}

create-Makes_iff_example : (Item.create padded ≡ ok widget) ↔ Makes padded widget
create-Makes_iff_example = create-Makes_iff padded widget

rehydrate-to_persistence_example : rehydrate (to_persistence order) ≡ ok order
rehydrate-to_persistence_example = rehydrate-to_persistence order order-IsOrder

run-IsOrder_example :
    IsOrder (run (cancelling ∷ confirming ∷ []) order)
    × SameContent order (run (cancelling ∷ confirming ∷ []) order)
    × (order.status ≡ pending → (run (cancelling ∷ confirming ∷ []) order).status ≡ cancelled)
    × (order.status ≢ pending → (run (cancelling ∷ confirming ∷ []) order).status ≡ order.status)
run-IsOrder_example = run-IsOrder (cancelling ∷ confirming ∷ []) order order-IsOrder

order-total_cents_exact_example : total_cents order ≡ nat 3998
order-total_cents_exact_example = order-total_cents_exact order (omega arith)

abbrev placed : Result Order
placed = place rt uuid_a 5 order_props

abbrev order_of : Result Order → Order
order_of (ok o) = o
order_of (err e) = order

placed_ok : placed ≡ ok (order_of placed)
unfolding place Item.create trim to_upper_case text_length total_cents Item.total_cents rounded plus
    double
placed_ok = refl

place-Placed_example : Placed rt uuid_a 5 order_props (order_of placed)
place-Placed_example = place-Placed rt uuid_a 5 order_props placed_ok
