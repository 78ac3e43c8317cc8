-- ===== src/Orders/Order/Totals.antt =====
-- The total of an order, against the exact sum.
use logistics_platform.Prelude.{ℕ, ◌+◌, ◌*◌, ◌<◌, ◌≡◌, ap, ◌∙◌, List, [], ◌∷◌, arith}
use logistics_platform.Number.{exact_limit, nat, plus, rounded_exact}
use logistics_platform.Orders.Item.{OrderItem}
use logistics_platform.Orders.Item.Laws.{total_cents_exact}
use logistics_platform.Orders.Order.{Order, sum_cents, total_cents}

-- The sum of quantity times unit price, in integers.
abbrev pub exact_total : List OrderItem → ℕ
exact_total [] = 0
exact_total (item ∷ items) = item.quantity * item.unit_price_cents + exact_total items

sum_cents_exact :
    (sum : ℕ) (items : List OrderItem)
    → sum + exact_total items < exact_limit
    → sum_cents (nat sum) items ≡ nat (sum + exact_total items)
unfolding sum_cents plus
sum_cents_exact sum [] h = ap nat (omega arith)
sum_cents_exact sum (item ∷ items) h =
    let product = item.quantity * item.unit_price_cents in
    rw (total_cents_exact item (omega arith)) (
      rw (rounded_exact (sum + product) (omega arith))
        (sum_cents_exact (sum + product) items (omega arith) ∙ ap nat (omega arith)))

-- While the exact sum of quantity times price is below 2 ^ 53, the total that the code computes in
-- doubles is that sum.
pub order-total_cents_exact :
    (o : Order) → exact_total o.items < exact_limit → total_cents o ≡ nat (exact_total o.items)
unfolding total_cents
order-total_cents_exact o h = sum_cents_exact 0 o.items (omega arith) ∙ ap nat (omega arith)
