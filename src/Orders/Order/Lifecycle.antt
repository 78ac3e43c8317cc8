-- ===== src/Orders/Order/Lifecycle.antt =====
-- The status of an order over any sequence of calls of `confirm` and `cancel`.
use logistics_platform.Prelude.{◌≡◌, ◌≢◌, refl, List, [], ◌∷◌, arith}
use logistics_platform.Result.{Result, ok, err}
use logistics_platform.Orders.Order.{
  Order, OrderStatus, pending, confirmed, cancelled, confirm, cancel,
}
use logistics_platform.Orders.Order.Rehydrate.{IsOrder}

pub data Command : Type 0 where
  confirming cancelling : Command

pub call : Command → Order → Result Order
call confirming o = confirm o
call cancelling o = cancel o

-- An order after a call: one that throws has changed nothing.
abbrev pub kept : Order → Result Order → Order
kept o (ok o') = o'
kept o (err e) = o

pub run : List Command → Order → Order
unfolding call confirm cancel
run [] o = o
run (c ∷ cs) o = run cs (kept o (call c o))

abbrev pub target : Command → OrderStatus
target confirming = confirmed
target cancelling = cancelled

-- Nothing but the status ever changes.
pub record SameContent (o o' : Order) : Type 0 where
  pub id : o'.id ≡ o.id
  pub customer_id : o'.customer_id ≡ o.customer_id
  pub currency : o'.currency ≡ o.currency
  pub items : o'.items ≡ o.items
  pub placed_at : o'.placed_at ≡ o.placed_at
  pub address : o'.shipping_address_value ≡ o.shipping_address_value
  pub events : o'.domain_events ≡ o.domain_events

SameContent-kept : (c : Command) (o : Order) → SameContent o (kept o (call c o))
unfolding run
SameContent-kept confirming o = ground arith
SameContent-kept cancelling o = ground arith

SameContent-trans : {o o' o'' : Order} → SameContent o o' → SameContent o' o'' → SameContent o o''
SameContent-trans h k = ground arith

run-SameContent : (cs : List Command) (o : Order) → SameContent o (run cs o)
unfolding run
run-SameContent [] o = ground arith
run-SameContent (c ∷ cs) o =
    SameContent-trans (SameContent-kept c o) (run-SameContent cs (kept o (call c o)))

settled : (c : Command) (o : Order) → o.status ≢ pending → (kept o (call c o)).status ≡ o.status
unfolding run
settled confirming o h = ground arith
settled cancelling o h = ground arith

run-settled : (cs : List Command) (o : Order) → o.status ≢ pending → (run cs o).status ≡ o.status
unfolding run
run-settled [] o h = refl
run-settled (c ∷ cs) o h =
    rw (run-settled cs (kept o (call c o)) (rw (settled c o h) h)) (settled c o h)

first_call : (c : Command) (o : Order) → o.status ≡ pending → (kept o (call c o)).status ≡ target c
unfolding run
first_call confirming o h = ground arith
first_call cancelling o h = ground arith

target-ne-pending : (c : Command) → target c ≢ pending
target-ne-pending confirming h = cc
target-ne-pending cancelling h = cc

pub first_call_decides :
    (c : Command) (cs : List Command) (o : Order)
    → o.status ≡ pending
    → (run (c ∷ cs) o).status ≡ target c
unfolding run
first_call_decides c cs o h =
    rw (run-settled cs (kept o (call c o)) (rw (first_call c o h) (target-ne-pending c)))
      (first_call c o h)

-- The status that a sequence of calls gives a pending order.
abbrev pub first_target : List Command → OrderStatus
first_target [] = pending
first_target (c ∷ cs) = target c

run_first :
    (cs : List Command) (o : Order) → o.status ≡ pending → (run cs o).status ≡ first_target cs
unfolding run
run_first [] o h = h
run_first (c ∷ cs) o h = first_call_decides c cs o h

-- A valid order stays valid under any sequence of calls of confirm and cancel, whether they return
-- or throw, and all of it but its status is as it was; a pending order gets the status that the
-- first of the calls asks for, and keeps it, and an order that is not pending keeps its status.
pub run-IsOrder :
    (cs : List Command) (o : Order)
    → IsOrder o
    → IsOrder (run cs o)
      × SameContent o (run cs o)
      × (o.status ≡ pending → (run cs o).status ≡ first_target cs)
      × (o.status ≢ pending → (run cs o).status ≡ o.status)
run-IsOrder cs o v =
    let same = run-SameContent cs o in
    (
      record {
        customer_given = rw same.customer_id v.customer_given;
        currency_length = rw same.currency v.currency_length;
        items_given = rw same.items v.items_given;
        items_valid = rw same.items v.items_valid;
      },
      same,
      run_first cs o,
      run-settled cs o,
    )
