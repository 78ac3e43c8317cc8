-- ===== src/Orders/Http/Cancelled.antt =====
-- The cancellation of an order over HTTP: the command, and the query that answers the request.
use logistics_platform.Prelude.{
  arith, String, ◌≡◌, refl, sym, ap, ◌∙◌, Option, some, some-injective, List,
}
use logistics_platform.Result.{Result, ok, error, err}
use logistics_platform.Act.{pure, continue_ok}
use logistics_platform.Runtime.{Runtime}
use logistics_platform.Messaging.OutboxTable.{NewRow}
use logistics_platform.Orders.Order
use logistics_platform.Orders.Order.{Order, OrderStatus, pending, cancelled}
use logistics_platform.Orders.Order.Rehydrate.{IsOrder}
use logistics_platform.Orders.Repository.{
  OrderClient, IsOrderClient, StoredOrder, OrderData, order_row, order_data, updated, find_by_id,
}
use logistics_platform.Orders.Repository
use logistics_platform.Orders.Commands.{view, OrderView}
use logistics_platform.Orders.Handlers.{cancel_order, get_order}
use logistics_platform.Orders.Handlers.Get.{kept, read_row-order_row, get_order-view}
use logistics_platform.Orders.Http

-- No call fails but that of an order that is not there.
pub record NeverFails {W : Type 0} (client : OrderClient W)
    (orders : W → String → Option StoredOrder) : Type 0 where
  pub finds :
      (id : String) (w : W) → (row : Option StoredOrder) × ((client.find_unique id w).0 ≡ ok row)
  pub updates :
      (id : String) (d : OrderData) (w : W) (row : StoredOrder)
      → orders w id ≡ some row
      → (client.update id d w).0 ≡ ok tt

abbrev pub cancelled_order : Order → Order
cancelled_order o = record o { status = cancelled }

updated-order_row :
    (o : Order)
    → updated (order_data (cancelled_order (kept o))) (order_row o) ≡ order_row (cancelled_order o)
unfolding order_row Order.total_cents
updated-order_row o = refl

cancelled-IsOrder : (o : Order) → IsOrder o → IsOrder (cancelled_order o)
cancelled-IsOrder o h = record {
  customer_given = h.customer_given;
  currency_length = h.currency_length;
  items_given = h.items_given;
  items_valid = h.items_valid;
}

cancel_pending :
    (o : Order) → o.status ≡ pending → Order.cancel (kept o) ≡ ok (cancelled_order (kept o))
unfolding Order.cancel
cancel_pending o h = ground arith

module _ {W : Type 0} (client : OrderClient W) (orders : W → String → Option StoredOrder)
    (outbox : W → List NewRow) (laws : IsOrderClient client orders outbox)
    (never : NeverFails client orders) (rt : Runtime) where
  abbrev read : String → W → W
  read id w = (client.find_unique id w).1

  read_row_of :
      (o : Order) (w : W)
      → orders w o.id ≡ some (order_row o)
      → (client.find_unique o.id w).0 ≡ ok (some (order_row o))
  read_row_of o w stored =
      let (row, found) = never.finds o.id w in
      found ∙ ap ok (laws.find_ok o.id w row found ∙ stored)

  abbrev after_cancel : Order → W → W
  after_cancel o w = (client.update o.id (order_data (cancelled_order (kept o))) (read o.id w)).1

  cancel_order-stored :
      (o : Order)
      → IsOrder o
      → o.status ≡ pending
      → (w : W) → orders w o.id ≡ some (order_row o)
      → (cancel_order client rt o.id w ≡ (ok (o.id, cancelled), after_cancel o w))
        × (orders (after_cancel o w) o.id ≡ some (order_row (cancelled_order o)))
  unfolding cancel_order find_by_id Repository.update
  cancel_order-stored o h was w stored =
      let at_read : orders (read o.id w) o.id ≡ some (order_row o) =
        (laws.find_keeps o.id w).0 o.id ∙ stored in
      let wrote =
        never.updates o.id (order_data (cancelled_order (kept o))) (read o.id w) (order_row o)
          at_read in
      let (row, there, now_there) =
        laws.update_ok o.id (order_data (cancelled_order (kept o))) (read o.id w) wrote in
      let same : row ≡ order_row o = some-injective _ _ (sym there ∙ at_read) in
      (
        rw (read_row_of o w stored) (
            rw (read_row-order_row o h) (
              rw (cancel_pending o was) (
                continue_ok
                  (client.update o.id (order_data (cancelled_order (kept o))) (read o.id w))
                  (λ u. pure (o.id, cancelled)) wrote))),
        now_there
            ∙ ap (λ (r : StoredOrder). some (updated (order_data (cancelled_order (kept o))) r))
                same
            ∙ ap some (updated-order_row o),
      )

  get_order-state :
      (o : Order)
      → IsOrder o
      → (w : W) → orders w o.id ≡ some (order_row o)
      → (get_order client rt o.id w).1 ≡ read o.id w
  unfolding get_order find_by_id
  get_order-state o h w stored = rw (read_row_of o w stored) (rw (read_row-order_row o h) refl)

  cancel_again :
      (o : Order)
      → Order.cancel (kept (cancelled_order o)) ≡ err (error "Order is already cancelled")
  unfolding Order.cancel
  cancel_again o = refl

  -- The command refuses an order that is cancelled.
  cancel_order-refused :
      (o : Order)
      → IsOrder o
      → (w : W) → orders w o.id ≡ some (order_row (cancelled_order o))
      → (Http.cancel client rt o.id w).0 ≡ err (error "Order is already cancelled")
  unfolding Http.cancel cancel_order find_by_id
  cancel_order-refused o h w stored = rw (read_row_of (cancelled_order o) w stored) (
      rw (read_row-order_row (cancelled_order o) (cancelled-IsOrder o h))
        (rw (cancel_again o) refl))

  -- What the request has done, for a pending order.
  pub record CancelledOnce (o : Order) (result : Result OrderView × W) : Type 0 where
    pub answer : result.0 ≡ ok (view rt (cancelled_order o))
    pub stored : orders result.1 o.id ≡ some (order_row (cancelled_order o))
    pub again : (Http.cancel client rt o.id result.1).0 ≡ err (error "Order is already cancelled")

  -- For an order client that behaves as documented and fails for no order that is there, the
  -- request to cancel a valid pending order is answered with the view of that order as cancelled,
  -- leaves it in the database as it was but for its status, and is refused when it is made again.
  pub cancel-CancelledOnce :
      (o : Order)
      → IsOrder o
      → o.status ≡ pending
      → (w : W) → orders w o.id ≡ some (order_row o)
      → CancelledOnce o (Http.cancel client rt o.id w)
  unfolding Http.cancel
  cancel-CancelledOnce o h was w stored =
      let (done, stored') = cancel_order-stored o h was w stored in
      let o' = cancelled_order o in
      let h' = cancelled-IsOrder o h in
      let w' = after_cancel o w in
      let state : (get_order client rt o.id w').1 ≡ read o.id w' =
        get_order-state o' h' w' stored' in
      let kept_row : orders (get_order client rt o.id w').1 o.id ≡ some (order_row o') =
        ap (λ u. orders u o.id) state ∙ ((laws.find_keeps o.id w').0 o.id ∙ stored') in
      rw done (record {
        answer =
            get_order-view client orders outbox laws rt o' h' w' _ stored'
              (read_row_of o' w' stored');
        stored = kept_row;
        again = cancel_order-refused o h _ kept_row;
      })
