-- ===== src/Orders/Handlers/Cancel.antt =====
-- Cancelling an order.
use logistics_platform.Prelude.{
  String, ◌≡◌, ◌≢◌, refl, inl, inr, Option, none, some, List, ap, ap₂, sym, subst, ◌∙◌, arith, ◌==◌,
  eq_iff, Bool-cases, some-injective,
}
use logistics_platform.Result.{Failure, Result, ok, err, Result-cases}
use logistics_platform.Act.{pure, lift, continue, ◌>>=◌, ◌>>◌}
use logistics_platform.Runtime.{Runtime}
use logistics_platform.Messaging.OutboxTable.{NewRow}
use logistics_platform.Orders.Order
use logistics_platform.Orders.Order.{Order, OrderStatus, pending, cancelled, rehydrate, new_order}
use logistics_platform.Orders.Repository.{
  OrderClient, IsOrderClient, StoredOrder, OrderData, updated, order_data, row_props, read_row,
  find_by_id,
}
use logistics_platform.Orders.Repository
use logistics_platform.Orders.Commands.{found, not_found}
use logistics_platform.Orders.Handlers.{cancel_order}
use logistics_platform.Orders.Order.Rehydrate.{rehydrate-eq}

-- What `read_row` reads: the id and the status of the row.
read_row-eq :
    (row : Option StoredOrder) (o : Order)
    → read_row row ≡ ok (some o)
    → (s : StoredOrder) × (row ≡ some s) × (o.id ≡ s.id) × (o.status ≡ s.status)
unfolding read_row
read_row-eq none o h = cc
read_row-eq (some s) o h = elim (Result-cases (rehydrate (row_props s))) [
  | inl (o', e) ↦
      let (same_id, same_status) = rehydrate-eq (row_props s) e in
      (s, refl, ground (arith, e), ground (arith, e))
  | inr (e, threw) ↦ ground (arith, threw)
]

cancel-eq :
    (o o' : Order)
    → Order.cancel o ≡ ok o'
    → (o.status ≡ pending) × (o' ≡ record o { status = cancelled })
unfolding Order.cancel
cancel-eq o o' h = ground arith

module _ {W : Type 0} (client : OrderClient W) (orders : W → String → Option StoredOrder)
    (outbox : W → List NewRow) (laws : IsOrderClient client orders outbox) (rt : Runtime) where
  -- What a successful run has done: the pending order is cancelled, and no event is queued.
  pub record Cancelled (id : String) (before after : W) (returned : String × OrderStatus)
      : Type 0 where
    pub row : StoredOrder
    pub row' : StoredOrder
    pub found : orders before id ≡ some row
    pub was_pending : row.status ≡ pending
    pub stored : orders after id ≡ some row'
    pub now_cancelled : row'.status ≡ cancelled
    pub same_items : row'.items ≡ row.items
    pub answer : returned ≡ (id, cancelled)
    pub others : (other : String) → other ≢ id → orders after other ≡ orders before other
    pub same_outbox : outbox after ≡ outbox before

  pub record Kept (before after : W) : Type 0 where
    pub same_orders : (id : String) → orders after id ≡ orders before id
    pub same_outbox : outbox after ≡ outbox before

  abbrev pub Ended : String → W → Result (String × OrderStatus) × W → Type 0
  Ended id before (ok returned, after) = Cancelled id before after returned
  Ended id before (err e, after) = Kept before after

  Kept-find : (id : String) (w : W) → Kept w (client.find_unique id w).1
  Kept-find id w = record {
    same_orders = (laws.find_keeps id w).0;
    same_outbox = (laws.find_keeps id w).1;
  }

  update_err_any :
      (o : Order) (e : Failure) (w : W) (other : String)
      → (client.update o.id (order_data o) w).0 ≡ err e
      → orders (client.update o.id (order_data o) w).1 other ≡ orders w other
  update_err_any o e w other h = elim (Bool-cases (other == o.id)) [
    | inl same ↦ rw ((eq_iff other o.id).0 same) (laws.update_err o.id (order_data o) w e h)
    | inr differs ↦
        laws.update_ne o.id (order_data o) w other (λ same. cc ((eq_iff other o.id).1 same))
  ]

  update_Ended :
      (id : String) (w w' : W) (row : StoredOrder) (o : Order)
      → Kept w w'
      → orders w id ≡ some row
      → o.id ≡ id
      → row.status ≡ pending
      → o.status ≡ cancelled
      → (result : Result (Unit {0})) (w'' : W) → Repository.update client o w' ≡ (result, w'')
      → Ended id w (continue (result, w'') (λ _. pure (o.id, o.status)))
  unfolding Repository.update
  update_Ended id w w' row o kept at_id same_id was now (ok u) w'' call =
      let (row0, found0, stored0) =
        laws.update_ok o.id (order_data o) w' (ap (λ (x : Result (Unit {0}) × W). x.0) call) in
      let after = ap (λ (x : Result (Unit {0}) × W). x.1) call in
      let found1 : orders w' id ≡ some row0 = subst (λ k. orders w' k ≡ some row0) same_id found0 in
      let same_row : row0 ≡ row = some-injective _ _ (sym found1 ∙ kept.same_orders id ∙ at_id) in
      record {
        row = row;
        row' = updated (order_data o) row0;
        found = at_id;
        was_pending = was;
        stored =
            subst (λ v. orders v id ≡ some (updated (order_data o) row0)) after
              (subst
                (λ k.
                  orders (client.update o.id (order_data o) w').1 k
                  ≡ some (updated (order_data o) row0))
                same_id stored0);
        now_cancelled = now;
        same_items = ap (λ (r : StoredOrder). r.items) same_row;
        answer = ap₂ (λ (a : String) (b : OrderStatus). (a, b)) same_id now;
        others = λ other ne.
            subst (λ v. orders v other ≡ orders w other) after
              (laws.update_ne o.id (order_data o) w' other (λ e. ne (e ∙ same_id))
                ∙ kept.same_orders other);
        same_outbox =
            subst (λ v. outbox v ≡ outbox w) after
              (laws.update_outbox o.id (order_data o) w' ∙ kept.same_outbox);
      }
  update_Ended id w w' row o kept at_id same_id was now (err e) w'' call =
      let after = ap (λ (x : Result (Unit {0}) × W). x.1) call in
      record {
        same_orders = λ other.
            subst (λ v. orders v other ≡ orders w other) after
              (update_err_any o e w' other (ap (λ (x : Result (Unit {0}) × W). x.0) call)
                ∙ kept.same_orders other);
        same_outbox =
            subst (λ v. outbox v ≡ outbox w) after
              (laws.update_outbox o.id (order_data o) w' ∙ kept.same_outbox);
      }

  cancel-Ended :
      (id : String) (w w' : W) (row : Option StoredOrder) (o : Order)
      → Kept w w'
      → row ≡ orders w id
      → read_row row ≡ ok (some o)
      → Ended id w (
          (lift (Order.cancel o) >>= λ order'.
          Repository.update client order' >> pure (order'.id, order'.status))
            w')
  cancel-Ended id w w' row o kept same e =
      let (s, is_row, same_id, same_status) = read_row-eq row o e in
      let at_id : orders w id ≡ some s = sym same ∙ is_row in
      elim (Result-cases (Order.cancel o)) [
        | inr (e, threw) ↦ rw threw kept
        | inl (o', done) ↦
            let (was, is_o') = cancel-eq o o' done in
            let id_kept : o'.id ≡ id =
              ap (λ (x : Order). x.id) is_o' ∙ same_id ∙ laws.keyed w id s at_id in
            let now : o'.status ≡ cancelled = ap (λ (x : Order). x.status) is_o' in
            rw done
              (update_Ended id w w' s o' kept at_id id_kept (sym same_status ∙ was) now _ _ refl)
      ]

  -- The steps behind the read of the row, which went well.
  read_Ended :
      (id : String) (w w' : W) (row : Option StoredOrder)
      → Kept w w'
      → row ≡ orders w id
      → Ended id w (
          (lift (read_row row) >>= λ o. lift (found (not_found id) o) >>= λ order.
          lift (Order.cancel order) >>= λ order'.
          Repository.update client order' >> pure (order'.id, order'.status))
            w')
  read_Ended id w w' row kept same = elim (Result-cases (read_row row)) [
    | inr (e, threw) ↦ rw threw kept
    | inl (none, e) ↦ rw e kept
    | inl (some o, e) ↦ rw e (cancel-Ended id w w' row o kept same e)
  ]

  -- For an order client that behaves as documented, a run of cancel_order either turns a pending
  -- order into a cancelled one, leaves every other order alone and returns the id and the new
  -- status, or throws and has changed no order; in neither case is a message added to the outbox.
  pub cancel_order-Ended : (id : String) (w : W) → Ended id w (cancel_order client rt id w)
  unfolding cancel_order find_by_id
  cancel_order-Ended id w = elim (Result-cases (client.find_unique id w).0) [
    | inr (e, threw) ↦ rw threw (Kept-find id w)
    | inl (row, e) ↦
        rw e (
          read_Ended id w (client.find_unique id w).1 row (Kept-find id w)
            (laws.find_ok id w row e))
  ]
