-- ===== src/Orders/PrismaOutboxStore/Retries.antt =====
-- The order service's outbox under its relay: how often a message is tried.
use logistics_platform.Prelude.{
  ℕ, ◌≤◌, ◌<◌, String, ◌≡◌, ◌≢◌, refl, ap, ◌⊎◌, inl, inr, true, Option, none, some, List, [], ◌∷◌,
  map, All, arith,
}
use logistics_platform.Result.{Result, ok, ok-injective, Result-cases}
use logistics_platform.Act.{pure, continue_ok, state_of_continue-pure, continue_err}
use logistics_platform.Messaging.Outbox.{OutboxRecord, Publish}
use logistics_platform.Messaging.OutboxTable.{
  OutboxRow, OutboxTable, IsOutboxTable, is_pending, PublishKeeps,
}
use logistics_platform.Messaging.OutboxTable
use logistics_platform.Messaging.Relay.{OutboxRelayOptions, tick_work}
use logistics_platform.Messaging.Relay.Fates.{
  Stands, HasDistinctIds, Changes, ClaimOutcome, IsOutboxStore, After,
}
use logistics_platform.Messaging.Relay.Calls.{update-Outcome, update-ne}
use logistics_platform.Messaging.Relay.Tick.{Fate, tick-Fate}
use logistics_platform.Orders.PrismaOutboxStore.{
  to_record, published, failed, dead, prisma_outbox_store,
}

abbrev pub order_changes : Changes
order_changes = record {
  Claimed = λ q q'. ⊥;
  Published = λ q q'. (t : ℕ) × (q' ≡ published t q);
  Failed = λ error q q'. q' ≡ failed error q;
  Dead = λ error q q'. (t : ℕ) × (q' ≡ dead t error q);
}

to_record-Stands :
    (rows : List OutboxRow) (o : String → Option OutboxRow)
    → All (λ q. (o q.id ≡ some q) × (is_pending q ≡ true)) rows
    → All (λ r. Stands r (o r.id)) (map to_record rows)
unfolding to_record
to_record-Stands [] o h = tt
to_record-Stands (q ∷ rows) o ((found, pending), h) =
    (record { q = q; found = found; pending = pending; attempts = refl }, to_record-Stands rows o h)

to_record-ne :
    (rows : List OutboxRow) (id : String)
    → All (λ q. q.id ≢ id) rows
    → All (λ r. r.id ≢ id) (map to_record rows)
unfolding to_record
to_record-ne [] id h = tt
to_record-ne (q ∷ rows) id (ne, h) = (ne, to_record-ne rows id h)

to_record-HasDistinctIds :
    (rows : List OutboxRow) → OutboxTable.HasDistinctIds rows → HasDistinctIds (map to_record rows)
unfolding to_record
to_record-HasDistinctIds [] h = tt
to_record-HasDistinctIds (q ∷ rows) (ne, h) =
    (to_record-ne rows q.id ne, to_record-HasDistinctIds rows h)

module _ {W : Type 0} (table : OutboxTable W) (row : W → String → Option OutboxRow)
    (laws : IsOutboxTable table row) where
  found_after :
      (n : ℕ) (w : W) (rows : List OutboxRow)
      → All (λ q. (row w q.id ≡ some q) × (is_pending q ≡ true)) rows
      → All (λ q. (row (table.find_pending n w).1 q.id ≡ some q) × (is_pending q ≡ true)) rows
  found_after n w [] h = tt
  found_after n w (q ∷ rows) ((found, pending), h) =
      ((rw (laws.find_pending_keeps n w q.id) found, pending), found_after n w rows h)

  claim-Stands :
      (n : ℕ) (w : W) (rs : List OutboxRecord)
      → ((prisma_outbox_store table).claim_batch n w).0 ≡ ok rs
      → All (λ r. Stands r (row ((prisma_outbox_store table).claim_batch n w).1 r.id)) rs
        × HasDistinctIds rs
  unfolding prisma_outbox_store
  claim-Stands n w rs h = elim (Result-cases (table.find_pending n w).0) [
    | inl (rows, e) ↦
        let (found, distinct, _) = laws.find_pending_rows n w rows e in
        let w' = (table.find_pending n w).1 in
        let same : ok (map to_record rows) ≡ ok rs =
          rw (continue_ok (table.find_pending n w) _ e) at h in
        rw (← ok-injective same, continue_ok (table.find_pending n w) _ e)
          (
            to_record-Stands rows (row w') (found_after n w rows found),
            to_record-HasDistinctIds rows distinct,
          )
    | inr (e, threw) ↦ cc (
        ap (λ (m : Result (List OutboxRecord) × W). m.0)
          (continue_err (table.find_pending n w) (λ rows. pure (map to_record rows)) threw))
  ]

  pub prisma_outbox_store-IsOutboxStore :
      IsOutboxStore (prisma_outbox_store table) row order_changes
  unfolding prisma_outbox_store
  prisma_outbox_store-IsOutboxStore = record {
    claim_rows = λ n w id. ClaimOutcome.left (
        rw (state_of_continue-pure (table.find_pending n w) (map to_record))
          (laws.find_pending_keeps n w id));
    claim_ok = claim-Stands;
    published_own = λ id w q.
        update-Outcome table row laws order_changes.Published (published (table.now w)) id w q
          (table.now w, refl);
    published_ne = λ id w. update-ne table row laws (published (table.now w)) id w;
    failed_own = λ id error w q.
        update-Outcome table row laws (order_changes.Failed error) (failed error) id w q refl;
    failed_ne = λ id error w. update-ne table row laws (failed error) id w;
    dead_own = λ id error w q.
        update-Outcome table row laws (order_changes.Dead error) (dead (table.now w) error) id w q
          (table.now w, refl);
    dead_ne = λ id error w. update-ne table row laws (dead (table.now w) error) id w;
  }

-- A row within its budget of attempts: a pending row has attempts left, a dead one has used them
-- all, and none is both published and dead.
pub record InBudget (max : ℕ) (q : OutboxRow) : Type 0 where
  pub pending_left : is_pending q ≡ true → q.attempts < max
  pub bounded : q.attempts ≤ max
  pub dead_spent : q.dead_at ≢ none → q.attempts ≡ max
  pub one_end : (q.published_at ≡ none) ⊎ (q.dead_at ≡ none)

abbrev pub AllInBudget : ℕ → (String → Option OutboxRow) → Type 0
AllInBudget max row = (id : String) (q : OutboxRow) → row id ≡ some q → InBudget max q

InBudget-After :
    (max : ℕ) (q : OutboxRow) (after : Option OutboxRow) (q' : OutboxRow)
    → InBudget max q
    → is_pending q ≡ true
    → After order_changes max q after
    → after ≡ some q'
    → InBudget max q'
unfolding published failed dead
InBudget-After max q after q' h pending (After.left e) found = ground arith
InBudget-After max q after q' h pending (After.published p (t, change) e) found = ground arith
InBudget-After max q after q' h pending (After.failed error p change few e) found = ground arith
InBudget-After max q after q' h pending (After.dead error p (t, change) many e) found = ground arith

module _ {W : Type 0} (table : OutboxTable W) (row : W → String → Option OutboxRow)
    (laws : IsOutboxTable table row) (publish : Publish W) (keeps : PublishKeeps publish row)
    (opts : OutboxRelayOptions) where
  abbrev OrderFate : Option OutboxRow → Option OutboxRow → Type 0
  OrderFate =
      Fate (prisma_outbox_store table) publish opts row order_changes
        (prisma_outbox_store-IsOutboxStore table row laws) keeps

  InBudget-Fate :
      (before after : Option OutboxRow) (q' : OutboxRow)
      → ((q : OutboxRow) → before ≡ some q → InBudget opts.max_attempts q)
      → OrderFate before after
      → after ≡ some q'
      → InBudget opts.max_attempts q'
  InBudget-Fate before after q' h (Fate.alone e) found = h q' (cc (e, found))
  InBudget-Fate before after q' h (Fate.handled q p e pending (inr never) rest) found = absurd never
  InBudget-Fate before after q' h (Fate.handled q p e pending (inl same) (inl left)) found =
      h q' (cc (e, same, left, found))
  InBudget-Fate before after q' h (Fate.handled q p e pending (inl same) (inr rest)) found =
      InBudget-After opts.max_attempts p after q' (rw same (h q e)) (rw same pending) rest found

  -- For a table that behaves as documented and a publisher that leaves the table alone, a tick of
  -- the relay over the order service's outbox store, whatever calls fail in it, leaves every row
  -- within its budget if every row was within it: a pending row has attempts left, a dead one has
  -- used exactly max_attempts, no row has used more, and none is both published and dead.
  pub tick-AllInBudget :
      (w : W)
      → AllInBudget opts.max_attempts (row w)
      → AllInBudget opts.max_attempts (row (tick_work (prisma_outbox_store table) publish opts w).1)
  tick-AllInBudget w h id q' found =
      InBudget-Fate (row w id) _ q' (h id)
        (tick-Fate (prisma_outbox_store table) publish opts row order_changes
          (prisma_outbox_store-IsOutboxStore table row laws) keeps w id)
        found
