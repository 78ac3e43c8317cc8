-- ===== src/Tracking/OutboxRepository/Attempts.antt =====
-- The tracking service's outbox under its relay: how a tick counts attempts.
use logistics_platform.Prelude.{
  ℕ, ◌+◌, ◌≤◌, String, ◌≡◌, ◌≢◌, ◌⊎◌, inl, inr, true, Option, none, some, arith,
}
use logistics_platform.Messaging.Outbox.{Publish}
use logistics_platform.Messaging.OutboxTable.{
  OutboxRow, OutboxTable, IsOutboxTable, is_pending, PublishKeeps,
}
use logistics_platform.Messaging.Transaction.{Transaction, IsTransaction}
use logistics_platform.Messaging.Relay.{OutboxRelayOptions, tick_work}
use logistics_platform.Messaging.Relay.Fates.{After}
use logistics_platform.Messaging.Relay.Tick.{Fate, tick-Fate}
use logistics_platform.Tracking.OutboxRepository.{
  claimed, published, failed, dead, outbox_repository,
}
use logistics_platform.Tracking.OutboxRepository.Claims.{
  tracking_changes, outbox_repository-IsOutboxStore,
}

-- What a tick does to a row: nothing, or one attempt at most on a pending row, whose message stays.
pub data Counted (max : ℕ) (before after : Option OutboxRow) : Type 0 where
  alone : after ≡ before → Counted max before after
  tried :
      (q q' : OutboxRow)
      → before ≡ some q
      → is_pending q ≡ true
      → after ≡ some q'
      → q.attempts ≤ q'.attempts
      → q'.attempts ≤ q.attempts + 1
      → (q'.dead_at ≢ none → max ≤ q'.attempts + 1)
      → (q'.published_at ≡ none) ⊎ (q'.dead_at ≡ none)
      → (q'.id ≡ q.id) × (q'.payload ≡ q.payload) × (q'.routing_key ≡ q.routing_key)
      → Counted max before after

-- The row that the loop worked on.
Worked : OutboxRow → OutboxRow → Type 0
Worked q p = (p ≡ q) ⊎ (p ≡ claimed q)

After-Counted :
    (max : ℕ) (before : Option OutboxRow) (q p : OutboxRow) (after : Option OutboxRow)
    → before ≡ some q
    → is_pending q ≡ true
    → Worked q p
    → After tracking_changes max p after
    → Counted max before after
unfolding Worked claimed published failed dead
After-Counted max before q p after e pending w (After.left e') =
    Counted.tried q p e pending e' (ground arith) (ground arith) (ground arith) (ground arith)
      (ground arith)
After-Counted max before q p after e pending w (After.published p' (t, change) e') =
    Counted.tried q p' e pending e' (ground arith) (ground arith) (ground arith) (ground arith)
      (ground arith)
After-Counted max before q p after e pending w (After.failed error p' change few e') =
    Counted.tried q p' e pending e' (ground arith) (ground arith) (ground arith) (ground arith)
      (ground arith)
After-Counted max before q p after e pending w (After.dead error p' (t, change) many e') =
    Counted.tried q p' e pending e' (ground arith) (ground arith) (ground arith) (ground arith)
      (ground arith)

module _ {W : Type 0} (transaction : Transaction W) (atomic : IsTransaction transaction)
    (table : OutboxTable W) (row : W → String → Option OutboxRow) (laws : IsOutboxTable table row)
    (publish : Publish W) (keeps : PublishKeeps publish row) (opts : OutboxRelayOptions) where
  Fate-Counted :
      (before after : Option OutboxRow)
      → Fate
          (outbox_repository transaction table)
          publish
          opts
          row
          tracking_changes
          (outbox_repository-IsOutboxStore transaction table row laws atomic)
          keeps
          before
          after
      → Counted opts.max_attempts before after
  unfolding Worked
  Fate-Counted before after (Fate.alone e) = Counted.alone e
  Fate-Counted before after (Fate.handled q p e pending worked (inl e')) =
      After-Counted opts.max_attempts before q p after e pending worked (After.left e')
  Fate-Counted before after (Fate.handled q p e pending worked (inr rest)) =
      After-Counted opts.max_attempts before q p after e pending worked rest

  -- For atomic transactions, a table that behaves as documented and a publisher that leaves it
  -- alone, a tick of the relay over the tracking service's outbox, whatever calls fail in it,
  -- leaves a row alone, or tries a pending one: its message stays, its attempts grow by one at
  -- most, it is dead only if max_attempts is at most its attempts plus one, and it is not both
  -- published and dead.
  pub tick-Counted :
      (w : W) (id : String)
      → Counted opts.max_attempts
          (row w id)
          (row (tick_work (outbox_repository transaction table) publish opts w).1 id)
  tick-Counted w id = Fate-Counted (row w id) _ (
      tick-Fate (outbox_repository transaction table) publish opts row tracking_changes
        (outbox_repository-IsOutboxStore transaction table row laws atomic) keeps w id)
