-- ===== src/Messaging/Relay/Tick.antt =====
-- The loop over a claimed batch, and the whole tick.
use logistics_platform.Prelude.{
  ℕ, ◌+◌, String, ◌≡◌, ◌≢◌, refl, sym, ◌∙◌, subst, ◌⊎◌, inl, inr, true, Option, none, some, List,
  [], ◌∷◌, ◌==◌, eq_iff, All, Bool-cases, arith, if◌then◌else◌,
}
use logistics_platform.Result.{Result, ok, err, Result-cases}
use logistics_platform.Messaging.Outbox.{OutboxRecord, OutboxStore, Publish}
use logistics_platform.Messaging.OutboxTable.{OutboxRow, is_pending, PublishKeeps}
use logistics_platform.Messaging.Relay.{
  OutboxRelayOptions, deliver, process, process_claimed, tick_work,
}
use logistics_platform.Messaging.Relay.Fates.{
  Changes, IsOutboxStore, ClaimOutcome, Stands, HasDistinctIds, After, deliver-After, deliver_ne,
}

same_attempts :
    {r : OutboxRecord} {o : Option OutboxRow} {q : OutboxRow}
    → Stands r o
    → o ≡ some q
    → r.attempts ≡ q.attempts
same_attempts stands found = ground (arith, stands.found)

same_row :
    {r : OutboxRecord} {o : Option OutboxRow} {q : OutboxRow} (s : Stands r o)
    → o ≡ some q
    → s.q ≡ q
same_row stands found = ground (arith, stands.found)

module _ {W : Type 0} (store : OutboxStore W) (publish : Publish W) (opts : OutboxRelayOptions)
    (row : W → String → Option OutboxRow) (ch : Changes) (laws : IsOutboxStore store row ch)
    (keeps : PublishKeeps publish row) where
  process_ne :
      (rs : List OutboxRecord) (n : ℕ) (w : W) (id : String)
      → All (λ r. r.id ≢ id) rs
      → row (process store publish opts rs n w).1 id ≡ row w id
  unfolding process
  process_ne [] n w id h = refl
  process_ne (r ∷ rs) n w id (ne, h) =
      let w' = (deliver store publish opts r w).1 in
      let same = deliver_ne store publish opts row ch laws keeps r w id (λ e. ne (sym e)) in
      elim (Result-cases (deliver store publish opts r w).0) [
        | inl (done, e) ↦ rw (e, process) (process_ne rs (if done then n + 1 else n) w' id h ∙ same)
        | inr (e, threw) ↦ rw (threw, process) same
      ]

  abbrev Batch : List OutboxRecord → W → Type 0
  Batch rs w = All (λ r. Stands r (row w r.id)) rs

  Batch-deliver :
      (r : OutboxRecord) (rs : List OutboxRecord) (w : W)
      → All (λ q. q.id ≢ r.id) rs
      → Batch rs w
      → Batch rs (deliver store publish opts r w).1
  Batch-deliver r [] w h b = tt
  Batch-deliver r (q ∷ rs) w (ne, h) (stands, b) = (
    rw (deliver_ne store publish opts row ch laws keeps r w q.id ne) stands,
    Batch-deliver r rs w h b,
  )

  process-own :
      (r : OutboxRecord) (rs : List OutboxRecord) (n : ℕ) (w : W) (q : OutboxRow)
      → row w r.id ≡ some q
      → r.attempts ≡ q.attempts
      → All (λ p. p.id ≢ r.id) rs
      → After ch opts.max_attempts q (row (process store publish opts (r ∷ rs) n w).1 r.id)
  unfolding process
  process-own r rs n w q found same h =
      let w' = (deliver store publish opts r w).1 in
      let after = deliver-After store publish opts row ch laws keeps r w q found same in
      elim (Result-cases (deliver store publish opts r w).0) [
        | inl (done, e) ↦
            rw (e, process) (rw (process_ne rs (if done then n + 1 else n) w' r.id h) after)
        | inr (e, threw) ↦ rw (threw, process) after
      ]

  -- Left alone, or pending and handled.
  abbrev Settled : OutboxRow → Option OutboxRow → Type 0
  Settled q o = (o ≡ some q) ⊎ ((is_pending q ≡ true) × After ch opts.max_attempts q o)

  process-other :
      (r : OutboxRecord) (rs : List OutboxRecord) (n : ℕ) (w : W) (id : String) (q : OutboxRow)
      → ((n' : ℕ)
          → Settled q
              (row (process store publish opts rs n' (deliver store publish opts r w).1).1 id))
      → row (deliver store publish opts r w).1 id ≡ some q
      → Settled q (row (process store publish opts (r ∷ rs) n w).1 id)
  unfolding process
  process-other r rs n w id q rest found = elim (Result-cases (deliver store publish opts r w).0) [
    | inl (done, e) ↦ rw (e, process) (rest (if done then n + 1 else n))
    | inr (e, threw) ↦ rw (threw, process) (inl found)
  ]

  process-Settled :
      (rs : List OutboxRecord) (n : ℕ) (w : W) (id : String) (q : OutboxRow)
      → Batch rs w
      → HasDistinctIds rs
      → row w id ≡ some q
      → Settled q (row (process store publish opts rs n w).1 id)
  unfolding process
  process-Settled [] n w id q b d found = inl found
  process-Settled (r ∷ rs) n w id q (stands, b) (d, ds) found = elim (Bool-cases (r.id == id)) [
    | inl own ↦
        let at_id : r.id ≡ id = (eq_iff r.id id).0 own in
        let here : row w r.id ≡ some q = rw at_id found in
        let pending : is_pending q ≡ true = rw (same_row stands here) at stands.pending in
        subst (λ i. Settled q (row (process store publish opts (r ∷ rs) n w).1 i)) at_id
          (inr (pending, process-own r rs n w q here (same_attempts stands here) d))
    | inr other ↦
        let ne : id ≢ r.id = λ e. cc ((eq_iff r.id id).1 (sym e)) in
        let found' = deliver_ne store publish opts row ch laws keeps r w id ne ∙ found in
        process-other r rs n w id q
          (λ n'.
            process-Settled rs n' (deliver store publish opts r w).1 id q (Batch-deliver r rs w d b)
              ds found')
          found'
  ]

  process-absent :
      (rs : List OutboxRecord) (w : W) (id : String)
      → Batch rs w
      → row w id ≡ none
      → All (λ r. r.id ≢ id) rs
  process-absent [] w id b gone = tt
  process-absent (r ∷ rs) w id (stands, b) gone =
      ((λ e. cc (stands.found)), process-absent rs w id b gone)

  -- A tick left the row alone; or the row was pending, the tick may have claimed it, and left it so
  -- or marked it published, failed or dead, as the attempts allow.
  pub data Fate (before after : Option OutboxRow) : Type 0 where
    alone : after ≡ before → Fate before after
    handled :
        (q q' : OutboxRow)
        → before ≡ some q
        → is_pending q ≡ true
        → (q' ≡ q) ⊎ ch.Claimed q q'
        → (after ≡ some q') ⊎ After ch opts.max_attempts q' after
        → Fate before after

  Fate-claimed :
      (before after : Option OutboxRow) → ClaimOutcome ch before after → Fate before after
  Fate-claimed before after (ClaimOutcome.left e) = Fate.alone e
  Fate-claimed before after (ClaimOutcome.claimed q q' e p c e') =
      Fate.handled q q' e p (inr c) (inl e')

  Fate-processed :
      (rs : List OutboxRecord) (w : W) (id : String) (before : Option OutboxRow)
      → Batch rs w
      → HasDistinctIds rs
      → ClaimOutcome ch before (row w id)
      → Fate before (row (process store publish opts rs 0 w).1 id)
  Fate-processed rs w id none b d (ClaimOutcome.left e) =
      Fate.alone (process_ne rs 0 w id (process-absent rs w id b e) ∙ e)
  Fate-processed rs w id (some q) b d (ClaimOutcome.left e) =
      elim (process-Settled rs 0 w id q b d e) [
        | inl same ↦ Fate.alone same
        | inr (pending, after) ↦ Fate.handled q q refl pending (inl refl) (inr after)
      ]
  Fate-processed rs w id before b d (ClaimOutcome.claimed q q' e p c e') =
      elim (process-Settled rs 0 w id q' b d e') [
        | inl same ↦ Fate.handled q q' e p (inr c) (inl same)
        | inr (_, after) ↦ Fate.handled q q' e p (inr c) (inr after)
      ]

  claimed_Fate :
      (claim : Result (List OutboxRecord) × W) (id : String) (before : Option OutboxRow)
      → ((rs : List OutboxRecord) → claim.0 ≡ ok rs → Batch rs claim.1 × HasDistinctIds rs)
      → ClaimOutcome ch before (row claim.1 id)
      → Fate before (row (process_claimed store publish opts claim).1 id)
  unfolding process_claimed
  claimed_Fate (ok rs, w) id before batch outcome =
      let (b, d) = batch rs refl in Fate-processed rs w id before b d outcome
  claimed_Fate (err e, w) id before batch outcome = Fate-claimed before (row w id) outcome

  -- For every store that keeps the promises of IsOutboxStore and a publisher that leaves the rows
  -- alone, whatever calls fail in a tick, each row either is as it was, or was pending and was
  -- possibly claimed and then left, marked published, marked failed with attempts left, or marked
  -- dead with the attempts used up.
  pub tick-Fate :
      (w : W) (id : String) → Fate (row w id) (row (tick_work store publish opts w).1 id)
  unfolding tick_work
  tick-Fate w id =
      claimed_Fate (store.claim_batch opts.batch_size w) id (row w id)
        (laws.claim_ok opts.batch_size w) (laws.claim_rows opts.batch_size w id)
