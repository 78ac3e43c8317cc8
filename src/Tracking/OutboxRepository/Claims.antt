-- ===== src/Tracking/OutboxRepository/Claims.antt =====
-- The tracking service's outbox repository as a store of the relay.
use logistics_platform.Prelude.{
  ℕ, String, ◌≡◌, ◌≢◌, refl, sym, ap, subst, ◌∙◌, inl, inr, true, Option, some, some-injective,
  List, [], ◌∷◌, All, ◌==◌, eq_iff, Bool-cases,
}
use logistics_platform.Result.{Failure, Result, ok, err, ok-injective}
use logistics_platform.Act.{continue-eq-ok, pure-eq-ok}
use logistics_platform.Messaging.Outbox.{OutboxRecord}
use logistics_platform.Messaging.OutboxTable.{
  OutboxRow, OutboxTable, IsOutboxTable, is_pending, PublishKeeps,
}
use logistics_platform.Messaging.OutboxTable
use logistics_platform.Messaging.Transaction.{Transaction, Ending, IsTransaction}
use logistics_platform.Messaging.Relay.Fates.{
  Stands, HasDistinctIds, Changes, ClaimOutcome, IsOutboxStore,
}
use logistics_platform.Messaging.Relay.Calls.{update-Outcome, update-ne}
use logistics_platform.Tracking.OutboxRepository.{
  map_outbox, claimed, published, failed, dead, claim_each, claim_operation, outbox_repository,
}

abbrev pub tracking_changes : Changes
tracking_changes = record {
  Claimed = λ q q'. q' ≡ claimed q;
  Published = λ q q'. (t : ℕ) × (q' ≡ published t q);
  Failed = λ error q q'. q' ≡ failed error q;
  Dead = λ error q q'. (t : ℕ) × (q' ≡ dead t error q);
}

module _ {W : Type 0} (transaction : Transaction W) (table : OutboxTable W)
    (row : W → String → Option OutboxRow) (laws : IsOutboxTable table row) where
  abbrev Pending : W → List OutboxRow → Type 0
  Pending w rows = All (λ q. (row w q.id ≡ some q) × (is_pending q ≡ true)) rows

  Pending-kept :
      (w w' : W) (id : String) (rows : List OutboxRow)
      → ((other : String) → other ≢ id → row w' other ≡ row w other)
      → All (λ q. q.id ≢ id) rows
      → Pending w rows
      → Pending w' rows
  Pending-kept w w' id [] same h p = tt
  Pending-kept w w' id (q ∷ rows) same (ne, h) ((found, pending), p) =
      ((same q.id ne ∙ found, pending), Pending-kept w w' id rows same h p)

  -- One round of the loop that returned.
  record Round (q : OutboxRow) (w w1 : W) (q' : OutboxRow) : Type 0 where
    is_claimed : q' ≡ claimed q
    after : row w1 q.id ≡ some (claimed q)
    others : (other : String) → other ≢ q.id → row w1 other ≡ row w other

  update-Round :
      (q : OutboxRow) (w w1 : W) (q' : OutboxRow)
      → row w q.id ≡ some q
      → table.update q.id claimed w ≡ (ok q', w1)
      → Round q w w1 q'
  update-Round q w w1 q' found call =
      let returned = ap (λ (x : Result OutboxRow × W). x.0) call in
      let state = ap (λ (x : Result OutboxRow × W). x.1) call in
      let (q0, found0, same, after) = laws.update_ok q.id claimed w q' returned in
      let is_q = some-injective _ _ (sym found0 ∙ found) in
      let is_claimed = same ∙ ap claimed is_q in
      record {
        is_claimed = is_claimed;
        after = subst (λ v. row v q.id ≡ some (claimed q)) state (after ∙ ap some is_claimed);
        others = λ other ne.
            subst (λ v. row v other ≡ row w other) state (laws.update_ne q.id claimed w other ne);
      }

  -- What the loop leaves.
  record Looped (rows : List OutboxRow) (w w' : W) (rs : List OutboxRecord) : Type 0 where
    outcome : (id : String) → ClaimOutcome tracking_changes (row w id) (row w' id)
    others : (id : String) → All (λ q. q.id ≢ id) rows → row w' id ≡ row w id
    stand : All (λ r. Stands r (row w' r.id)) rs
    fresh : (id : String) → All (λ q. q.id ≢ id) rows → All (λ r. r.id ≢ id) rs
    distinct : HasDistinctIds rs

  cons-Looped :
      (q q' : OutboxRow) (rows : List OutboxRow) (w w1 w' : W) (rs : List OutboxRecord)
      → row w q.id ≡ some q
      → is_pending q ≡ true
      → All (λ p. p.id ≢ q.id) rows
      → Round q w w1 q'
      → Looped rows w1 w' rs
      → Looped (q ∷ rows) w w' (map_outbox q' ∷ rs)
  unfolding map_outbox claimed
  cons-Looped q q' rows w w1 w' rs found pending ne round l =
      let after : row w' q.id ≡ some (claimed q) = l.others q.id ne ∙ round.after in
      let back = sym round.is_claimed in
      record {
        outcome = λ id. elim (Bool-cases (id == q.id)) [
          | inl same ↦
              subst (λ k. ClaimOutcome tracking_changes (row w k) (row w' k))
                (sym ((eq_iff id q.id).0 same))
                (ClaimOutcome.claimed q (claimed q) found pending refl after)
          | inr differs ↦
              subst (λ o. ClaimOutcome tracking_changes o (row w' id))
                (round.others id (λ e. cc ((eq_iff id q.id).1 e))) (l.outcome id)
        ];
        others = λ id (ne', h). l.others id h ∙ round.others id (λ e. ne' (sym e));
        stand = (
          subst (λ x. Stands (map_outbox x) (row w' (map_outbox x).id)) back
              (record { q = claimed q; found = after; pending = pending; attempts = refl }),
          l.stand,
        );
        fresh = λ id (ne', h). (subst (λ x. (map_outbox x).id ≢ id) back ne', l.fresh id h);
        distinct = (
          subst (λ x. All (λ r. r.id ≢ (map_outbox x).id) rs) back (l.fresh q.id ne),
          l.distinct,
        );
      }

  claim_each-Looped :
      (rows : List OutboxRow) (w w' : W) (rs : List OutboxRecord)
      → Pending w rows
      → OutboxTable.HasDistinctIds rows
      → claim_each transaction table rows w ≡ (ok rs, w')
      → Looped rows w w' rs
  unfolding claim_each
  claim_each-Looped [] w w' rs p d h =
      let (is_rs, state) = pure-eq-ok h in
      rw (← is_rs) (
        rw (← state) (record {
          outcome = λ id. ClaimOutcome.left refl;
          others = λ id h. refl;
          stand = tt;
          fresh = λ id h. tt;
          distinct = tt;
        }))
  claim_each-Looped (q ∷ rows) w w' rs ((found, pending), p) (ne, d) h =
      let (q', w1, call, h1) = continue-eq-ok (table.update q.id claimed w) _ h in
      let (rest, w2, looped, h2) = continue-eq-ok (claim_each transaction table rows w1) _ h1 in
      let (is_rs, state) = pure-eq-ok h2 in
      let round = update-Round q w w1 q' found call in
      let l =
        claim_each-Looped rows w1 w2 rest (Pending-kept w w1 q.id rows round.others ne p) d
          looped in
      subst (λ x. Looped (q ∷ rows) w w' x) is_rs
        (subst (λ v. Looped (q ∷ rows) w v (map_outbox q' ∷ rest)) state
          (cons-Looped q q' rows w w1 w2 rest found pending ne round l))

  -- What a claim leaves, however it ends.
  record Claimed (w : W) (result : Result (List OutboxRecord) × W) : Type 0 where
    outcome : (id : String) → ClaimOutcome tracking_changes (row w id) (row result.1 id)
    batch :
        (rs : List OutboxRecord)
        → result.0 ≡ ok rs
        → All (λ r. Stands r (row result.1 r.id)) rs × HasDistinctIds rs

  none-Claimed : (w : W) (e : Failure) → Claimed w (err e, w)
  none-Claimed w e = record { outcome = λ id. ClaimOutcome.left refl; batch = λ rs h. cc }

  Looped-Claimed :
      {rows : List OutboxRow} (w w1 w' : W) (rs : List OutboxRecord)
      → ((id : String) → row w1 id ≡ row w id)
      → Looped rows w1 w' rs
      → Claimed w (ok rs, w')
  Looped-Claimed w w1 w' rs kept l = record {
    outcome =
        λ id. subst (λ o. ClaimOutcome tracking_changes o (row w' id)) (kept id) (l.outcome id);
    batch = λ rs' h. rw (← ok-injective h) (l.stand, l.distinct);
  }

  Pending-same :
      (w w1 : W) (rows : List OutboxRow)
      → ((id : String) → row w1 id ≡ row w id)
      → Pending w rows
      → Pending w1 rows
  Pending-same w w1 [] kept h = tt
  Pending-same w w1 (q ∷ rows) kept ((found, pending), h) =
      ((kept q.id ∙ found, pending), Pending-same w w1 rows kept h)

  operation-Claimed :
      (n : ℕ) (w w' : W) (rs : List OutboxRecord)
      → claim_operation transaction table n w ≡ (ok rs, w')
      → Claimed w (ok rs, w')
  unfolding claim_operation
  operation-Claimed n w w' rs h =
      let (rows, w1, reading, looping) = continue-eq-ok (table.find_pending n w) _ h in
      let returned = ap (λ (x : Result (List OutboxRow) × W). x.0) reading in
      let state = ap (λ (x : Result (List OutboxRow) × W). x.1) reading in
      let (found, distinct, _) = laws.find_pending_rows n w rows returned in
      let kept =
        λ (id : String). subst (λ v. row v id ≡ row w id) state (laws.find_pending_keeps n w id) in
      Looped-Claimed w w1 w' rs kept
        (claim_each-Looped rows w1 w' rs (Pending-same w w1 rows kept found) distinct looping)

  Ending-Claimed :
      (n : ℕ) (w : W) (result : Result (List OutboxRecord) × W)
      → Ending (claim_operation transaction table n w) w result
      → Claimed w result
  Ending-Claimed n w result (Ending.committed rs w' ran e) = rw e (operation-Claimed n w w' rs ran)
  Ending-Claimed n w result (Ending.aborted e w' threw same) = rw same (none-Claimed w e)
  Ending-Claimed n w result (Ending.refused e same) = rw same (none-Claimed w e)

  pub outbox_repository-IsOutboxStore :
      IsTransaction transaction
      → IsOutboxStore (outbox_repository transaction table) row tracking_changes
  unfolding outbox_repository
  outbox_repository-IsOutboxStore atomic =
      let claim = λ (n : ℕ) (w : W).
        Ending-Claimed n w _ (atomic (List OutboxRecord) (claim_operation transaction table n) w) in
      record {
        claim_rows = λ n w id. (claim n w).outcome id;
        claim_ok = λ n w rs h. (claim n w).batch rs h;
        published_own = λ id w q.
            update-Outcome table row laws tracking_changes.Published (published (table.now w)) id w
              q (table.now w, refl);
        published_ne = λ id w. update-ne table row laws (published (table.now w)) id w;
        failed_own = λ id error w q.
            update-Outcome table row laws (tracking_changes.Failed error) (failed error) id w q
              refl;
        failed_ne = λ id error w. update-ne table row laws (failed error) id w;
        dead_own = λ id error w q.
            update-Outcome table row laws (tracking_changes.Dead error) (dead (table.now w) error)
              id w q (table.now w, refl);
        dead_ne = λ id error w. update-ne table row laws (dead (table.now w) error) id w;
      }
