-- ===== src/Messaging/Relay/Fates.antt =====
-- What a tick does to the rows of an outbox, for every store that keeps the promises below, whatever
-- calls fail on the way.
use logistics_platform.Prelude.{
  ℕ, ◌+◌, ◌≤◌, ◌<◌, String, ◌≡◌, ◌≢◌, refl, ◌∙◌, inl, inr, Bool, true, false, Option, some, List,
  [], ◌∷◌, leb, All, Bool-cases, arith,
}
use logistics_platform.Result.{Failure, Result, ok, err, message}
use logistics_platform.Act.{pure, caught, continue, state_of_continue-pure}
use logistics_platform.Messaging.Outbox.{OutboxRecord, OutboxStore, Publish}
use logistics_platform.Messaging.OutboxTable.{OutboxRow, is_pending, PublishKeeps}
use logistics_platform.Messaging.Relay.{OutboxRelayOptions, publish_record, record_failure, deliver}

-- A call on the row `q` that returned has changed it as `R` says; one that threw has not.
pub data Outcome (R : OutboxRow → OutboxRow → Type 0) (q : OutboxRow) (result : Result (Unit {0}))
    (after : Option OutboxRow) : Type 0 where
  done : (q' : OutboxRow) → R q q' → result ≡ ok tt → after ≡ some q' → Outcome R q result after
  threw : (e : Failure) → result ≡ err e → after ≡ some q → Outcome R q result after

-- A claimed record stands for a pending row, with its count of attempts.
pub record Stands (r : OutboxRecord) (o : Option OutboxRow) : Type 0 where
  pub q : OutboxRow
  pub found : o ≡ some q
  pub pending : is_pending q ≡ true
  pub attempts : r.attempts ≡ q.attempts

abbrev pub HasDistinctIds : List OutboxRecord → Type 0
HasDistinctIds [] = Unit
HasDistinctIds (r ∷ rs) = All (λ q. q.id ≢ r.id) rs × HasDistinctIds rs

-- The changes that the calls of a store make to a row.
pub record Changes : Type 1 where
  pub Claimed : OutboxRow → OutboxRow → Type 0
  pub Published : OutboxRow → OutboxRow → Type 0
  pub Failed : String → OutboxRow → OutboxRow → Type 0
  pub Dead : String → OutboxRow → OutboxRow → Type 0

-- A claimed row, before and after the call.
pub data ClaimOutcome (ch : Changes) (before after : Option OutboxRow) : Type 0 where
  left : after ≡ before → ClaimOutcome ch before after
  claimed :
      (q q' : OutboxRow)
      → before ≡ some q
      → is_pending q ≡ true
      → ch.Claimed q q'
      → after ≡ some q'
      → ClaimOutcome ch before after

pub record IsOutboxStore {W : Type 0} (store : OutboxStore W) (row : W → String → Option OutboxRow)
    (ch : Changes) : Type 0 where
  pub claim_rows :
      (n : ℕ) (w : W) (id : String) → ClaimOutcome ch (row w id) (row (store.claim_batch n w).1 id)
  pub claim_ok :
      (n : ℕ) (w : W) (rs : List OutboxRecord)
      → (store.claim_batch n w).0 ≡ ok rs
      → All (λ r. Stands r (row (store.claim_batch n w).1 r.id)) rs × HasDistinctIds rs
  pub published_own :
      (id : String) (w : W) (q : OutboxRow)
      → row w id ≡ some q
      → Outcome ch.Published q (store.mark_published id w).0 (row (store.mark_published id w).1 id)
  pub published_ne :
      (id : String) (w : W) (other : String)
      → other ≢ id
      → row (store.mark_published id w).1 other ≡ row w other
  pub failed_own :
      (id error : String) (w : W) (q : OutboxRow)
      → row w id ≡ some q
      → Outcome
          (ch.Failed error)
          q
          (store.mark_failed id error w).0
          (row (store.mark_failed id error w).1 id)
  pub failed_ne :
      (id error : String) (w : W) (other : String)
      → other ≢ id
      → row (store.mark_failed id error w).1 other ≡ row w other
  pub dead_own :
      (id error : String) (w : W) (q : OutboxRow)
      → row w id ≡ some q
      → Outcome
          (ch.Dead error)
          q
          (store.mark_dead id error w).0
          (row (store.mark_dead id error w).1 id)
  pub dead_ne :
      (id error : String) (w : W) (other : String)
      → other ≢ id
      → row (store.mark_dead id error w).1 other ≡ row w other

-- What the loop may leave of the row `q`.
pub data After (ch : Changes) (max : ℕ) (q : OutboxRow) (after : Option OutboxRow) : Type 0 where
  left : after ≡ some q → After ch max q after
  published : (q' : OutboxRow) → ch.Published q q' → after ≡ some q' → After ch max q after
  failed :
      (error : String) (q' : OutboxRow)
      → ch.Failed error q q'
      → q.attempts + 1 < max
      → after ≡ some q'
      → After ch max q after
  dead :
      (error : String) (q' : OutboxRow)
      → ch.Dead error q q'
      → max ≤ q.attempts + 1
      → after ≡ some q'
      → After ch max q after

module _ {W : Type 0} (store : OutboxStore W) (publish : Publish W) (opts : OutboxRelayOptions)
    (row : W → String → Option OutboxRow) (ch : Changes) (laws : IsOutboxStore store row ch)
    (keeps : PublishKeeps publish row) where
  abbrev pub Left : OutboxRow → Option OutboxRow → Type 0
  Left q o = After ch opts.max_attempts q o

  failed_After :
      (error : String) (q : OutboxRow) {result : Result (Unit {0})} {o : Option OutboxRow}
      → q.attempts + 1 < opts.max_attempts
      → Outcome (ch.Failed error) q result o
      → Left q o
  failed_After error q few (done q' change _ after) = failed error q' change few after
  failed_After error q few (threw e _ after) = left after

  dead_After :
      (error : String) (q : OutboxRow) {result : Result (Unit {0})} {o : Option OutboxRow}
      → opts.max_attempts ≤ q.attempts + 1
      → Outcome (ch.Dead error) q result o
      → Left q o
  dead_After error q many (done q' change _ after) = dead error q' change many after
  dead_After error q many (threw e _ after) = left after

  record_failure-After :
      (r : OutboxRecord) (e : Failure) (w : W) (q : OutboxRow)
      → row w r.id ≡ some q
      → r.attempts ≡ q.attempts
      → Left q (row (record_failure store publish opts r e w).1 r.id)
  unfolding record_failure
  record_failure-After r e w q found same =
      elim (Bool-cases (leb opts.max_attempts (r.attempts + 1))) [
        | inl many ↦
            rw (many, state_of_continue-pure (store.mark_dead r.id (message e) w) (λ _. false))
              (dead_After (message e) q (ground arith) (laws.dead_own r.id (message e) w q found))
        | inr few ↦
            rw (few, state_of_continue-pure (store.mark_failed r.id (message e) w) (λ _. false))
              (failed_After (message e) q (ground arith)
                (laws.failed_own r.id (message e) w q found))
      ]

  record_failure_ne :
      (r : OutboxRecord) (e : Failure) (w : W) (id : String)
      → id ≢ r.id
      → row (record_failure store publish opts r e w).1 id ≡ row w id
  unfolding record_failure
  record_failure_ne r e w id ne = elim (Bool-cases (leb opts.max_attempts (r.attempts + 1))) [
    | inl many ↦
        rw (many, state_of_continue-pure (store.mark_dead r.id (message e) w) (λ _. false))
          (laws.dead_ne r.id (message e) w id ne)
    | inr few ↦
        rw (few, state_of_continue-pure (store.mark_failed r.id (message e) w) (λ _. false))
          (laws.failed_ne r.id (message e) w id ne)
  ]

  -- The rest of a round, once its call of `markPublished` has ended as `m`.
  abbrev marked : OutboxRecord → Result (Unit {0}) × W → Result Bool × W
  marked r m = caught (continue m (λ _. pure true)) (record_failure store publish opts r)

  -- The rest of a round, once its call of `publish` has ended as `p`.
  abbrev sent : OutboxRecord → Result (Unit {0}) × W → Result Bool × W
  sent r p =
      caught (continue p (λ _ w. continue (store.mark_published r.id w) (λ _. pure true)))
        (record_failure store publish opts r)

  marked-After :
      (r : OutboxRecord) (q : OutboxRow) (m : Result (Unit {0}) × W)
      → r.attempts ≡ q.attempts
      → Outcome ch.Published q m.0 (row m.1 r.id)
      → Left q (row (marked r m).1 r.id)
  marked-After r q (ok u, w) same (done q' change _ after) = published q' change after
  marked-After r q (ok u, w) same (threw e result _) = cc
  marked-After r q (err e, w) same (done q' _ result _) = cc
  marked-After r q (err e, w) same (threw _ _ after) = record_failure-After r e w q after same

  marked_ne :
      (r : OutboxRecord) (m : Result (Unit {0}) × W) (id : String)
      → id ≢ r.id
      → row (marked r m).1 id ≡ row m.1 id
  marked_ne r (ok u, w) id ne = refl
  marked_ne r (err e, w) id ne = record_failure_ne r e w id ne

  sent-After :
      (r : OutboxRecord) (q : OutboxRow) (p : Result (Unit {0}) × W)
      → row p.1 r.id ≡ some q
      → r.attempts ≡ q.attempts
      → Left q (row (sent r p).1 r.id)
  sent-After r q (ok u, w) found same =
      marked-After r q (store.mark_published r.id w) same (laws.published_own r.id w q found)
  sent-After r q (err e, w) found same = record_failure-After r e w q found same

  sent_ne :
      (r : OutboxRecord) (p : Result (Unit {0}) × W) (id : String)
      → id ≢ r.id
      → row (sent r p).1 id ≡ row p.1 id
  sent_ne r (ok u, w) id ne =
      marked_ne r (store.mark_published r.id w) id ne ∙ laws.published_ne r.id w id ne
  sent_ne r (err e, w) id ne = record_failure_ne r e w id ne

  pub deliver-After :
      (r : OutboxRecord) (w : W) (q : OutboxRow)
      → row w r.id ≡ some q
      → r.attempts ≡ q.attempts
      → Left q (row (deliver store publish opts r w).1 r.id)
  unfolding deliver
  deliver-After r w q found same =
      sent-After r q (publish_record store publish opts r w) (keeps _ w r.id ∙ found) same

  pub deliver_ne :
      (r : OutboxRecord) (w : W) (id : String)
      → id ≢ r.id
      → row (deliver store publish opts r w).1 id ≡ row w id
  unfolding deliver
  deliver_ne r w id ne = sent_ne r (publish_record store publish opts r w) id ne ∙ keeps _ w id
