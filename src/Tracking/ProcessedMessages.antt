-- ===== src/Tracking/ProcessedMessages.antt =====
-- apps/tracking-service/src/repositories/processed-message.repository.ts. The insert is
-- `processedMessage.create`, which throws Prisma's P2002 where the row is there already.
use logistics_platform.Prelude.{
  String, ◌≡◌, refl, ap, subst, inl, inr, Bool, true, false, ◌==◌, Bool-cases, if◌then◌else◌,
}
use logistics_platform.Result.{Failure, error, known_request, thrown, Result, ok, err}
use logistics_platform.Act.{Act, pure, try, caught, continue, ◌>>◌}
use logistics_platform.Messaging.Transaction.{Transaction, Ending, IsTransaction}
use logistics_platform.Messaging.Consumer.{
  ProcessResult, processed, duplicate, failed, MarkProcessed,
}
use logistics_platform.Messaging.ProcessedStore.{Seen, Marked, IsProcessedStore}

abbrev pub Create : Type 0 → Type 0
Create W = (consumer event event_type : String) → Act W (Unit {0})

pub record IsCreate {W : Type 0} (create : Create W) (seen : Seen W) : Type 0 where
  pub fresh :
      (consumer event event_type : String) (w : W)
      → (create consumer event event_type w).0 ≡ ok tt
      → (seen w consumer event ≡ false)
        × (seen (create consumer event event_type w).1 consumer event ≡ true)

-- `isUniqueConstraintError(error)`
abbrev pub is_unique_constraint_error : Failure → Bool
is_unique_constraint_error (known_request code message) = code == "P2002"
is_unique_constraint_error _ = false

abbrev pub to_error : Failure → Failure
to_error (thrown text) = error text
to_error e = e

-- the `catch`
unfoldable pub result_of : Failure → ProcessResult
result_of e = if is_unique_constraint_error e then duplicate else failed (to_error e)

module _ {W : Type 0} (transaction : Transaction W) (create : Create W) where
  abbrev pub operation : String → String → String → Act W (Unit {0}) → Act W ProcessResult
  operation consumer event event_type handler = do
    create consumer event event_type
    handler
    pure processed

  unfoldable pub mark_processed : MarkProcessed W
  unfolding result_of
  mark_processed consumer event event_type handler =
      try (transaction ProcessResult (operation consumer event event_type handler))
        (λ e. pure (result_of e))

  module _ (seen : Seen W) (atomic : IsTransaction transaction) (rows : IsCreate create seen) where
    handled-Ran :
        (consumer event event_type : String) (handler : Act W (Unit {0})) (w w1 : W)
        (result : Result (Unit {0})) (w2 w' : W) (a : ProcessResult)
        → create consumer event event_type w ≡ (ok tt, w1)
        → handler w1 ≡ (result, w2)
        → continue (result, w2) (λ _. pure processed) ≡ (ok a, w')
        → Marked seen consumer event handler w (ok a, w')
    handled-Ran consumer event event_type handler w w1 (err e) w2 w' a call ran h =
        cc (ap (λ (x : Result ProcessResult × W). x.0) h)
    handled-Ran consumer event event_type handler w w1 (ok u) w2 w' a call ran h =
        let (unseen, recorded) =
          rows.fresh consumer event event_type w (ap (λ (x : Result (Unit {0}) × W). x.0) call) in
        let after = ap (λ (x : Result (Unit {0}) × W). x.1) call in
        subst (Marked seen consumer event handler w) h (record {
          at = w1;
          unseen = unseen;
          recorded = subst (λ v. seen v consumer event ≡ true) after recorded;
          returned = ran;
        })

    created-Ran :
        (consumer event event_type : String) (handler : Act W (Unit {0})) (w : W)
        (result : Result (Unit {0})) (w1 w' : W) (a : ProcessResult)
        → create consumer event event_type w ≡ (result, w1)
        → continue (result, w1) (λ _. handler >> pure processed) ≡ (ok a, w')
        → Marked seen consumer event handler w (ok a, w')
    created-Ran consumer event event_type handler w (err e) w1 w' a call h =
        cc (ap (λ (x : Result ProcessResult × W). x.0) h)
    created-Ran consumer event event_type handler w (ok u) w1 w' a call h =
        handled-Ran consumer event event_type handler w w1 _ _ w' a call refl h

    failed-Marked :
        (consumer event : String) (handler : Act W (Unit {0})) (w : W) (e : Failure)
        → Marked seen consumer event handler w (ok (result_of e), w)
    unfolding result_of
    failed-Marked consumer event handler w e = elim (Bool-cases (is_unique_constraint_error e)) [
      | inl unique ↦ rw unique refl
      | inr other ↦ rw other refl
    ]

    Ending-Marked :
        (consumer event event_type : String) (handler : Act W (Unit {0})) (w : W)
        (result : Result ProcessResult × W)
        → Ending (operation consumer event event_type handler w) w result
        → Marked seen consumer event handler w (caught result (λ e. pure (result_of e)))
    Ending-Marked consumer event event_type handler w result (Ending.committed a w' ran e) =
        rw e (created-Ran consumer event event_type handler w _ _ w' a refl ran)
    Ending-Marked consumer event event_type handler w result (Ending.aborted e w' threw same) =
        rw same (failed-Marked consumer event handler w e)
    Ending-Marked consumer event event_type handler w result (Ending.refused e same) =
        rw same (failed-Marked consumer event handler w e)

    -- For atomic transactions and a create that throws where the row is there already, the store of
    -- the tracking service keeps the promise of its interface, in the same words as the
    -- notification service's.
    pub repository-IsProcessedStore : IsProcessedStore mark_processed seen
    unfolding mark_processed
    repository-IsProcessedStore consumer event event_type handler w =
        Ending-Marked consumer event event_type handler w _
          (atomic ProcessResult (operation consumer event event_type handler) w)

    -- The event is not on record and its handler has left nothing, but the store answers duplicate; or
    -- the transaction itself failed, and its error decides the answer.
    pub data Unrecorded (consumer event event_type : String) (handler : Act W (Unit {0})) (w : W)
        : Type 0 where
      answered_duplicate :
          seen w consumer event ≡ false
          → mark_processed consumer event event_type handler w ≡ (ok duplicate, w)
          → Unrecorded consumer event event_type handler w
      transaction_failed :
          (e : Failure)
          → transaction ProcessResult (operation consumer event event_type handler) w ≡ (err e, w)
          → mark_processed consumer event event_type handler w ≡ (ok (result_of e), w)
          → Unrecorded consumer event event_type handler w
