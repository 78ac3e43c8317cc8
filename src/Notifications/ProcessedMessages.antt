-- ===== src/Notifications/ProcessedMessages.antt =====
-- apps/notification-service/src/infrastructure/prisma/prisma-processed-message.store.ts. The insert is
-- the SQL statement, which the database runs; it returns the ids of the rows that it inserted.
use logistics_platform.Prelude.{
  String, ◌≡◌, refl, ap, subst, inl, inr, Bool, true, false, List, [], ◌∷◌, ◌&&◌, ◌==◌, Bool-cases,
  if◌then◌else◌,
}
use logistics_platform.Result.{Failure, error, thrown, message, Result, ok, err}
use logistics_platform.Act.{Act, pure, throw, try, caught, continue, ◌>>=◌, ◌>>◌}
use logistics_platform.Messaging.Transaction.{Transaction, Ending, IsTransaction}
use logistics_platform.Messaging.Consumer.{
  ProcessResult, processed, duplicate, failed, MarkProcessed,
}
use logistics_platform.Messaging.ProcessedStore.{Seen, Ran, Marked, IsProcessedStore}

abbrev pub Insert : Type 0 → Type 0
Insert W = (consumer event event_type : String) → Act W (List String)

-- `INSERT … ON CONFLICT (consumer_name, event_id) DO NOTHING RETURNING id`
pub record IsInsert {W : Type 0} (insert : Insert W) (seen : Seen W) : Type 0 where
  pub old :
      (consumer event event_type : String) (w : W) (ids : List String)
      → (insert consumer event event_type w).0 ≡ ok ids
      → seen w consumer event ≡ true
      → ids ≡ []
  pub recorded :
      (consumer event event_type : String) (w : W) (ids : List String)
      → (insert consumer event event_type w).0 ≡ ok ids
      → seen (insert consumer event event_type w).1 consumer event ≡ true

-- `error instanceof Error`
abbrev pub is_error : Failure → Bool
is_error (thrown text) = false
is_error _ = true

abbrev pub to_error : Failure → Failure
to_error (thrown text) = error text
to_error e = e

is_duplicate : Failure → Bool
is_duplicate e = is_error e && (message e == "DUPLICATE_MESSAGE")

-- the `catch`
unfoldable pub result_of : Failure → ProcessResult
unfolding is_duplicate
result_of e = if is_duplicate e then duplicate else failed (to_error e)

module _ {W : Type 0} (transaction : Transaction W) (insert : Insert W) where
  abbrev run_handler : List String → Act W (Unit {0}) → Act W (Unit {0})
  run_handler [] handler = throw (error "DUPLICATE_MESSAGE")
  run_handler (_ ∷ _) handler = handler

  operation : String → String → String → Act W (Unit {0}) → Act W (Unit {0})
  operation consumer event event_type handler = do
    inserted ← insert consumer event event_type
    run_handler inserted handler

  unfoldable pub mark_processed : MarkProcessed W
  unfolding operation result_of
  mark_processed consumer event event_type handler =
      try (transaction Unit (operation consumer event event_type handler) >> pure processed)
        (λ e. pure (result_of e))

  module _ (seen : Seen W) (atomic : IsTransaction transaction) (sql : IsInsert insert seen) where
    inserted-Ran :
        (consumer event event_type : String) (handler : Act W (Unit {0})) (w : W)
        (result : Result (List String)) (w1 w' : W) (a : Unit {0})
        → insert consumer event event_type w ≡ (result, w1)
        → continue (result, w1) (λ ids. run_handler ids handler) ≡ (ok a, w')
        → Ran seen consumer event handler w w'
    inserted-Ran consumer event event_type handler w (err e) w1 w' a call h =
        cc (ap (λ (x : Result (Unit {0}) × W). x.0) h)
    inserted-Ran consumer event event_type handler w (ok []) w1 w' a call h =
        cc (ap (λ (x : Result (Unit {0}) × W). x.0) h)
    inserted-Ran consumer event event_type handler w (ok (id ∷ ids)) w1 w' a call h =
        let returned = ap (λ (x : Result (List String) × W). x.0) call in
        let after = ap (λ (x : Result (List String) × W). x.1) call in
        record {
          at = w1;
          unseen = elim (Bool-cases (seen w consumer event)) [
            | inl old ↦ cc (sql.old consumer event event_type w (id ∷ ids) returned old)
            | inr new ↦ new
          ];
          recorded =
              subst (λ v. seen v consumer event ≡ true) after
                (sql.recorded consumer event event_type w (id ∷ ids) returned);
          returned = h;
        }

    operation-Ran :
        (consumer event event_type : String) (handler : Act W (Unit {0})) (w w' : W) (a : Unit {0})
        → operation consumer event event_type handler w ≡ (ok a, w')
        → Ran seen consumer event handler w w'
    unfolding operation
    operation-Ran consumer event event_type handler w w' a h =
        inserted-Ran consumer event event_type handler w _ _ w' a refl h

    failed-Marked :
        (consumer event : String) (handler : Act W (Unit {0})) (w : W) (e : Failure)
        → Marked seen consumer event handler w (ok (result_of e), w)
    unfolding result_of
    failed-Marked consumer event handler w e = elim (Bool-cases (is_duplicate e)) [
      | inl yes_it_is ↦ rw yes_it_is refl
      | inr other ↦ rw other refl
    ]

    Ending-Marked :
        (consumer event event_type : String) (handler : Act W (Unit {0})) (w : W)
        (result : Result (Unit {0}) × W)
        → Ending (operation consumer event event_type handler w) w result
        → Marked seen consumer event handler w
            (caught (continue result (λ _. pure processed)) (λ e. pure (result_of e)))
    Ending-Marked consumer event event_type handler w result (Ending.committed a w' ran e) =
        rw e (operation-Ran consumer event event_type handler w w' a ran)
    Ending-Marked consumer event event_type handler w result (Ending.aborted e w' threw same) =
        rw same (failed-Marked consumer event handler w e)
    Ending-Marked consumer event event_type handler w result (Ending.refused e same) =
        rw same (failed-Marked consumer event handler w e)

    -- For atomic transactions and an insert that behaves as the SQL says, the store of the
    -- notification service keeps the promise of its interface: it always returns a result,
    -- processed only if the handler ran and returned on a state where the event had just been put
    -- on record, having been absent, and with any other result the database is as it was.
    pub mark_processed-IsProcessedStore : IsProcessedStore mark_processed seen
    unfolding mark_processed
    mark_processed-IsProcessedStore consumer event event_type handler w =
        Ending-Marked consumer event event_type handler w _
          (atomic Unit (operation consumer event event_type handler) w)
