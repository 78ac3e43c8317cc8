-- ===== src/Messaging/ProcessedStore.antt =====
-- libs/messaging/src/consumer/processed-message-store.ts: what the interface promises, as a
-- predicate on its implementations.
use logistics_platform.Prelude.{String, ◌≡◌, Bool, true, false}
use logistics_platform.Result.{Result, ok, err}
use logistics_platform.Act.{Act}
use logistics_platform.Messaging.Consumer.{
  ProcessResult, processed, duplicate, failed, MarkProcessed,
}

-- `seen w consumer event`: the event is on record for the consumer.
abbrev pub Seen : Type 0 → Type 0
Seen W = W → String → String → Bool

-- A handler that ran: on a state where its event was just put on record, and it returned.
pub record Ran {W : Type 0} (seen : Seen W) (consumer event : String) (handler : Act W (Unit {0}))
    (before after : W) : Type 0 where
  pub at : W
  pub unseen : seen before consumer event ≡ false
  pub recorded : seen at consumer event ≡ true
  pub returned : handler at ≡ (ok tt, after)

abbrev pub Marked :
    {W : Type 0}
    → Seen W
    → String
    → String
    → Act W (Unit {0})
    → W
    → Result ProcessResult × W
    → Type 0
Marked seen consumer event handler w (ok processed, w') = Ran seen consumer event handler w w'
Marked seen consumer event handler w (ok duplicate, w') = w' ≡ w
Marked seen consumer event handler w (ok (failed e), w') = w' ≡ w
Marked seen consumer event handler w (err e, w') = ⊥

-- The promise: a result is always returned; `processed` means that the handler ran for an event that
-- was not on record, and with any other result the database is as it was.
abbrev pub IsProcessedStore : {W : Type 0} → MarkProcessed W → Seen W → Type 0
IsProcessedStore {W} mark_processed seen =
    (consumer event event_type : String) (handler : Act W (Unit {0})) (w : W)
    → Marked seen consumer event handler w (mark_processed consumer event event_type handler w)
