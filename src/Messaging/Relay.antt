-- ===== src/Messaging/Relay.antt =====
-- libs/messaging/src/outbox/outbox-relay.service.ts. A tick's work on the batch is an action; the
-- flags and the timer, which other calls may change while the work waits, are in `Relay.Control`.
pub mod Control
pub mod Fates
pub mod Tick
pub mod Calls
use logistics_platform.Prelude.{
  ℕ, ◌+◌, String, Bool, true, false, Option, none, some, List, [], ◌∷◌, leb, or_else, if◌then◌else◌,
}
use logistics_platform.Result.{
  Failure, error, not_found_exception, http_status, known_request, zod_error, thrown, Result, ok,
  err, message,
}
use logistics_platform.Act.{Act, pure, try, ◌>>=◌, ◌>>◌}
use logistics_platform.Messaging.Outbox.{OutboxRecord, OutboxStore, PublishArgs, Publish}

pub record OutboxRelayOptions : Type 0 where
  pub poll_interval_ms : ℕ
  pub batch_size : ℕ
  pub max_attempts : ℕ
  pub service_name : String

module _ {W : Type 0} (store : OutboxStore W) (publish : Publish W)
    (opts : OutboxRelayOptions) where
  unfoldable pub publish_record : OutboxRecord → Act W (Unit {0})
  publish_record r = publish (record {
    routing_key = r.routing_key;
    body = r.payload;
    message_id = r.id;
    headers = some (or_else r.headers []);
    correlation_id = none;
    content_type = some "application/json";
    timestamp = some r.created_at;
  })

  -- the `catch` around one record
  unfoldable pub record_failure : OutboxRecord → Failure → Act W Bool
  record_failure r e =
      if leb opts.max_attempts (r.attempts + 1)
      then (store.mark_dead r.id (message e) >> pure false)
      else (store.mark_failed r.id (message e) >> pure false)

  -- One round of the loop: was the record published and marked so?
  unfoldable pub deliver : OutboxRecord → Act W Bool
  unfolding publish_record record_failure
  deliver r =
      try (publish_record r >> (store.mark_published r.id >> pure true)) (λ e. record_failure r e)

  -- The loop: what the `catch` of one record throws ends it, with the count so far.
  unfoldable pub process : List OutboxRecord → ℕ → W → ℕ × W
  process [] published w = (published, w)
  process (r ∷ rs) published w =
      let (result, w') = deliver r w in
      elim result [
        | ok done ↦ process rs (if done then published + 1 else published) w'
        | err e ↦ (published, w')
      ]

  unfoldable pub process_claimed : Result (List OutboxRecord) × W → ℕ × W
  process_claimed (ok batch, w) = process batch 0 w
  process_claimed (err e, w) = (0, w)

  -- The `try` of `tick`: the number of records published, which `tick` returns.
  unfoldable pub tick_work : W → ℕ × W
  unfolding process_claimed
  tick_work w = process_claimed (store.claim_batch opts.batch_size w)
