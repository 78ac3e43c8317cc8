-- ===== src/Messaging/Consumer.antt =====
-- libs/messaging/src/consumer, and the callback of rabbitmq.client.ts that runs it. Each delivery
-- carries what `JSON.parse` makes of its content: `none` where it throws.
pub mod Settlements
use logistics_platform.Prelude.{
  String, Bool, true, false, Option, none, some, List, [], ◌∷◌, ◌++◌, or_else, if◌then◌else◌,
}
use logistics_platform.Json.{Json}
use logistics_platform.Json
use logistics_platform.Result.{Failure, error, Result, ok, err}
use logistics_platform.Act.{Act, try, ◌>>=◌}
use logistics_platform.Runtime.{Runtime}
use logistics_platform.Contracts.Envelope.{Envelope, base_event_envelope_schema, base_envelope_json}
use logistics_platform.Observability.Correlation.{CorrelationContext}

pub data ProcessResult : Type 0 where
  processed duplicate : ProcessResult
  failed : Failure → ProcessResult

-- `markProcessed(consumerName, eventId, eventType, handler)`
abbrev pub MarkProcessed : Type 0 → Type 0
MarkProcessed W = String → String → String → Act W (Unit {0}) → Act W ProcessResult

pub record ConsumerOptions : Type 0 where
  pub consumer_name : String
  pub queue : String
  pub retry_on_error : Option Bool

-- `channel.ack(msg)` and `channel.nack(msg, false, requeue)`
pub data Settlement : Type 0 where
  ack : Settlement
  nack : (requeue : Bool) → Settlement

-- The calls on the channel are logged beside the state.
abbrev pub Channel : Type 0 → Type 0
Channel W = W × List Settlement

-- What `ack` and `nack` throw on a channel that is closed.
abbrev pub channel_closed : Failure
channel_closed = error "Channel closed"

-- A call on the channel, which the state says is open or not.
abbrev pub settle : {W : Type 0} → (W → Bool) → Settlement → Act (Channel W) (Unit {0})
settle is_open s (w, log) =
    if is_open w then (ok tt, (w, log ++ s ∷ [])) else (err channel_closed, (w, log))

abbrev pub on_store : {W A : Type 0} → Act W A → Act (Channel W) A
on_store m (w, log) = let (result, w') = m w in (result, (w', log))

-- the `switch` on the result
abbrev pub verdict : ConsumerOptions → ProcessResult → Settlement
verdict options processed = ack
verdict options duplicate = ack
verdict options (failed e) = nack (or_else options.retry_on_error true)

-- A channel that stays open.
abbrev pub stays_open : {W : Type 0} → W → Bool
stays_open w = true

-- The context in which an event is handled.
abbrev pub context_of : {P : Type 0} → Envelope P → CorrelationContext
context_of e = record { correlation_id = e.correlation_id; causation_id = e.causation_id }

module _ {W P : Type 0} (is_open : W → Bool) (mark_processed : MarkProcessed W)
    (options : ConsumerOptions) (rt : Runtime) (event_schema : Json → Option (Envelope P))
    (handle_event : CorrelationContext → Envelope P → Act W (Unit {0})) where
  -- The callback of `correlationContext.run`, given the typed event, if it is one.
  handle_typed : Envelope (Option Json) → Option (Envelope P) → Act (Channel W) (Unit {0})
  handle_typed envelope none = settle is_open (nack false)
  handle_typed envelope (some typed) = do
    result ← on_store (
        mark_processed options.consumer_name envelope.event_id envelope.event_type
          (handle_event (context_of envelope) typed))
    settle is_open (verdict options result)

  handle_envelope : Option (Envelope (Option Json)) → Act (Channel W) (Unit {0})
  unfolding handle_typed
  handle_envelope none = settle is_open (nack false)
  handle_envelope (some envelope) =
      handle_typed envelope (event_schema (base_envelope_json envelope))

  unfoldable pub handle_message : Option Json → Act (Channel W) (Unit {0})
  unfolding handle_envelope
  handle_message content = handle_envelope (Json.◌>>=◌ content (base_event_envelope_schema rt))

  -- What `RabbitMQClient.consume` does with a message; a null message is ignored.
  unfoldable pub on_message : Option (Option Json) → Act (Channel W) (Unit {0})
  unfolding handle_message
  on_message none channel = (ok tt, channel)
  on_message (some content) channel =
      try (handle_message content) (λ e. settle is_open (nack false)) channel
