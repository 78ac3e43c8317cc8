-- ===== src/Messaging/Consumer/Settlements.antt =====
-- How a delivery is settled, and what the settlement says of the event.
use logistics_platform.Prelude.{
  ◌≡◌, refl, inl, inr, Bool, Bool-cases, false, true, if◌then◌else◌, Option, none, some, List, [],
  ◌∷◌, ◌++◌, or_else, Option-cases,
}
use logistics_platform.Json.{Json}
use logistics_platform.Json
use logistics_platform.Result.{Result, ok, err, Result-cases}
use logistics_platform.Act.{Act, try}
use logistics_platform.Runtime.{Runtime}
use logistics_platform.Contracts.Envelope.{Envelope, base_event_envelope_schema, base_envelope_json}
use logistics_platform.Observability.Correlation.{CorrelationContext}
use logistics_platform.Messaging.Consumer.{
  ProcessResult, processed, duplicate, failed, MarkProcessed, ConsumerOptions, Settlement, ack,
  nack, settle, channel_closed, context_of, on_message,
}

module _ {W P : Type 0} (is_open : W → Bool) (mark_processed : MarkProcessed W)
    (options : ConsumerOptions) (rt : Runtime) (event_schema : Json → Option (Envelope P))
    (handle_event : CorrelationContext → Envelope P → Act W (Unit {0})) where
  -- The event that a content holds, if both schemas accept it, with its envelope.
  abbrev pub event_of : Option Json → Option (Envelope (Option Json) × Envelope P)
  event_of content = Json.◌>>=◌ (Json.◌>>=◌ content (base_event_envelope_schema rt)) λ envelope.
      Json.◌>>=◌ (event_schema (base_envelope_json envelope)) λ typed. some (envelope, typed)

  -- What the store makes of an event.
  abbrev pub marked : Envelope (Option Json) × Envelope P → W → Result ProcessResult × W
  marked (envelope, typed) =
      mark_processed options.consumer_name envelope.event_id envelope.event_type
        (handle_event (context_of envelope) typed)

  -- Without an event the message goes to the dead-letter queue; with one, the settlement follows the
  -- store's result, and an exception of the store goes to the dead-letter queue too.
  abbrev pub settlement : Result ProcessResult → Settlement
  settlement (ok processed) = ack
  settlement (ok duplicate) = ack
  settlement (ok (failed e)) = nack (or_else options.retry_on_error true)
  settlement (err e) = nack false

  -- What is left of a delivery: on an open channel its settlement, and on a closed one an error.
  abbrev pub settling : Settlement → W → List Settlement → Result (Unit {0}) × (W × List Settlement)
  settling s w log =
      if is_open w then (ok tt, (w, log ++ s ∷ [])) else (err channel_closed, (w, log))

  abbrev pub Settled :
      Option (Envelope (Option Json) × Envelope P)
      → W
      → List Settlement
      → Result (Unit {0}) × (W × List Settlement)
      → Type 0
  Settled none w log result = result ≡ settling (nack false) w log
  Settled (some event) w log result =
      result ≡ settling (settlement (marked event w).0) (marked event w).1 log

  -- A settlement that throws, throws again where the callback rejects the message.
  caught_settle :
      (s : Settlement) (w : W) (log : List Settlement)
      → try (settle is_open s) (λ e. settle is_open (nack false)) (w, log) ≡ settling s w log
  caught_settle s w log = elim (Bool-cases (is_open w)) [
    | inl opened ↦ rw opened refl
    | inr closed ↦ rw closed (rw closed refl)
  ]

  -- Whatever a delivery contains, if the channel is open when the consumer settles it, it is
  -- settled exactly once and nothing is thrown; if the channel is closed by then, it is not settled
  -- and the error of the closed channel is thrown. A content that is no event of the consumer's
  -- schema leaves the state alone and is to be rejected without requeueing; any other message is to
  -- be acknowledged if the store answers processed or duplicate, to be rejected, and requeued
  -- unless retry_on_error is false, if it answers failed, and to be rejected without requeueing if
  -- the store throws.
  pub on_message-Settled :
      (content : Option Json) (w : W) (log : List Settlement)
      → Settled (event_of content) w log (
          on_message is_open mark_processed options rt event_schema handle_event
            (some content)
            (w, log))
  unfolding on_message
  on_message-Settled none w log = caught_settle (nack false) w log
  on_message-Settled (some v) w log = elim (Option-cases (base_event_envelope_schema rt v)) [
    | inl invalid ↦ rw invalid (caught_settle (nack false) w log)
    | inr (envelope, valid) ↦
        rw valid (elim (Option-cases (event_schema (base_envelope_json envelope))) [
          | inl untyped ↦ rw untyped (caught_settle (nack false) w log)
          | inr (typed, is_typed) ↦
              rw is_typed (elim (Result-cases (marked (envelope, typed) w).0) [
                | inl (processed, e) ↦ rw e (caught_settle ack _ log)
                | inl (duplicate, e) ↦ rw e (caught_settle ack _ log)
                | inl (failed f, e) ↦
                    rw e (caught_settle (nack (or_else options.retry_on_error true)) _ log)
                | inr (e, threw) ↦ rw threw refl
              ])
        ])
  ]
