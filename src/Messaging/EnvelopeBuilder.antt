-- ===== src/Messaging/EnvelopeBuilder.antt =====
-- libs/messaging/src/envelope/envelope-builder.ts
pub mod Sound
use logistics_platform.Prelude.{ℕ, String, Option, none, some, or_else}
use logistics_platform.Number.{Number}
use logistics_platform.Runtime.{Runtime}
use logistics_platform.Contracts.Envelope.{Envelope}
use logistics_platform.Observability.Correlation.{CorrelationContext, get_id, get_causation_id}

-- An optional `causationId` that is given as null counts as missing, as `??` has it.
pub record BuildEnvelopeInput (P : Type 0) : Type 0 where
  pub event_type : String
  pub event_version : Number
  pub producer : String
  pub payload : P
  pub correlation_id : Option String
  pub causation_id : Option String
  pub event_id : Option String
  pub occurred_at : Option ℕ

-- `a ?? b` for a `b` that may be null too
abbrev pub or_option {ℓ} : {A : Type ℓ} → Option A → Option A → Option A
or_option none b = b
or_option (some a) b = some a

-- The two calls of `randomUUID()` return `uuid` and `uuid'`, and `new Date()` is `now`.
unfoldable pub build_event_envelope :
    {P : Type 0}
    → Runtime
    → Option CorrelationContext
    → (uuid uuid' : String) (now : ℕ) → BuildEnvelopeInput P
    → Envelope P
build_event_envelope rt ctx uuid uuid' now input = record {
  event_id = or_else input.event_id uuid;
  event_type = input.event_type;
  event_version = input.event_version;
  occurred_at = rt.to_iso_string (or_else input.occurred_at now);
  correlation_id = or_else input.correlation_id (or_else (get_id ctx) uuid');
  causation_id = or_option input.causation_id (get_causation_id ctx);
  producer = input.producer;
  payload = input.payload;
}
