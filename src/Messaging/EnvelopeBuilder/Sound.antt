-- ===== src/Messaging/EnvelopeBuilder/Sound.antt =====
-- The ids of an envelope, where those of the host and of the context are UUIDs.
use logistics_platform.Prelude.{String, ◌≡◌, refl, true, Option, none, some, or_else}
use logistics_platform.Runtime.{Runtime}
use logistics_platform.Contracts.Acceptance.{causation_ok}
use logistics_platform.Observability.Correlation.{CorrelationContext, get_id, get_causation_id}

abbrev pub SoundContext : Runtime → Option CorrelationContext → Type 0
SoundContext rt none = Unit {0}
SoundContext rt (some ctx) =
    (rt.uuid_format ctx.correlation_id ≡ true) × (causation_ok rt ctx.causation_id ≡ true)

pub sound_ids :
    (rt : Runtime) (context : Option CorrelationContext) (uuid : String)
    → rt.uuid_format uuid ≡ true
    → SoundContext rt context
    → (rt.uuid_format (or_else (get_id context) uuid) ≡ true)
      × (causation_ok rt (get_causation_id context) ≡ true)
sound_ids rt none uuid is_uuid s = (is_uuid, refl)
sound_ids rt (some context) uuid is_uuid s = s
