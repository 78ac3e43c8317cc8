-- ===== src/Flow/Correlated.antt =====
-- The correlation id of a request, on its way into the events it announces and the lines that are logged.
use logistics_platform.Prelude.{ℕ, String, ◌≡◌, refl, true, Option, none, some, [], ◌∷◌}
use logistics_platform.Json.{str}
use logistics_platform.Runtime.{Runtime}
use logistics_platform.Contracts.Envelope.{Envelope, or_null}
use logistics_platform.Observability.Correlation.{
  CorrelationContext, is_uuid, middleware, middleware_ids,
}
use logistics_platform.Observability.Logging.{mixin}
use logistics_platform.Messaging.EnvelopeBuilder.{BuildEnvelopeInput, build_event_envelope}
use logistics_platform.Messaging.Consumer.{context_of}

-- An event that names no ids of its own, as all that the services announce.
abbrev pub Unnamed : {P : Type 0} → BuildEnvelopeInput P → Type 0
Unnamed input = (input.correlation_id ≡ none) × (input.causation_id ≡ none)

-- The ids of a request in its response, in an event that is announced in it and in what is logged, by
-- the service and by a consumer of the event, and in an event that this consumer announces in turn.
pub record Correlated {P Q : Type 0} (correlation causation : Option String) (header : String)
    (ctx : CorrelationContext) (event : Envelope P) (next : Envelope Q) : Type 0 where
  pub is_id : is_uuid header ≡ true
  pub kept : (c : String) → correlation ≡ some c → is_uuid c ≡ true → header ≡ c
  pub cause : (c : String) → ctx.causation_id ≡ some c → (is_uuid c ≡ true) × (causation ≡ some c)
  pub announced : event.correlation_id ≡ header
  pub announced_cause : event.causation_id ≡ ctx.causation_id
  pub logged :
      mixin (some ctx)
      ≡ ("correlationId", str header) ∷ ("causationId", or_null ctx.causation_id) ∷ []
  pub logged_by_consumer : mixin (some (context_of event)) ≡ mixin (some ctx)
  pub announced_next : next.correlation_id ≡ header
  pub next_cause : next.causation_id ≡ ctx.causation_id

-- If the id that the host generates is a UUID, then whatever the headers of a request, the id in
-- the header of its response is a UUID, and is the request's own if that is a UUID; the cause in
-- its context, if there is one, is a UUID that came with the request. An event that is announced in
-- the request and names no ids itself has this correlation id and this cause, so have the lines
-- that are logged in the request and in the context that a consumer of the event sets, and so has
-- an event that names no ids and is announced there.
pub request-Correlated :
    {P Q : Type 0} (rt : Runtime) (correlation causation : Option String) (new_id : String)
    (uuid uuid' uuid'' uuid''' : String) (now now' : ℕ) (input : BuildEnvelopeInput P)
    (input' : BuildEnvelopeInput Q)
    → is_uuid new_id ≡ true
    → Unnamed input
    → Unnamed input'
    → let (header, ctx) = middleware correlation causation new_id in
      let event = build_event_envelope rt (some ctx) uuid uuid' now input in
      Correlated correlation causation header ctx event
        (build_event_envelope rt (some (context_of event)) uuid'' uuid''' now' input')
unfolding build_event_envelope mixin middleware
request-Correlated rt correlation causation new_id uuid uuid' uuid'' uuid''' now now' input input'
      is_id (none_given, no_cause) (none_given', no_cause') =
    let (same, id, cause, kept) = middleware_ids correlation causation new_id is_id in
    record {
      is_id = id;
      kept = kept;
      cause = cause;
      announced = rw none_given refl;
      announced_cause = rw no_cause refl;
      logged = refl;
      logged_by_consumer = rw (none_given, no_cause) refl;
      announced_next = rw none_given' (rw none_given refl);
      next_cause = rw no_cause' (rw no_cause refl);
    }
