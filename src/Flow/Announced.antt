-- ===== src/Flow/Announced.antt =====
-- An event that its schema accepts is an event to a consumer, too, which validates it in two stages.
use logistics_platform.Prelude.{String, ◌≡◌, refl, true, Option, none, some, ◌==◌, eq_iff, arith}
use logistics_platform.Json.{Json, at_least_one, required}
use logistics_platform.Act.{Act}
use logistics_platform.Runtime.{Runtime}
use logistics_platform.Contracts.Envelope.{
  Envelope, event_schema, envelope_json, base_event_envelope_schema,
}
use logistics_platform.Contracts.Acceptance.{envelope_ok, event_schema-base_envelope_json}
use logistics_platform.Observability.Correlation.{CorrelationContext}
use logistics_platform.Messaging.Consumer.{stays_open, MarkProcessed, ConsumerOptions}
use logistics_platform.Messaging.Consumer.Settlements.{event_of}

module _ {P : Type 0} (rt : Runtime) (event_type : String) (payload_schema : Json → Option P)
    (payload_json : P → Json) where
  abbrev schema : Json → Option (Envelope P)
  schema = event_schema rt (λ t. t == event_type) (required payload_schema)

  -- The envelope that the base schema reads.
  abbrev pub unread : Envelope P → Envelope (Option Json)
  unread e = record {
    event_id = e.event_id;
    event_type = e.event_type;
    event_version = e.event_version;
    occurred_at = e.occurred_at;
    correlation_id = e.correlation_id;
    causation_id = e.causation_id;
    producer = e.producer;
    payload = some (payload_json e.payload);
  }

  base_accepts :
      (e : Envelope P)
      → at_least_one event_type ≡ true
      → schema (envelope_json payload_json e) ≡ some e
      → base_event_envelope_schema rt (envelope_json payload_json e) ≡ some (unread e)
  unfolding event_schema envelope_json base_event_envelope_schema
  base_accepts e given accepted = ground (arith, eq_iff e.event_type event_type)

  pub accepted-event_of :
      {W : Type 0} (mark_processed : MarkProcessed W) (options : ConsumerOptions)
      (handle : CorrelationContext → Envelope P → Act W (Unit {0})) (e : Envelope P)
      → at_least_one event_type ≡ true
      → schema (envelope_json payload_json e) ≡ some e
      → event_of stays_open mark_processed options rt schema handle
          (some (envelope_json payload_json e))
        ≡ some (unread e, e)
  accepted-event_of mark_processed options handle e given accepted =
      let base = base_accepts e given accepted in
      rw base (
        rw
          (event_schema-base_envelope_json rt (λ t. t == event_type) (required payload_schema)
            (envelope_json payload_json e) base)
          (rw accepted refl))

  base_of_envelope_ok :
      (e : Envelope P)
      → at_least_one e.event_type ≡ true
      → envelope_ok rt e ≡ true
      → base_event_envelope_schema rt (envelope_json payload_json e) ≡ some (unread e)
  unfolding event_schema envelope_json base_event_envelope_schema
  base_of_envelope_ok e given sound = ground arith

  -- A sound envelope whose payload the schema refuses is no event.
  pub refused-event_of :
      {W : Type 0} (mark_processed : MarkProcessed W) (options : ConsumerOptions)
      (handle : CorrelationContext → Envelope P → Act W (Unit {0})) (e : Envelope P)
      → at_least_one e.event_type ≡ true
      → envelope_ok rt e ≡ true
      → schema (envelope_json payload_json e) ≡ none
      → event_of stays_open mark_processed options rt schema handle
          (some (envelope_json payload_json e))
        ≡ none
  refused-event_of mark_processed options handle e given sound refused =
      let base = base_of_envelope_ok e given sound in
      rw base (
        rw
          (event_schema-base_envelope_json rt (λ t. t == event_type) (required payload_schema)
            (envelope_json payload_json e) base)
          (rw refused refl))
