-- ===== src/Contracts/Envelope.antt =====
-- libs/contracts/src/events/envelope.ts and event-types.ts
use logistics_platform.Prelude.{ℕ, String, Bool, Option, none, some}
use logistics_platform.Number.{Number}
use logistics_platform.Runtime.{Runtime}
use logistics_platform.Json.{
  Json, Fields, null, num, str, obj, end, field, get, ◌>>=◌, string_where, at_least_one,
  number_where, positive_int, nullable, object, required,
}

pub record Envelope (P : Type 0) : Type 0 where
  pub event_id : String
  pub event_type : String
  pub event_version : Number
  pub occurred_at : String
  pub correlation_id : String
  pub causation_id : Option String
  pub producer : String
  pub payload : P

abbrev pub event_schema_version : ℕ
event_schema_version = 1

abbrev pub order_created : String
order_created = "order.created"

abbrev pub order_cancelled : String
order_cancelled = "order.cancelled"

abbrev pub shipment_status_changed : String
shipment_status_changed = "shipment.status_changed"

-- `eventEnvelopeSchema(payloadSchema).extend({ eventType })`: the reader of the type and that of
-- the payload, which may be missing, are arguments.
unfoldable pub event_schema :
    {P : Type 0} → Runtime → (String → Bool) → (Option Json → Option P) → Json → Option (Envelope P)
event_schema rt type_ok payload_schema v = do
  fs ← object v
  event_id ← required (string_where rt.uuid_format) (get "eventId" fs)
  event_type ← required (string_where type_ok) (get "eventType" fs)
  event_version ← required (number_where positive_int) (get "eventVersion" fs)
  occurred_at ← required (string_where rt.datetime_format) (get "occurredAt" fs)
  correlation_id ← required (string_where rt.uuid_format) (get "correlationId" fs)
  causation_id ← required (nullable (string_where rt.uuid_format)) (get "causationId" fs)
  producer ← required (string_where at_least_one) (get "producer" fs)
  payload ← payload_schema (get "payload" fs)
  some (record {
    event_id = event_id;
    event_type = event_type;
    event_version = event_version;
    occurred_at = occurred_at;
    correlation_id = correlation_id;
    causation_id = causation_id;
    producer = producer;
    payload = payload;
  })

-- `eventEnvelopeSchema(z.unknown())`; a missing payload is undefined
unfoldable pub base_event_envelope_schema : Runtime → Json → Option (Envelope (Option Json))
unfolding event_schema
base_event_envelope_schema rt = event_schema rt at_least_one some

-- The text of an optional string as JSON.
abbrev pub or_null : Option String → Json
or_null none = null
or_null (some s) = str s

-- The object that `JSON.stringify` prints, for a payload that is given as JSON.
unfoldable pub envelope_json : {P : Type 0} → (P → Json) → Envelope P → Json
envelope_json payload_json e = obj (
    field "eventId" (str e.event_id) (
      field "eventType" (str e.event_type) (
        field "eventVersion" (num e.event_version) (
          field "occurredAt" (str e.occurred_at) (
            field "correlationId" (str e.correlation_id) (
              field "causationId" (or_null e.causation_id) (
                field "producer" (str e.producer)
                  (field "payload" (payload_json e.payload) end))))))))

-- Of an envelope whose payload was not looked at, and may be missing.
abbrev payload_field : Option Json → Fields
payload_field none = end
payload_field (some v) = field "payload" v end

unfoldable pub base_envelope_json : Envelope (Option Json) → Json
base_envelope_json e = obj (
    field "eventId" (str e.event_id) (
      field "eventType" (str e.event_type) (
        field "eventVersion" (num e.event_version) (
          field "occurredAt" (str e.occurred_at) (
            field "correlationId" (str e.correlation_id) (
              field "causationId" (or_null e.causation_id)
                (field "producer" (str e.producer) (payload_field e.payload))))))))
