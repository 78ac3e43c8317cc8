-- ===== src/Tests/Contracts.antt =====
-- Events, and the context of a request.
use logistics_platform.Prelude.{◌≡◌, refl, true, some, Option}
use logistics_platform.Text.{text_length}
use logistics_platform.Json.{Json}
use logistics_platform.Contracts.Envelope.{
  Envelope, event_schema, base_event_envelope_schema, envelope_json, base_envelope_json,
}
use logistics_platform.Contracts.OrderCreated.{
  order_created_payload_json, order_created_event_schema, order_created_json,
}
use logistics_platform.Contracts.Acceptance.{order_created_read, event_schema-base_envelope_json}
use logistics_platform.Observability.Correlation.{is_uuid}
use logistics_platform.Tests.Samples.{rt, created_payload, enveloped, moved}
use logistics_platform.Contracts.Acceptance.{shipment_status_changed_read}
use logistics_platform.Contracts.ShipmentStatusChanged.{
  shipment_status_changed_event_schema, shipment_status_changed_json,
}

order_created_read_example :
    order_created_event_schema rt (order_created_json (enveloped "order.created" created_payload))
    ≡ some (enveloped "order.created" created_payload)
unfolding is_uuid text_length
order_created_read_example = order_created_read rt (enveloped "order.created" created_payload)

abbrev kept : Envelope (Option Json)
kept = enveloped "order.created" (some (order_created_payload_json created_payload))

kept-base_event_envelope_schema :
    base_event_envelope_schema rt (order_created_json (enveloped "order.created" created_payload))
    ≡ some kept
unfolding base_event_envelope_schema event_schema order_created_json envelope_json is_uuid
    text_length
kept-base_event_envelope_schema = refl

event_schema-base_envelope_json_example :
    event_schema rt (λ s. true) some (base_envelope_json kept)
    ≡ event_schema rt
        (λ s. true)
        some
        (order_created_json (enveloped "order.created" created_payload))
event_schema-base_envelope_json_example =
    event_schema-base_envelope_json rt (λ s. true) some
      (order_created_json (enveloped "order.created" created_payload))
      kept-base_event_envelope_schema

shipment_status_changed_read_example :
    shipment_status_changed_event_schema rt
      (shipment_status_changed_json (enveloped "shipment.status_changed" moved))
    ≡ some (enveloped "shipment.status_changed" moved)
unfolding is_uuid text_length
shipment_status_changed_read_example =
    shipment_status_changed_read rt (enveloped "shipment.status_changed" moved)
