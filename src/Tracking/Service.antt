-- ===== src/Tracking/Service.antt =====
-- apps/tracking-service/src/services/shipments.service.ts, with the methods of the repositories that
-- it calls (repositories/*.ts) and the transaction host.
pub mod Calls
pub mod Updates
pub mod Creation
use Prim.Native.String
use logistics_platform.Prelude.{
  ℕ, String, Bool, true, false, Option, none, some, List, [], ◌∷◌, ◌==◌, or_else, if◌then◌else◌,
}
use mathlib.Core.Option
use logistics_platform.Number.{nat}
use logistics_platform.Json.{Json, str, obj, end, field}
use logistics_platform.Result.{Failure, not_found_exception, zod_error, Result, ok, err}
use logistics_platform.Act.{Act, pure, throw, lift, ◌>>=◌, ◌>>◌}
use logistics_platform.Runtime.{Runtime}
use logistics_platform.Contracts.Envelope.{Envelope, shipment_status_changed}
use logistics_platform.Contracts.ShipmentStatusChanged.{
  ShipmentStatus, EventLocation, ShipmentStatusChangedPayload, status_of,
  shipment_status_changed_json,
}
use logistics_platform.Observability.Correlation.{CorrelationContext}
use logistics_platform.Messaging.EnvelopeBuilder.{build_event_envelope}
use logistics_platform.Messaging.OutboxTable.{NewRow}
use logistics_platform.Messaging.Relay.Control
use logistics_platform.Messaging.Relay.Control.{Control}
use logistics_platform.Messaging.Transaction.{Transaction}
use logistics_platform.Tracking.Shipment.{
  ShipmentLocation, ShipmentRecord, ShipmentWithEvents, TrackingEventRow, TrackingEventRecord,
  map_shipment, tracking_location_to_json,
}
use logistics_platform.Tracking.Client.{TrackingClient, NewEvent}

pub record CreatePendingShipmentInput : Type 0 where
  pub order_id : String
  pub occurred_at : ℕ

pub record UpdateShipmentStatusInput : Type 0 where
  pub shipment_id : String
  pub status : String
  pub occurred_at : Option ℕ
  pub location : Option ShipmentLocation

-- The ids that `randomUUID()` returns, the time and the context of a run.
pub record Inputs : Type 0 where
  pub event_uuid : String
  pub correlation_uuid : String
  pub now : ℕ
  pub context : Option CorrelationContext

-- `PrismaTransactionHost.withTransaction`: an active transaction is joined.
unfoldable pub with_transaction :
    {W : Type 0} → Transaction W → (active : Bool) (A : Type 0) → Act W A → Act W A
with_transaction transaction true A operation = operation
with_transaction transaction false A operation = transaction A operation

abbrev pub event_location : ShipmentLocation → EventLocation
event_location l = record { latitude = l.lat; longitude = l.lng; label = l.label }

-- `shipmentStatusSchema.parse(status)`
abbrev pub parse_status : String → Result ShipmentStatus
parse_status s = elim (status_of s) [ none ↦ err zod_error | some status ↦ ok status ]

abbrev not_found : String → Failure
not_found id = not_found_exception (String.◌++◌ "Shipment '" (String.◌++◌ id "' not found"))

abbrev or_not_found : Failure → Option ShipmentRecord → Result ShipmentRecord
or_not_found e none = err e
or_not_found e (some s) = ok s

abbrev pub new_event : (shipment_id status : String) → ℕ → Option ShipmentLocation → NewEvent
new_event shipment_id status occurred_at location = record {
  shipment_id = shipment_id;
  status = status;
  occurred_at = occurred_at;
  location = Option.map tracking_location_to_json location;
}

-- the message of a change
unfoldable pub changed_row : Runtime → Inputs → ShipmentStatusChangedPayload → NewRow
changed_row rt inputs payload =
    let envelope : Envelope ShipmentStatusChangedPayload =
      build_event_envelope rt inputs.context inputs.event_uuid inputs.correlation_uuid inputs.now
        (record {
          event_type = shipment_status_changed;
          event_version = nat 1;
          producer = "tracking-service";
          payload = payload;
          correlation_id = none;
          causation_id = none;
          event_id = none;
          occurred_at = none;
        }) in
    record {
      aggregate_type = "shipment";
      aggregate_id = payload.shipment_id;
      event_type = shipment_status_changed;
      routing_key = shipment_status_changed;
      payload = shipment_status_changed_json envelope;
      headers = some (
          obj (
            field "eventType" (str shipment_status_changed)
              (field "correlationId" (str envelope.correlation_id) end)));
    }

module _ {W : Type 0} (client : TrackingClient W) where
  -- TrackingRepository
  unfoldable pub find_by_id : String → Act W (Option ShipmentRecord)
  find_by_id id = do row ← client.find_by_id id; pure (Option.map map_shipment row)

  unfoldable pub find_by_order_id : String → Act W (Option ShipmentRecord)
  find_by_order_id order_id = do
    row ← client.find_by_order order_id
    pure (Option.map map_shipment row)

  unfoldable pub create_shipment : (order_id status : String) → Act W ShipmentRecord
  create_shipment order_id status = do
    row ← client.create_shipment order_id status
    pure (map_shipment row)

  unfoldable pub update_status : (shipment_id status : String) → Act W ShipmentRecord
  update_status shipment_id status = do
    row ← client.update_shipment shipment_id status
    pure (map_shipment row)

  -- TrackingEventsRepository.create
  unfoldable pub create_event :
      (shipment_id status : String) (occurred_at : ℕ) (location : Option ShipmentLocation)
      → Act W TrackingEventRecord
  create_event shipment_id status occurred_at location = do
    event ← client.create_event (new_event shipment_id status occurred_at location)
    pure (record {
      id = event.id;
      shipment_id = event.shipment_id;
      status = event.status;
      occurred_at = event.occurred_at;
      location = location;
    })

  unfoldable pub get_shipment_by_id : String → Act W ShipmentRecord
  get_shipment_by_id id = do shipment ← find_by_id id; lift (or_not_found (not_found id) shipment)

  unfoldable pub get_shipment_by_order_id : String → Act W ShipmentRecord
  get_shipment_by_order_id order_id = do
    shipment ← find_by_order_id order_id
    lift (
        or_not_found
          (not_found_exception
            (String.◌++◌ "Shipment for order '" (String.◌++◌ order_id "' not found")))
          shipment)

  -- the operation of `createPendingShipment`
  abbrev create_unless : CreatePendingShipmentInput → Option ShipmentRecord → Act W ShipmentRecord
  create_unless input (some existing) = pure existing
  create_unless input none = do
    shipment ← create_shipment input.order_id "PENDING"
    create_event shipment.id "PENDING" input.occurred_at none
    again ← find_by_id shipment.id
    pure (or_else again shipment)

  unfoldable pub create_pending_operation : CreatePendingShipmentInput → Act W ShipmentRecord
  create_pending_operation input = do
    existing ← find_by_order_id input.order_id
    create_unless input existing

  unfoldable pub create_pending_shipment :
      Transaction W → (active : Bool) → CreatePendingShipmentInput → Act W ShipmentRecord
  create_pending_shipment transaction active input =
      with_transaction transaction active ShipmentRecord (create_pending_operation input)

  -- What the operation of `updateShipmentStatus` does where the status changes. With the record it
  -- returns `shouldWakeRelay`.
  unfoldable pub change_status :
      Runtime → Inputs → UpdateShipmentStatusInput → ShipmentRecord → Act W (ShipmentRecord × Bool)
  change_status rt inputs input current = do
    let occurred_at = or_else input.occurred_at inputs.now
    updated ← update_status input.shipment_id input.status
    create_event updated.id input.status occurred_at input.location
    previous ← lift (parse_status current.status)
    next ← lift (parse_status input.status)
    client.create_outbox (
        changed_row rt inputs (record {
          shipment_id = updated.id;
          order_id = updated.order_id;
          previous_status = some previous;
          current_status = next;
          changed_at = rt.to_iso_string occurred_at;
          location = Option.map event_location input.location;
        }))
    again ← find_by_id updated.id
    pure (or_else again updated, true)

  unfoldable pub update_operation :
      Runtime → Inputs → UpdateShipmentStatusInput → Act W (ShipmentRecord × Bool)
  update_operation rt inputs input = do
    found ← find_by_id input.shipment_id
    current ← lift (or_not_found (not_found input.shipment_id) found)
    if current.status == input.status
        then pure (current, false)
        else change_status rt inputs input current

  abbrev wake_if : ShipmentRecord × Bool → Act (W × Control) ShipmentRecord
  wake_if (shipment, true) (w, c) = (ok shipment, (w, Control.wake c))
  wake_if (shipment, false) (w, c) = (ok shipment, (w, c))

  abbrev on_database : {A : Type 0} → Act W A → Act (W × Control) A
  on_database m (w, c) = let (result, w') = m w in (result, (w', c))

  unfoldable pub update_shipment_status :
      Transaction W
      → (active : Bool) → Runtime
      → Inputs
      → UpdateShipmentStatusInput
      → Act (W × Control) ShipmentRecord
  update_shipment_status transaction active rt inputs input = do
    result ← on_database (
        with_transaction transaction active (ShipmentRecord × Bool)
          (update_operation rt inputs input))
    wake_if result
