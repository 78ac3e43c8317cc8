-- ===== src/Flow/ShipmentMoved.antt =====
-- From a change of a shipment's status to the notification of it.
use logistics_platform.Prelude.{
  ℕ, String, ◌≡◌, refl, sym, subst, ◌⊎◌, inl, inr, Bool, true, false, ◌&&◌, Option, some, none,
  List, [], ◌∷◌, ◌++◌, arith, or_else,
}
use mathlib.Core.Option
use logistics_platform.Text.{text_length}
use logistics_platform.Number.{nat}
use logistics_platform.Json.{Json, at_least_one}
use logistics_platform.Result.{Result, ok}
use logistics_platform.Act.{Act}
use logistics_platform.Runtime.{Runtime}
use logistics_platform.Contracts.Envelope.{Envelope, shipment_status_changed}
use logistics_platform.Contracts.Acceptance.{envelope_ok, location_ok, shipment_status_changed_read}
use logistics_platform.Contracts.ShipmentStatusChanged.{
  ShipmentStatus, status_text, ShipmentStatusChangedPayload, shipment_status_changed_payload_schema,
  shipment_status_changed_payload_json, shipment_status_changed_event_schema,
  shipment_status_changed_json,
}
use logistics_platform.Observability.Correlation.{CorrelationContext}
use logistics_platform.Messaging.Consumer.{stays_open, MarkProcessed, Settlement, nack}
use logistics_platform.Messaging.Consumer.Settlements.{event_of, Settled, on_message-Settled}
use logistics_platform.Messaging.EnvelopeBuilder.{build_event_envelope}
use logistics_platform.Messaging.EnvelopeBuilder.Sound.{SoundContext, sound_ids}
use logistics_platform.Messaging.OutboxTable.{NewRow}
use logistics_platform.Messaging.ProcessedStore.{Seen, IsProcessedStore}
use logistics_platform.Messaging.Relay.Control.{Control}
use logistics_platform.Messaging.Transaction.{Transaction, IsTransaction}
use logistics_platform.Tracking.Shipment.{ShipmentRecord}
use logistics_platform.Tracking.Client.{TrackingClient, View, Same, IsTrackingClient}
use logistics_platform.Tracking.Service.{
  UpdateShipmentStatusInput, Inputs, event_location, changed_row, update_shipment_status,
}
use logistics_platform.Tracking.Service.Updates
use logistics_platform.Tracking.Service.Updates.{message_of, Changed, update_shipment_status-Ended}
use logistics_platform.Notifications.Providers.{
  NotificationChannel, NotificationDeliveryRecord, NotificationProvider,
}
use logistics_platform.Notifications.Dispatch.{DeliverySql}
use logistics_platform.Notifications.Dispatch.Outcomes.{Deliveries, IsDeliverySql}
use logistics_platform.Notifications.Consumers.{
  shipment_status_changed_options, shipment_status_changed_input, handle_shipment_status_changed,
}
use logistics_platform.Notifications.Deliveries
use logistics_platform.Notifications.Deliveries.{Notified, on_change-Notified}
use logistics_platform.Flow.Announced.{unread, accepted-event_of, refused-event_of}

-- The ids of the run are UUIDs, and its time is printed in the format that the schema reads.
pub record SoundRun (rt : Runtime) (inputs : Inputs) : Type 0 where
  pub event_uuid : rt.uuid_format inputs.event_uuid ≡ true
  pub correlation_uuid : rt.uuid_format inputs.correlation_uuid ≡ true
  pub context : SoundContext rt inputs.context
  pub time : rt.datetime_format (rt.to_iso_string inputs.now) ≡ true

-- The schema takes the location that was given, and the time of the change as it is printed.
abbrev pub is_readable : Runtime → Inputs → UpdateShipmentStatusInput → Bool
is_readable rt inputs input =
    location_ok (Option.map event_location input.location)
    && rt.datetime_format (rt.to_iso_string (or_else input.occurred_at inputs.now))

-- The envelope of a change.
abbrev pub event_of_change :
    Runtime
    → Inputs
    → UpdateShipmentStatusInput
    → (order : String) → (previous next : ShipmentStatus) → Envelope ShipmentStatusChangedPayload
event_of_change rt inputs input order previous next =
    build_event_envelope rt inputs.context inputs.event_uuid inputs.correlation_uuid inputs.now
      (record {
        event_type = shipment_status_changed;
        event_version = nat 1;
        producer = "tracking-service";
        payload = record {
          shipment_id = input.shipment_id;
          order_id = order;
          previous_status = some previous;
          current_status = next;
          changed_at = rt.to_iso_string (or_else input.occurred_at inputs.now);
          location = Option.map event_location input.location;
        };
        correlation_id = none;
        causation_id = none;
        event_id = none;
        occurred_at = none;
      })

module _ (rt : Runtime) (inputs : Inputs) (sound : SoundRun rt inputs)
    (input : UpdateShipmentStatusInput) (order : String) (previous next : ShipmentStatus) where
  abbrev change : Envelope ShipmentStatusChangedPayload
  change = event_of_change rt inputs input order previous next

  change-envelope_ok : envelope_ok rt change ≡ true
  unfolding build_event_envelope text_length
  change-envelope_ok =
      let (correlation, cause) =
        sound_ids rt inputs.context inputs.correlation_uuid sound.correlation_uuid sound.context in
      ground (arith, sound.event_uuid, sound.time, correlation, cause)

  change-accepted :
      rt.uuid_format input.shipment_id ≡ true
      → rt.uuid_format order ≡ true
      → is_readable rt inputs input ≡ true
      → shipment_status_changed_event_schema rt (shipment_status_changed_json change) ≡ some change
  unfolding build_event_envelope
  change-accepted is_uuid is_uuid' there =
      rw shipment_status_changed_read
        (rw change-envelope_ok (ground (arith, is_uuid, is_uuid', there)))

  change-refused :
      is_readable rt inputs input ≡ false
      → shipment_status_changed_event_schema rt (shipment_status_changed_json change) ≡ none
  unfolding build_event_envelope
  change-refused out = rw shipment_status_changed_read (rw change-envelope_ok (ground (arith, out)))

module _ {T N : Type 0} (rt : Runtime) (transaction : Transaction T)
    (atomic : IsTransaction transaction) (shipments : TrackingClient T) (view : View T)
    (laws : IsTrackingClient shipments view)
    -- the notification service
    (sql : DeliverySql N) (row_of : Deliveries N) (sql_laws : IsDeliverySql sql row_of)
    (resolve : NotificationChannel → NotificationProvider N)
    (keeps : (c : NotificationChannel) (d : NotificationDeliveryRecord) (w : N) (id : String)
      → row_of ((resolve c).send d w).1 id ≡ row_of w id)
    (now : ℕ) (mark_notified : MarkProcessed N) (notified_seen : Seen N)
    (notified_store : IsProcessedStore mark_notified notified_seen) where
  abbrev to_notification :
      Option Json → N → List Settlement → Result (Unit {0}) × (N × List Settlement)
  to_notification =
      Deliveries.on_change sql row_of sql_laws resolve keeps now mark_notified notified_seen
        notified_store rt

  -- What follows from a change of status: its message is queued, and a delivery of it notifies of the
  -- new status, unless its location or its time is not in the schema's format, for which it goes to the dead-letter queue.
  pub record Reaches (inputs : Inputs) (input : UpdateShipmentStatusInput) (before after : T)
      : Type 0 where
    pub message : NewRow
    pub queued : view.outbox after ≡ view.outbox before ++ message ∷ []
    pub event : Envelope ShipmentStatusChangedPayload
    pub of_shipment : event.payload.shipment_id ≡ input.shipment_id
    pub of_status : status_text event.payload.current_status ≡ input.status
    pub of_event : (shipment_status_changed_input event).event_id ≡ event.event_id
    pub notifies :
        is_readable rt inputs input ≡ true
        → (w : N) (log : List Settlement)
        → Notified sql row_of sql_laws resolve keeps now
            (shipment_status_changed_input event)
            w
            log
            (to_notification (some message.payload) w log)
    pub refused :
        is_readable rt inputs input ≡ false
        → (w : N) (log : List Settlement)
        → to_notification (some message.payload) w log ≡ (ok tt, (w, log ++ nack false ∷ []))

  abbrev to_schema : Json → Option (Envelope ShipmentStatusChangedPayload)
  to_schema = shipment_status_changed_event_schema rt

  abbrev handler : CorrelationContext → Envelope ShipmentStatusChangedPayload → Act N (Unit {0})
  handler = handle_shipment_status_changed sql resolve now

  to_event : Json → Option (Envelope (Option Json) × Envelope ShipmentStatusChangedPayload)
  to_event payload =
      event_of stays_open mark_notified shipment_status_changed_options rt to_schema handler
        (some payload)

  change-to_event :
      (e : Envelope ShipmentStatusChangedPayload)
      → to_schema (shipment_status_changed_json e) ≡ some e
      → to_event (shipment_status_changed_json e)
        ≡ some (
          unread rt shipment_status_changed
              (shipment_status_changed_payload_schema rt)
              shipment_status_changed_payload_json
              e,
          e,
        )
  unfolding to_event shipment_status_changed_event_schema shipment_status_changed_json text_length
  change-to_event e accepted =
      accepted-event_of rt shipment_status_changed (shipment_status_changed_payload_schema rt)
        shipment_status_changed_payload_json mark_notified shipment_status_changed_options handler e
        refl accepted

  refused-to_event :
      (e : Envelope ShipmentStatusChangedPayload)
      → at_least_one e.event_type ≡ true
      → envelope_ok rt e ≡ true
      → to_schema (shipment_status_changed_json e) ≡ none
      → to_event (shipment_status_changed_json e) ≡ none
  unfolding to_event shipment_status_changed_event_schema shipment_status_changed_json
  refused-to_event e given sound refused =
      refused-event_of rt shipment_status_changed (shipment_status_changed_payload_schema rt)
        shipment_status_changed_payload_json mark_notified shipment_status_changed_options handler e
        given sound refused

  Changed-Reaches :
      (inputs : Inputs)
      → SoundRun rt inputs
      → (input : UpdateShipmentStatusInput) → rt.uuid_format input.shipment_id ≡ true
      → (w w' : T)
      → ((order : String)
          → view.of_order w order ≡ some input.shipment_id
          → rt.uuid_format order ≡ true)
      → Changed shipments view laws rt inputs input w w'
      → Reaches inputs input w w'
  unfolding changed_row build_event_envelope to_event text_length shipment_status_changed_input
  Changed-Reaches inputs sound input is_uuid w w' orders c =
      let e = event_of_change rt inputs input c.order c.previous c.next in
      record {
        message = message_of rt inputs input input.shipment_id c.order c.previous c.next;
        queued = c.one_message;
        event = e;
        of_shipment = refl;
        of_status = sym c.asked;
        of_event = refl;
        notifies = λ there n log.
            on_change-Notified sql row_of sql_laws resolve keeps now mark_notified notified_seen
              notified_store rt (some (shipment_status_changed_json e)) _ e n log
              (change-to_event e (
                change-accepted rt inputs sound input c.order c.previous c.next is_uuid
                  (orders c.order c.of_order) there));
        refused = λ out n log.
            subst
              (λ o.
                Settled stays_open mark_notified shipment_status_changed_options rt to_schema
                  handler o n log (to_notification (some (shipment_status_changed_json e)) n log))
              (refused-to_event e refl
                (change-envelope_ok rt inputs sound input c.order c.previous c.next)
                (change-refused rt inputs sound input c.order c.previous c.next out))
              (on_message-Settled stays_open mark_notified shipment_status_changed_options rt
                to_schema handler (some (shipment_status_changed_json e)) n log);
      }

  -- For clients, stores, senders and transactions that behave as documented, ids of the run that
  -- are UUIDs, a time of the run that is printed in the format that the schema reads, and a
  -- shipment whose id and whose order's id are UUIDs: where update_shipment_status returns, either
  -- the shipment had the status already and the tables are unchanged, or one message is appended to
  -- the outbox whose event names the shipment and the status asked for. A delivery of that message
  -- to the notification service, on a channel that stays open, then leaves a notification of the
  -- event marked as SENT, or acknowledges a duplicate or requeues with the database unchanged, if
  -- the location is in range and the time of the change is printed in the schema's format;
  -- otherwise the message is rejected without being requeued and no one is notified.
  pub update_shipment_status-Reaches :
      (inputs : Inputs)
      → SoundRun rt inputs
      → (input : UpdateShipmentStatusInput) → rt.uuid_format input.shipment_id ≡ true
      → (w w' : T)
      → ((order : String)
          → view.of_order w order ≡ some input.shipment_id
          → rt.uuid_format order ≡ true)
      → (c c' : Control) (s : ShipmentRecord)
      → update_shipment_status shipments transaction false rt inputs input (w, c) ≡ (ok s, (w', c'))
      → (Same view w w' × (view.status w input.shipment_id ≡ some input.status))
        ⊎ Reaches inputs input w w'
  update_shipment_status-Reaches inputs sound input is_uuid w w' orders c c' s ran =
      elim (subst (Updates.Ended shipments view laws rt inputs input (w, c)) ran
        (update_shipment_status-Ended shipments view laws transaction atomic rt inputs input w c)) [
          | inl (same, already, relay) ↦ inl (same, already)
          | inr (changed, woken) ↦
              inr (Changed-Reaches inputs sound input is_uuid w w' orders changed)
        ]
