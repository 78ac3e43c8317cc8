-- ===== src/Notifications/Deliveries.antt =====
-- What a delivery leaves in the notification service's database: the two consumers of
-- apps/notification-service/src/consumers, with their base class, their store and the dispatch.
use logistics_platform.Prelude.{
  ℕ, String, ◌≡◌, refl, ap, subst, ◌∙◌, true, or_else, Option, some, List, [], ◌∷◌, ◌++◌,
}
use logistics_platform.Json.{Json}
use logistics_platform.Result.{Result, ok, err}
use logistics_platform.Act.{Act, pure, ◌>>◌, continue-eq-ok, pure-eq-ok}
use logistics_platform.Runtime.{Runtime}
use logistics_platform.Contracts.Envelope.{Envelope}
use logistics_platform.Contracts.OrderCreated.{OrderCreatedPayload, order_created_event_schema}
use logistics_platform.Contracts.ShipmentStatusChanged.{
  ShipmentStatusChangedPayload, shipment_status_changed_event_schema,
}
use logistics_platform.Observability.Correlation.{CorrelationContext}
use logistics_platform.Messaging.Consumer.{
  stays_open, ProcessResult, processed, duplicate, failed, MarkProcessed, ConsumerOptions,
  Settlement, ack, nack, context_of, on_message,
}
use logistics_platform.Messaging.Consumer.Settlements.{
  event_of, settlement, Settled, on_message-Settled,
}
use logistics_platform.Messaging.ProcessedStore.{Seen, Marked, IsProcessedStore}
use logistics_platform.Notifications.Providers.{
  NotificationChannel, NotificationDeliveryRecord, NotificationProvider,
}
use logistics_platform.Notifications.Dispatch.{DispatchNotificationInput, DeliverySql, dispatch}
use logistics_platform.Notifications.Dispatch.Outcomes.{
  Deliveries, IsDeliverySql, Dispatched, dispatch-Dispatched,
}
use logistics_platform.Notifications.Consumers.{
  order_created_options, order_created_input, handle_order_created, shipment_status_changed_options,
  shipment_status_changed_input, handle_shipment_status_changed,
}

module _ {W : Type 0} (sql : DeliverySql W) (row : Deliveries W) (laws : IsDeliverySql sql row)
    (resolve : NotificationChannel → NotificationProvider W)
    (keeps : (c : NotificationChannel) (d : NotificationDeliveryRecord) (w : W) (id : String)
      → row ((resolve c).send d w).1 id ≡ row w id)
    (now : ℕ) where
  -- The notification of an input was sent, and its row says so.
  pub record Sent (input : DispatchNotificationInput) (w : W) : Type 0 where
    pub d : NotificationDeliveryRecord
    pub stored : row w d.id ≡ some d
    pub is_sent : d.status ≡ "SENT"
    pub at : d.sent_at ≡ some now
    pub event_id : d.event_id ≡ input.event_id
    pub recipient : d.recipient ≡ input.recipient
    pub content : d.content ≡ input.content

  Dispatched-Sent :
      (input : DispatchNotificationInput) (w : W) (result : Result NotificationDeliveryRecord)
      (w' : W) (x : NotificationDeliveryRecord)
      → result ≡ ok x
      → Dispatched sql row laws resolve keeps now input w result w'
      → Sent input w'
  Dispatched-Sent input w result w' x is_ok (Dispatched.unrecorded e threw same) = cc
  Dispatched-Sent input w result w' x is_ok (Dispatched.delivered d w1 r sent is after) = record {
    d = record d { status = "SENT"; sent_at = some now };
    stored = after;
    is_sent = refl;
    at = refl;
    event_id = r.event_id;
    recipient = r.recipient;
    content = r.content;
  }
  Dispatched-Sent input w result w' x is_ok
        (Dispatched.unsettled d w1 e r update_threw threw left) =
      cc
  Dispatched-Sent input w result w' x is_ok (Dispatched.refused d w1 e r sent threw left) = cc

  abbrev dispatched : DispatchNotificationInput → Act W NotificationDeliveryRecord
  dispatched = dispatch sql resolve now

  -- The handler of a consumer, by the message that it makes of an event.
  abbrev handling : {P : Type 0} → (P → DispatchNotificationInput) → P → Act W (Unit {0})
  handling input_of event = dispatched (input_of event) >> pure tt

  handled-Sent :
      {P : Type 0} (input_of : P → DispatchNotificationInput) (event : P) (w w' : W)
      → handling input_of event w ≡ (ok tt, w')
      → Sent (input_of event) w'
  handled-Sent input_of event w w' h =
      let (d, w1, ran, rest) = continue-eq-ok (dispatched (input_of event) w) _ h in
      let (_, state) = pure-eq-ok rest in
      let after = ap (λ (x : Result NotificationDeliveryRecord × W). x.1) ran ∙ state in
      subst (Sent (input_of event)) after (
        Dispatched-Sent (input_of event) w _ _ d
          (ap (λ (x : Result NotificationDeliveryRecord × W). x.0) ran)
          (dispatch-Dispatched sql row laws resolve keeps now (input_of event) w))

  -- What a delivery has done.
  pub data Notified (input : DispatchNotificationInput) (w : W) (log : List Settlement)
      (result : Result (Unit {0}) × (W × List Settlement)) : Type 0 where
    notified :
        (w' : W)
        → result ≡ (ok tt, (w', log ++ ack ∷ []))
        → Sent input w'
        → Notified input w log result
    duplicated : result ≡ (ok tt, (w, log ++ ack ∷ [])) → Notified input w log result
    returned : result ≡ (ok tt, (w, log ++ nack true ∷ [])) → Notified input w log result

  module _ (mark_processed : MarkProcessed W) (seen : Seen W)
      (store : IsProcessedStore mark_processed seen) (rt : Runtime) where
    -- A delivery to a consumer that requeues what failed.
    module _ {P : Type 0} (options : ConsumerOptions) (retries : options.retry_on_error ≡ some true)
        (schema : Json → Option (Envelope P))
        (input_of : Envelope P → DispatchNotificationInput) where
      abbrev handle : CorrelationContext → Envelope P → Act W (Unit {0})
      handle context event = handling input_of event

      abbrev delivery :
          Option Json → W → List Settlement → Result (Unit {0}) × (W × List Settlement)
      delivery content w log =
          on_message stays_open mark_processed options rt schema handle (some content) (w, log)

      settled-Notified :
          (context : CorrelationContext) (event : Envelope P) (id : String) (w : W)
          (log : List Settlement) (result : Result (Unit {0}) × (W × List Settlement))
          (m : Result ProcessResult × W)
          → Marked seen options.consumer_name id (handle context event) w m
          → result ≡ (
            ok tt,
            (m.1, log ++ settlement stays_open mark_processed options rt schema handle m.0 ∷ []),
          )
          → Notified (input_of event) w log result
      settled-Notified context event id w log result (ok processed, w') ran h =
          Notified.notified w' h (handled-Sent input_of event ran.at w' ran.returned)
      settled-Notified context event id w log result (ok duplicate, w') same h =
          Notified.duplicated (h ∙ ap (λ v. (ok tt, (v, log ++ ack ∷ []))) same)
      settled-Notified context event id w log result (ok (failed e), w') same h =
          Notified.returned (
            h
            ∙ (ap (λ r. (ok tt, (w', log ++ nack (or_else r true) ∷ []))) retries
                ∙ ap (λ v. (ok tt, (v, log ++ nack true ∷ []))) same))
      settled-Notified context event id w log result (err e, w') never h = absurd never

      delivery-Notified :
          (content : Option Json) (envelope : Envelope (Option Json)) (event : Envelope P) (w : W)
          (log : List Settlement)
          → event_of stays_open mark_processed options rt schema handle content
            ≡ some (envelope, event)
          → Notified (input_of event) w log (delivery content w log)
      delivery-Notified content envelope event w log is_event =
          settled-Notified (context_of envelope) event envelope.event_id w log _ _
            (store options.consumer_name envelope.event_id envelope.event_type
              (handle (context_of envelope) event) w)
            (subst
              (λ o.
                Settled stays_open mark_processed options rt schema handle o w log
                  (delivery content w log))
              is_event
              (on_message-Settled stays_open mark_processed options rt schema handle content w log))

    abbrev handle_created : CorrelationContext → Envelope OrderCreatedPayload → Act W (Unit {0})
    handle_created = handle_order_created sql resolve now rt

    abbrev pub on_delivery :
        Option Json → W → List Settlement → Result (Unit {0}) × (W × List Settlement)
    on_delivery content w log =
        on_message stays_open mark_processed order_created_options rt
          (order_created_event_schema rt) handle_created (some content) (w, log)

    -- For SQL statements that behave as documented, providers that leave the table of deliveries
    -- alone and a store that keeps the promise of its interface, a delivery of a valid
    -- order.created event to the notification service, on a channel that stays open, is either
    -- acknowledged with a stored delivery of its notification that is SENT, or acknowledged as a
    -- duplicate or requeued, with the database as it was, so that no FAILED row is kept.
    pub on_delivery-Notified :
        (content : Option Json) (envelope : Envelope (Option Json))
        (event : Envelope OrderCreatedPayload) (w : W) (log : List Settlement)
        → event_of stays_open mark_processed order_created_options rt
            (order_created_event_schema rt)
            handle_created
            content
          ≡ some (envelope, event)
        → Notified (order_created_input rt event) w log (on_delivery content w log)
    unfolding handle_order_created
    on_delivery-Notified content envelope event w log is_event =
        delivery-Notified order_created_options refl (order_created_event_schema rt)
          (order_created_input rt) content envelope event w log is_event

    abbrev handle_changed :
        CorrelationContext → Envelope ShipmentStatusChangedPayload → Act W (Unit {0})
    handle_changed = handle_shipment_status_changed sql resolve now

    abbrev pub on_change :
        Option Json → W → List Settlement → Result (Unit {0}) × (W × List Settlement)
    on_change content w log =
        on_message stays_open mark_processed shipment_status_changed_options rt
          (shipment_status_changed_event_schema rt) handle_changed (some content) (w, log)

    -- The same holds for a delivery of shipment.status_changed.
    pub on_change-Notified :
        (content : Option Json) (envelope : Envelope (Option Json))
        (event : Envelope ShipmentStatusChangedPayload) (w : W) (log : List Settlement)
        → event_of stays_open mark_processed shipment_status_changed_options rt
            (shipment_status_changed_event_schema rt)
            handle_changed
            content
          ≡ some (envelope, event)
        → Notified (shipment_status_changed_input event) w log (on_change content w log)
    unfolding handle_shipment_status_changed
    on_change-Notified content envelope event w log is_event =
        delivery-Notified shipment_status_changed_options refl
          (shipment_status_changed_event_schema rt) shipment_status_changed_input content envelope
          event w log is_event
