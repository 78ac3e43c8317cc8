-- ===== src/Tracking/OrderCreatedConsumer.antt =====
-- apps/tracking-service/src/consumers/tracking-order-created.consumer.ts, and what a delivery of an
-- order.created event leaves in the database, with the store and the base class of the consumer.
use logistics_platform.Prelude.{
  String, ◌≡◌, ap, subst, ◌∙◌, inl, inr, true, Option, none, some, List, [], ◌∷◌, ◌++◌,
}
use logistics_platform.Json.{Json}
use logistics_platform.Result.{Result, ok, err}
use logistics_platform.Act.{Act, pure, ◌>>◌, continue-eq-ok, pure-eq-ok}
use logistics_platform.Runtime.{Runtime}
use logistics_platform.Contracts.Envelope.{Envelope}
use logistics_platform.Contracts.OrderCreated.{OrderCreatedPayload, order_created_event_schema}
use logistics_platform.Observability.Correlation.{CorrelationContext}
use logistics_platform.Messaging.Transaction.{Transaction}
use logistics_platform.Messaging.Consumer.{
  stays_open, ProcessResult, processed, duplicate, failed, MarkProcessed, ConsumerOptions,
  Settlement, ack, nack, on_message,
}
use logistics_platform.Messaging.Consumer.Settlements.{
  event_of, settlement, Settled, on_message-Settled,
}
use logistics_platform.Messaging.ProcessedStore.{Seen, Marked, IsProcessedStore}
use logistics_platform.Tracking.Client.{TrackingClient, View, IsTrackingClient}
use logistics_platform.Tracking.Service.{
  CreatePendingShipmentInput, create_pending_operation, create_pending_shipment, with_transaction,
}
use logistics_platform.Tracking.Service.Creation.{operation-Ended}

abbrev pub options : ConsumerOptions
options = record {
  consumer_name = "tracking-order-created";
  queue = "tracking.order.created";
  retry_on_error = none;
}

-- the argument of `createPendingShipment`
abbrev pub shipment_of : Runtime → Envelope OrderCreatedPayload → CreatePendingShipmentInput
shipment_of rt event = record {
  order_id = event.payload.order_id;
  occurred_at = rt.date_of event.payload.placed_at;
}

module _ {W : Type 0} (transaction : Transaction W) (client : TrackingClient W) (rt : Runtime) where
  -- `handleEvent`, which runs in the transaction of `markProcessed`
  unfoldable pub handle_event : CorrelationContext → Envelope OrderCreatedPayload → Act W (Unit {0})
  handle_event context event =
      create_pending_shipment client transaction true (shipment_of rt event) >> pure tt

  -- A message from the queue, for a store of processed messages.
  abbrev pub on_delivery :
      MarkProcessed W
      → Option Json
      → W
      → List Settlement
      → Result (Unit {0}) × (W × List Settlement)
  on_delivery mark_processed content w log =
      on_message stays_open mark_processed options rt (order_created_event_schema rt) handle_event
        (some content) (w, log)

  module _ (view : View W) (laws : IsTrackingClient client view) where
    handled-of_order :
        (context : CorrelationContext) (event : Envelope OrderCreatedPayload) (w w' : W)
        (u : Unit {0})
        → handle_event context event w ≡ (ok u, w')
        → (id : String) × (view.of_order w' event.payload.order_id ≡ some id)
    unfolding handle_event create_pending_shipment with_transaction
    handled-of_order context event w w' u h =
        let input = shipment_of rt event in
        let (s, w1, ran, rest) = continue-eq-ok (create_pending_operation client input w) _ h in
        let (_, state) = pure-eq-ok rest in
        elim (operation-Ended client view laws input w w1 s ran) [
          | inl (there, same) ↦ (
            s.id,
            subst (λ v. view.of_order v event.payload.order_id ≡ some s.id) state
                (same.of_order event.payload.order_id ∙ there),
          )
          | inr started ↦ (
            s.id,
            subst (λ v. view.of_order v event.payload.order_id ≡ some s.id) state started.of_order,
          )
        ]

    -- What a delivery of an event has done.
    pub data Shipped (order : String) (w : W) (log : List Settlement)
        (result : Result (Unit {0}) × (W × List Settlement)) : Type 0 where
      shipped :
          (w' : W) (id : String)
          → result ≡ (ok tt, (w', log ++ ack ∷ []))
          → view.of_order w' order ≡ some id
          → Shipped order w log result
      duplicated : result ≡ (ok tt, (w, log ++ ack ∷ [])) → Shipped order w log result
      returned : result ≡ (ok tt, (w, log ++ nack true ∷ [])) → Shipped order w log result

    module _ (mark_processed : MarkProcessed W) (seen : Seen W)
        (store : IsProcessedStore mark_processed seen) where
      settled-Shipped :
          (context : CorrelationContext) (event : Envelope OrderCreatedPayload) (id : String)
          (w : W) (log : List Settlement) (result : Result (Unit {0}) × (W × List Settlement))
          (m : Result ProcessResult × W)
          → Marked seen options.consumer_name id (handle_event context event) w m
          → result ≡ (
            ok tt,
            (
              m.1,
              log
                  ++ settlement stays_open mark_processed options rt
                      (order_created_event_schema rt)
                      handle_event
                      m.0
                    ∷ [],
            ),
          )
          → Shipped event.payload.order_id w log result
      settled-Shipped context event id w log result (ok processed, w') ran h =
          let (shipment, there) = handled-of_order context event ran.at w' tt ran.returned in
          Shipped.shipped w' shipment h there
      settled-Shipped context event id w log result (ok duplicate, w') same h =
          Shipped.duplicated (h ∙ ap (λ v. (ok tt, (v, log ++ ack ∷ []))) same)
      settled-Shipped context event id w log result (ok (failed e), w') same h =
          Shipped.returned (h ∙ ap (λ v. (ok tt, (v, log ++ nack true ∷ []))) same)
      settled-Shipped context event id w log result (err e, w') never h = absurd never

      -- For a client that behaves as documented and a store that keeps the promise of its
      -- interface, a delivery of a valid order.created event to the tracking service, on a channel
      -- that stays open, is either acknowledged with a shipment of the event's order in the
      -- database, or acknowledged as a duplicate or requeued, with the database as it was.
      pub on_delivery-Shipped :
          (content : Option Json) (envelope : Envelope (Option Json))
          (event : Envelope OrderCreatedPayload) (w : W) (log : List Settlement)
          → event_of stays_open mark_processed options rt
              (order_created_event_schema rt)
              handle_event
              content
            ≡ some (envelope, event)
          → Shipped event.payload.order_id w log (on_delivery mark_processed content w log)
      on_delivery-Shipped content envelope event w log is_event =
          settled-Shipped
            (record {
              correlation_id = envelope.correlation_id;
              causation_id = envelope.causation_id;
            })
            event envelope.event_id w log _ _
            (store options.consumer_name envelope.event_id envelope.event_type
              (handle_event
                (record {
                  correlation_id = envelope.correlation_id;
                  causation_id = envelope.causation_id;
                })
                event)
              w)
            (subst
              (λ o.
                Settled stays_open mark_processed options rt (order_created_event_schema rt)
                  handle_event o w log (on_delivery mark_processed content w log))
              is_event
              (on_message-Settled stays_open mark_processed options rt
                (order_created_event_schema rt) handle_event content w log))
