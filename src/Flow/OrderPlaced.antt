-- ===== src/Flow/OrderPlaced.antt =====
-- From the creation of an order to its shipment and its notification.
use logistics_platform.Prelude.{
  ℕ, String, ◌≡◌, refl, sym, ap, ◌∙◌, subst, true, Option, some, none, List, [], ◌∷◌, ◌++◌, or_else,
}
use logistics_platform.Text.{text_length}
use logistics_platform.Json.{Json}
use logistics_platform.Result.{Result, ok}
use logistics_platform.Act.{Act}
use logistics_platform.Runtime.{Runtime}
use logistics_platform.Contracts.Envelope.{Envelope, order_created}
use logistics_platform.Contracts.OrderCreated.{
  OrderCreatedPayload, order_created_payload_schema, order_created_payload_json,
  order_created_event_schema, order_created_json,
}
use logistics_platform.Observability.Correlation.{CorrelationContext}
use logistics_platform.Messaging.Consumer.{stays_open, MarkProcessed, ConsumerOptions, Settlement}
use logistics_platform.Messaging.Consumer.Settlements.{event_of}
use logistics_platform.Messaging.EnvelopeBuilder.{build_event_envelope}
use logistics_platform.Messaging.Outbox.{OutboxStore}
use logistics_platform.Messaging.OutboxTable.{NewRow, OutboxRow}
use logistics_platform.Messaging.ProcessedStore.{Seen, IsProcessedStore}
use logistics_platform.Messaging.RabbitMqClient.{
  RabbitMqClientOptions, PublishOptions, ChannelPublish, publish_options, publish,
}
use logistics_platform.Messaging.Relay.{OutboxRelayOptions, publish_record}
use logistics_platform.Messaging.Relay.Control.{Control}
use logistics_platform.Messaging.Transaction.{Transaction}
use logistics_platform.Orders.Order.{Order}
use logistics_platform.Orders.Publisher.{PendingOutboxMessage, build_order_created_message}
use logistics_platform.Orders.PrismaOutboxStore.{to_record}
use logistics_platform.Orders.Repository.{OrderClient, IsOrderClient, StoredOrder, outbox_row}
use logistics_platform.Orders.Commands.{CreateOrderCommand, Inputs}
use logistics_platform.Orders.Handlers.{create_order}
use logistics_platform.Orders.Handlers.Create
use logistics_platform.Orders.Handlers.Create.{Prepared, Created, create_order-Ended}
use logistics_platform.Tracking.Client.{TrackingClient, View, IsTrackingClient}
use logistics_platform.Tracking.OrderCreatedConsumer
use logistics_platform.Tracking.OrderCreatedConsumer.{Shipped, on_delivery-Shipped}
use logistics_platform.Notifications.Providers.{
  NotificationChannel, NotificationDeliveryRecord, NotificationProvider,
}
use logistics_platform.Notifications.Dispatch.{DeliverySql}
use logistics_platform.Notifications.Dispatch.Outcomes.{Deliveries, IsDeliverySql}
use logistics_platform.Notifications.Consumers.{
  order_created_options, order_created_input, handle_order_created,
}
use logistics_platform.Notifications.Deliveries
use logistics_platform.Notifications.Deliveries.{Notified, on_delivery-Notified}
use logistics_platform.Flow.Announced.{unread, accepted-event_of}

-- The message names the order.
announced_id :
    (rt : Runtime) (inputs : Inputs) (command : CreateOrderCommand) (order : Order)
    (message : PendingOutboxMessage)
    → Prepared rt inputs command order message
    → message.payload.payload.order_id ≡ order.id
unfolding build_order_created_message build_event_envelope
announced_id rt inputs command order message p = cc (p.built, p.announced, p.sound.events, p.pulled)

-- The event of an accepted message, for any consumer of order.created.
message-event_of :
    {W : Type 0} (rt : Runtime) (mark_processed : MarkProcessed W) (options : ConsumerOptions)
    (handle : CorrelationContext → Envelope OrderCreatedPayload → Act W (Unit {0}))
    (e : Envelope OrderCreatedPayload)
    → order_created_event_schema rt (order_created_json e) ≡ some e
    → event_of stays_open mark_processed options rt
        (order_created_event_schema rt)
        handle
        (some (order_created_json e))
      ≡ some (
        unread rt order_created (order_created_payload_schema rt) order_created_payload_json e,
        e,
      )
unfolding order_created_event_schema order_created_json text_length
message-event_of rt mark_processed options handle e accepted =
    accepted-event_of rt order_created (order_created_payload_schema rt) order_created_payload_json
      mark_processed options handle e refl accepted

-- The options of the message of an outbox row, as the relay publishes it.
abbrev pub sent_options : RabbitMqClientOptions → OutboxRow → PublishOptions
sent_options copts r = record {
  persistent = true;
  message_id = r.id;
  content_type = "application/json";
  timestamp = r.created_at;
  app_id = copts.app_name;
  correlation_id = none;
  headers = some (or_else (to_record r).headers []);
}

relay-publish :
    {B : Type 0} (store : OutboxStore B) (channel : ChannelPublish B)
    (copts : RabbitMqClientOptions) (clock : B → ℕ) (ropts : OutboxRelayOptions) (r : OutboxRow)
    (b : B) (key : String) (payload : Json)
    → r.payload ≡ payload
    → r.routing_key ≡ key
    → publish_record store (publish copts (some channel) clock) ropts (to_record r) b
      ≡ channel copts.exchange key payload (sent_options copts r) b
unfolding publish_record publish publish_options to_record
relay-publish store channel copts clock ropts r b key payload same_payload same_key =
    ap (λ key'. channel copts.exchange key' r.payload (sent_options copts r) b) same_key
    ∙ ap (λ payload'. channel copts.exchange key payload' (sent_options copts r) b) same_payload

module _ {W T N : Type 0} (rt : Runtime) (client : OrderClient W)
    (orders : W → String → Option StoredOrder) (outbox : W → List NewRow)
    (laws : IsOrderClient client orders outbox)
    -- the tracking service
    (transaction : Transaction T) (shipments : TrackingClient T) (view : View T)
    (shipment_laws : IsTrackingClient shipments view) (mark_shipment : MarkProcessed T)
    (shipment_seen : Seen T) (shipment_store : IsProcessedStore mark_shipment shipment_seen)
    -- the notification service
    (sql : DeliverySql N) (row_of : Deliveries N) (sql_laws : IsDeliverySql sql row_of)
    (resolve : NotificationChannel → NotificationProvider N)
    (keeps : (c : NotificationChannel) (d : NotificationDeliveryRecord) (w : N) (id : String)
      → row_of ((resolve c).send d w).1 id ≡ row_of w id)
    (now : ℕ) (mark_notified : MarkProcessed N) (notified_seen : Seen N)
    (notified_store : IsProcessedStore mark_notified notified_seen) where
  abbrev to_tracking : Option Json → T → List Settlement → Result (Unit {0}) × (T × List Settlement)
  to_tracking = OrderCreatedConsumer.on_delivery transaction shipments rt mark_shipment

  abbrev to_notification :
      Option Json → N → List Settlement → Result (Unit {0}) × (N × List Settlement)
  to_notification =
      Deliveries.on_delivery sql row_of sql_laws resolve keeps now mark_notified notified_seen
        notified_store rt

  -- What follows from the creation of an order: its message is queued, the relay hands it to the
  -- exchange, and a delivery of what was handed over ships the order and notifies its customer.
  pub record Reaches (id : String) (before after : W) : Type 1 where
    pub message : NewRow
    pub queued : outbox after ≡ outbox before ++ message ∷ []
    pub routed : message.routing_key ≡ order_created
    pub relayed :
        (B : Type 0) (store : OutboxStore B) (channel : ChannelPublish B)
        (copts : RabbitMqClientOptions) (clock : B → ℕ) (ropts : OutboxRelayOptions) (r : OutboxRow)
        (b : B)
        → r.payload ≡ message.payload
        → r.routing_key ≡ message.routing_key
        → publish_record store (publish copts (some channel) clock) ropts (to_record r) b
          ≡ channel copts.exchange order_created message.payload (sent_options copts r) b
    pub event : Envelope OrderCreatedPayload
    pub of_order : event.payload.order_id ≡ id
    pub of_event : (order_created_input rt event).event_id ≡ event.event_id
    pub ships :
        (w : T) (log : List Settlement)
        → Shipped transaction shipments rt view shipment_laws id w log
            (to_tracking (some message.payload) w log)
    pub notifies :
        (w : N) (log : List Settlement)
        → Notified sql row_of sql_laws resolve keeps now
            (order_created_input rt event)
            w
            log
            (to_notification (some message.payload) w log)

  Created-Reaches :
      (inputs : Inputs) (command : CreateOrderCommand) (w w' : W) (c c' : Control) (id : String)
      → Created client orders outbox laws rt inputs command (w, c) (w', c') id
      → Reaches id w w'
  unfolding outbox_row build_order_created_message order_created_input
  Created-Reaches inputs command w w' c c' id made =
      let p = made.prepared in
      let e = made.message.payload in
      let names = announced_id rt inputs command made.order made.message p ∙ sym made.returned in
      record {
        message = outbox_row made.message;
        queued = made.queued;
        routed = ap (λ (m : PendingOutboxMessage). m.routing_key) p.built;
        relayed = λ B store channel copts clock ropts r b same_payload same_key.
            relay-publish store channel copts clock ropts r b _ _ same_payload
              (same_key ∙ ap (λ (m : PendingOutboxMessage). m.routing_key) p.built);
        event = e;
        of_order = names;
        of_event = refl;
        ships = λ t log.
            subst
              (λ o.
                Shipped transaction shipments rt view shipment_laws o t log
                  (to_tracking (some (order_created_json e)) t log))
              names
              (on_delivery-Shipped transaction shipments rt view shipment_laws mark_shipment
                shipment_seen shipment_store (some (order_created_json e)) _ e t log
                (message-event_of rt mark_shipment OrderCreatedConsumer.options
                  (OrderCreatedConsumer.handle_event transaction shipments rt) e p.accepted));
        notifies = λ n log.
            on_delivery-Notified sql row_of sql_laws resolve keeps now mark_notified notified_seen
              notified_store rt (some (order_created_json e)) _ e n log
              (message-event_of rt mark_notified order_created_options
                (handle_order_created sql resolve now rt) e p.accepted);
      }

  -- For clients, stores, senders and transactions of the three services that behave as documented:
  -- where create_order returns an id, exactly one message is appended to the outbox; publishing an
  -- outbox row with its payload and routing key hands that payload to the exchange under
  -- order.created; and a delivery of the payload, on a channel that stays open, leaves the tracking
  -- service with a shipment of that order, or acknowledges a duplicate or requeues with the
  -- database unchanged, and leaves the notification service with a notification of that event
  -- marked as SENT, or acknowledges a duplicate or requeues with the database unchanged.
  pub create_order-Reaches :
      (inputs : Inputs) (command : CreateOrderCommand) (w w' : W) (c c' : Control) (id : String)
      → create_order client rt inputs command (w, c) ≡ (ok id, (w', c'))
      → Reaches id w w'
  create_order-Reaches inputs command w w' c c' id ran =
      Created-Reaches inputs command w w' c c' id (
        subst (Create.Ended client orders outbox laws rt inputs command (w, c)) ran
          (create_order-Ended client orders outbox laws rt inputs command w c))
