-- ===== src/Orders/Handlers/Create.antt =====
-- Creating an order.
use logistics_platform.Prelude.{
  String, ◌≡◌, refl, inl, inr, Option, none, some, List, [], ◌∷◌, ◌++◌, ap, sym, subst, arith,
}
use logistics_platform.Result
use logistics_platform.Result.{Failure, Result, ok, err, ok-injective, Result-cases, >>=-eq-ok}
use logistics_platform.Act.{pure, continue, ◌>>◌}
use logistics_platform.Runtime.{Runtime}
use logistics_platform.Contracts.Envelope.{Envelope, order_created}
use logistics_platform.Contracts.OrderCreated.{
  OrderCreatedPayload, order_created_event_schema, order_created_json,
}
use logistics_platform.Messaging.EnvelopeBuilder.{build_event_envelope}
use logistics_platform.Messaging.OutboxTable.{NewRow}
use logistics_platform.Messaging.Relay.Control
use logistics_platform.Messaging.Relay.Control.{Control}
use logistics_platform.Orders.Order.{Order, OrderCreatedEvent, PlaceOrderProps, place}
use logistics_platform.Orders.Order.Rehydrate.{Placed, place-Placed}
use logistics_platform.Orders.Publisher.{PendingOutboxMessage, build_order_created_message}
use logistics_platform.Orders.Repository.{
  OrderClient, IsOrderClient, StoredOrder, order_row, outbox_row, save_new,
}
use logistics_platform.Orders.Commands.{CreateOrderCommand, Inputs, prepare_order, parsed}
use logistics_platform.Orders.Handlers.{create_order, wake_relay}
use logistics_platform.Contracts.Acceptance.{order_created_read}

abbrev pub place_props : CreateOrderCommand → PlaceOrderProps
place_props command = record {
  id = none;
  customer_id = command.customer_id;
  currency = command.currency;
  items = command.items;
  shipping_address = command.shipping_address;
  placed_at = none;
}

-- The order and the message that are written together.
pub record Prepared (rt : Runtime) (inputs : Inputs) (command : CreateOrderCommand) (order : Order)
    (message : PendingOutboxMessage) : Type 0 where
  pub placed : Order
  pub event : OrderCreatedEvent
  pub sound : Placed rt inputs.order_uuid inputs.now (place_props command) placed
  pub announced : placed.domain_events ≡ event ∷ []
  pub pulled : order ≡ record placed { domain_events = [] }
  pub built :
      message
      ≡ build_order_created_message rt inputs.context inputs.event_uuid inputs.correlation_uuid
          inputs.now event
  pub accepted :
      order_created_event_schema rt (order_created_json message.payload) ≡ some message.payload

parsed-accepted :
    (rt : Runtime) (e : Envelope OrderCreatedPayload)
    → parsed (order_created_event_schema rt (order_created_json e)) ≡ ok tt
    → order_created_event_schema rt (order_created_json e) ≡ some e
parsed-accepted rt e h = rw order_created_read (ground (arith, rw order_created_read at h))

-- The code's last steps, once the order is placed and its event pulled.
abbrev checked :
    Runtime → Inputs → Order → OrderCreatedEvent → Result (Order × PendingOutboxMessage)
checked rt inputs order event =
    let message =
      build_order_created_message rt inputs.context inputs.event_uuid inputs.correlation_uuid
        inputs.now event in
    Result.◌>>◌
      (parsed (
        order_created_event_schema rt
          (order_created_json (record message.payload { event_type = order_created }))))
      (ok (order, message))

checked-Prepared :
    (rt : Runtime) (inputs : Inputs) (command : CreateOrderCommand) (order : Order)
    (message : PendingOutboxMessage) (placed : Order) (event : OrderCreatedEvent)
    → Placed rt inputs.order_uuid inputs.now (place_props command) placed
    → placed.domain_events ≡ event ∷ []
    → checked rt inputs (record placed { domain_events = [] }) event ≡ ok (order, message)
    → Prepared rt inputs command order message
unfolding build_order_created_message build_event_envelope
checked-Prepared rt inputs command order message placed event sound announced h =
    let (u, accepted, same) = >>=-eq-ok (parsed _) _ h in
    let pair = ok-injective same in
    let built = ap (λ (x : Order × PendingOutboxMessage). x.1) pair in
    record {
      placed = placed;
      event = event;
      sound = sound;
      announced = announced;
      pulled = sym (ap (λ (x : Order × PendingOutboxMessage). x.0) pair);
      built = sym built;
      accepted =
          subst
            (λ (m : PendingOutboxMessage).
              order_created_event_schema rt (order_created_json m.payload) ≡ some m.payload)
            built (parsed-accepted rt _ accepted);
    }

prepare_order-Prepared :
    (rt : Runtime) (inputs : Inputs) (command : CreateOrderCommand) (order : Order)
    (message : PendingOutboxMessage)
    → prepare_order rt inputs command ≡ ok (order, message)
    → Prepared rt inputs command order message
unfolding prepare_order
prepare_order-Prepared rt inputs command order message h =
    let (placed, made, rest) =
      >>=-eq-ok (place rt inputs.order_uuid inputs.now (place_props command)) _ h in
    let sound = place-Placed rt inputs.order_uuid inputs.now (place_props command) made in
    checked-Prepared rt inputs command order message placed _ sound sound.events
      (rw sound.events at rest)

module _ {W : Type 0} (client : OrderClient W) (orders : W → String → Option StoredOrder)
    (outbox : W → List NewRow) (laws : IsOrderClient client orders outbox) (rt : Runtime) where
  -- What a successful run has done to the state.
  pub record Created (inputs : Inputs) (command : CreateOrderCommand) (before after : W × Control)
      (id : String) : Type 0 where
    pub order : Order
    pub message : PendingOutboxMessage
    pub prepared : Prepared rt inputs command order message
    pub returned : id ≡ order.id
    pub stored : orders after.0 id ≡ some (order_row order)
    pub queued : outbox after.0 ≡ outbox before.0 ++ outbox_row message ∷ []
    pub woken : after.1 ≡ Control.wake before.1

  -- What a failed run leaves.
  pub record Untouched (before after : W × Control) : Type 0 where
    pub same_orders : (id : String) → orders after.0 id ≡ orders before.0 id
    pub same_outbox : outbox after.0 ≡ outbox before.0
    pub same_relay : after.1 ≡ before.1

  abbrev pub Ended :
      Inputs → CreateOrderCommand → W × Control → Result String × (W × Control) → Type 0
  Ended inputs command before (ok id, after) = Created inputs command before after id
  Ended inputs command before (err e, after) = Untouched before after

  saved_Ended :
      (inputs : Inputs) (command : CreateOrderCommand) (w : W) (c : Control) (order : Order)
      (message : PendingOutboxMessage) (result : Result (Unit {0})) (w' : W)
      → Prepared rt inputs command order message
      → client.create_both (order_row order) (outbox_row message) w ≡ (result, w')
      → Ended inputs command
          (w, c)
          (continue (result, (w', c)) (λ _. wake_relay client rt >> pure order.id))
  saved_Ended inputs command w c order message (ok u) w' prepared call =
      let (stored, queued) =
        laws.create_ok (order_row order) (outbox_row message) w
          (ap (λ (x : Result (Unit {0}) × W). x.0) call) in
      let after = ap (λ (x : Result (Unit {0}) × W). x.1) call in
      record {
        order = order;
        message = message;
        prepared = prepared;
        returned = refl;
        stored =
            subst (λ v. orders v order.id ≡ some (order_row order)) after
              (unfold order_row in stored);
        queued = subst (λ v. outbox v ≡ outbox w ++ outbox_row message ∷ []) after queued;
        woken = refl;
      }
  saved_Ended inputs command w c order message (err e) w' prepared call =
      let (same_orders, same_outbox) =
        laws.create_err (order_row order) (outbox_row message) w e
          (ap (λ (x : Result (Unit {0}) × W). x.0) call) in
      let after = ap (λ (x : Result (Unit {0}) × W). x.1) call in
      record {
        same_orders = λ id. subst (λ v. orders v id ≡ orders w id) after (same_orders id);
        same_outbox = subst (λ v. outbox v ≡ outbox w) after same_outbox;
        same_relay = refl;
      }

  -- For an order client that behaves as documented, a run of create_order either returns the id of
  -- a new order, which was placed from the command, with the order stored, the one message that
  -- announces it, accepted by the event's schema, appended to the outbox, and the relay woken; or
  -- it throws and orders, outbox and relay are as they were.
  pub create_order-Ended :
      (inputs : Inputs) (command : CreateOrderCommand) (w : W) (c : Control)
      → Ended inputs command (w, c) (create_order client rt inputs command (w, c))
  unfolding create_order save_new
  create_order-Ended inputs command w c = elim (Result-cases (prepare_order rt inputs command)) [
    | inl ((order, message), e) ↦ rw e (
        saved_Ended inputs command w c order message _ _
          (prepare_order-Prepared rt inputs command order message e) refl)
    | inr (e, threw) ↦
        rw threw (record { same_orders = λ id. refl; same_outbox = refl; same_relay = refl })
  ]
