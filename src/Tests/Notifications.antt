-- ===== src/Tests/Notifications.antt =====
-- The notification service, over a table of one delivery.
use logistics_platform.Prelude.{
  ℕ, String, ◌≡◌, ◌≢◌, refl, sym, ap, inl, inr, Bool, true, false, Option, none, some,
  some-injective, List, [], ◌∷◌, ◌==◌, eq_iff, if◌then◌else◌, Bool-cases, arith,
}
use logistics_platform.Result.{Failure, Result, ok, err, error}
use logistics_platform.Act.{Act, pure-eq-ok}
use logistics_platform.Notifications.Providers.{
  NotificationChannel, email, NotificationDeliveryRecord, Environment, resolve, console_provider,
  send_grid_provider, twilio_provider,
}
use logistics_platform.Notifications.Dispatch.{
  CreateNotificationDeliveryInput, DispatchNotificationInput, DeliverySql, dispatch,
}
use logistics_platform.Notifications.Dispatch.Outcomes.{
  IsDeliverySql, Dispatched, dispatch-Dispatched,
}
use logistics_platform.Contracts.OrderCreated.{
  OrderCreatedPayload, order_created_event_schema, order_created_json, order_created_payload_json,
  order_created_payload_schema, order_item_schema, order_item_json, shipping_address_schema,
  shipping_address_json,
}
use logistics_platform.Contracts.Envelope.{
  Envelope, event_schema, base_event_envelope_schema, envelope_json, base_envelope_json,
}
use logistics_platform.Observability.Correlation.{is_uuid}
use logistics_platform.Text.{text_length}
use logistics_platform.Messaging.Consumer.{stays_open, MarkProcessed}
use logistics_platform.Messaging.Consumer.Settlements.{event_of}
use logistics_platform.Messaging.ProcessedStore.{Seen, IsProcessedStore}
use logistics_platform.Notifications.ProcessedMessages.{
  Insert, IsInsert, mark_processed, mark_processed-IsProcessedStore,
}
use logistics_platform.Notifications.Consumers.{
  order_created_options, order_created_input, handle_order_created,
}
use logistics_platform.Notifications.Deliveries.{Notified, on_delivery, on_delivery-Notified}
use logistics_platform.Tests.Database.{undoing, undoing-IsTransaction}
use logistics_platform.Tests.Samples.{uuid_a, rt, created_payload, enveloped}

-- The delivery, and whether an event is on record.
abbrev pub Table : Type 0
Table = Option NotificationDeliveryRecord × Bool

abbrev kept_row : Option NotificationDeliveryRecord → String → Option NotificationDeliveryRecord
kept_row none id = none
kept_row (some d) id = if id == d.id then some d else none

abbrev pub row_of : Table → String → Option NotificationDeliveryRecord
row_of w id = kept_row w.0 id

abbrev new_row : CreateNotificationDeliveryInput → NotificationDeliveryRecord
new_row input = record {
  id = "d1";
  event_id = input.event_id;
  event_type = input.event_type;
  channel = input.channel;
  recipient = input.recipient;
  content = input.content;
  status = input.status;
  provider = input.provider;
  sent_at = none;
  created_at = 1;
}

abbrev insert : CreateNotificationDeliveryInput → Act Table (List NotificationDeliveryRecord)
insert input (none, b) = (ok (new_row input ∷ []), (some (new_row input), b))
insert input (some d, b) = (err (error "the table is full"), (some d, b))

abbrev change : String → String → Option ℕ → Act Table (List NotificationDeliveryRecord)
change id status t (none, b) = (ok [], (none, b))
change id status t (some d, b) =
    if id == d.id
    then (
      ok (record d { status = status; sent_at = t } ∷ []),
      (some (record d { status = status; sent_at = t }), b),
    )
    else (ok [], (some d, b))

abbrev pub sql : DeliverySql Table
sql = record { insert = insert; update = change }

insert_ok :
    (input : CreateNotificationDeliveryInput) (w w' : Table) (ds : List NotificationDeliveryRecord)
    → insert input w ≡ (ok ds, w')
    → (ds ≡ new_row input ∷ [])
      × (row_of w "d1" ≡ none)
      × (row_of w' "d1" ≡ some (new_row input))
      × ((other : String) → other ≢ "d1" → row_of w' other ≡ row_of w other)
insert_ok input (none, b) w' ds h =
    let (is_ds, state) = pure-eq-ok h in
    rw (← is_ds) (rw (← state) (refl, refl, refl, λ other ne. ground (arith, eq_iff other "d1")))
insert_ok input (some d, b) w' ds h =
    cc (ap (λ (x : Result (List NotificationDeliveryRecord) × Table). x.0) h)

insert_err :
    (input : CreateNotificationDeliveryInput) (w w' : Table) (e : Failure) (id : String)
    → insert input w ≡ (err e, w')
    → row_of w' id ≡ row_of w id
insert_err input (none, b) w' e id h =
    cc (ap (λ (x : Result (List NotificationDeliveryRecord) × Table). x.0) h)
insert_err input (some d, b) w' e id h =
    ap (λ (x : Result (List NotificationDeliveryRecord) × Table). row_of x.1 id) (sym h)

update_ok :
    (id status : String) (t : Option ℕ) (w w' : Table) (d : NotificationDeliveryRecord)
    (ds : List NotificationDeliveryRecord)
    → row_of w id ≡ some d
    → change id status t w ≡ (ok ds, w')
    → (ds ≡ record d { status = status; sent_at = t } ∷ [])
      × (row_of w' id ≡ some (record d { status = status; sent_at = t }))
update_ok id status t (none, b) w' d ds found h = cc
update_ok id status t (some x, b) w' d ds found h = elim (Bool-cases (id == x.id)) [
  | inl same ↦
      let is_d = some-injective _ _ (rw same at found) in
      let (is_ds, state) = pure-eq-ok (rw same at h) in
      rw (← is_ds) (rw (← state) (rw (← is_d) (refl, rw same refl)))
  | inr differs ↦ cc (rw differs at found)
]

update_err :
    (id status : String) (t : Option ℕ) (w w' : Table) (e : Failure)
    → change id status t w ≡ (err e, w')
    → row_of w' id ≡ row_of w id
update_err id status t (none, b) w' e h =
    cc (ap (λ (x : Result (List NotificationDeliveryRecord) × Table). x.0) h)
update_err id status t (some x, b) w' e h = elim (Bool-cases (id == x.id)) [
  | inl same ↦
      cc (ap (λ (x : Result (List NotificationDeliveryRecord) × Table). x.0) (rw same at h))
  | inr differs ↦
      cc (ap (λ (x : Result (List NotificationDeliveryRecord) × Table). x.0) (rw differs at h))
]

pub sql-IsDeliverySql : IsDeliverySql sql row_of
sql-IsDeliverySql = record {
  insert_ok = λ input w w' ds h.
      let (is_ds, fresh, there, others) = insert_ok input w w' ds h in
      (
        new_row input,
        is_ds,
        record {
          event_id = refl;
          event_type = refl;
          channel = refl;
          recipient = refl;
          content = refl;
          status = refl;
          provider = refl;
          unsent = refl;
        },
        fresh,
        there,
        others,
      );
  insert_err = insert_err;
  update_ok = update_ok;
  update_err = update_err;
}

abbrev pub env : Environment
env = record { notification_provider = none; node_env = some "production" }

abbrev input : DispatchNotificationInput
input = record {
  event_id = uuid_a;
  event_type = "order.created";
  channel = email;
  recipient = "customer:1";
  content = "Order 1 was created.";
}

pub provider_keeps :
    (c : NotificationChannel) (d : NotificationDeliveryRecord) (w : Table) (id : String)
    → row_of ((resolve env c).send d w).1 id ≡ row_of w id
unfolding resolve console_provider send_grid_provider twilio_provider
provider_keeps NotificationChannel.email d w id = refl
provider_keeps NotificationChannel.sms d w id = refl

abbrev empty_table : Table
empty_table = (none, false)

dispatch-Dispatched_example :
    Dispatched sql row_of sql-IsDeliverySql
      (resolve env)
      provider_keeps
      7
      input
      empty_table
      (dispatch sql (resolve env) 7 input empty_table).0
      (dispatch sql (resolve env) 7 input empty_table).1
dispatch-Dispatched_example =
    dispatch-Dispatched sql row_of sql-IsDeliverySql (resolve env) provider_keeps 7 input
      empty_table

abbrev pub seen : Seen Table
seen w consumer event = w.1

abbrev record_message : Insert Table
record_message consumer event event_type w = (ok (if w.1 then [] else "row" ∷ []), (w.0, true))

record_message-IsInsert : IsInsert record_message seen
record_message-IsInsert = record {
  old = λ consumer event event_type w ids e old. ground arith;
  recorded = λ consumer event event_type w ids e. refl;
}

abbrev pub store : MarkProcessed Table
store = mark_processed undoing record_message

pub store-IsProcessedStore : IsProcessedStore store seen
store-IsProcessedStore =
    mark_processed-IsProcessedStore undoing record_message seen undoing-IsTransaction
      record_message-IsInsert

abbrev event : Envelope OrderCreatedPayload
event = enveloped "order.created" created_payload

created-event_of :
    event_of stays_open store order_created_options rt
      (order_created_event_schema rt)
      (handle_order_created sql (resolve env) 7 rt)
      (some (order_created_json event))
    ≡ some (enveloped "order.created" (some (order_created_payload_json created_payload)), event)
unfolding order_created_event_schema order_created_json order_created_payload_schema
    order_created_payload_json order_item_schema order_item_json shipping_address_schema
    shipping_address_json event_schema base_event_envelope_schema envelope_json base_envelope_json
    is_uuid text_length
created-event_of = refl

on_delivery-Notified_example :
    Notified sql row_of sql-IsDeliverySql
      (resolve env)
      provider_keeps
      7
      (order_created_input rt event)
      empty_table
      []
      (on_delivery sql row_of sql-IsDeliverySql
        (resolve env)
        provider_keeps
        7
        store
        seen
        store-IsProcessedStore
        rt
        (some (order_created_json event))
        empty_table
        [])
on_delivery-Notified_example =
    on_delivery-Notified sql row_of sql-IsDeliverySql (resolve env) provider_keeps 7 store seen
      store-IsProcessedStore rt (some (order_created_json event))
      (enveloped "order.created" (some (order_created_payload_json created_payload))) event
      empty_table [] created-event_of
