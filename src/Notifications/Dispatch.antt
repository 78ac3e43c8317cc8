-- ===== src/Notifications/Dispatch.antt =====
-- apps/notification-service/src/notifications/notification-dispatch.service.ts, with the repository of
-- infrastructure/prisma/prisma-notification-delivery.repository.ts. The two SQL statements, which the
-- database runs, are parameters: they return the rows that they inserted or updated.
pub mod Outcomes
use Prim.Native.String
use logistics_platform.Prelude.{ℕ, String, Option, none, some, List, [], ◌∷◌}
use logistics_platform.Result.{Failure, error, Result, ok, err}
use logistics_platform.Act.{Act, throw, lift, ◌>>=◌, ◌>>◌}
use logistics_platform.Notifications.Providers.{
  NotificationChannel, channel_text, NotificationStatus, pending, sent, failed, status_text,
  NotificationDeliveryRecord, NotificationProvider,
}

pub record CreateNotificationDeliveryInput : Type 0 where
  pub event_id : String
  pub event_type : String
  pub channel : String
  pub recipient : String
  pub content : String
  pub status : String
  pub provider : String

pub record DispatchNotificationInput : Type 0 where
  pub event_id : String
  pub event_type : String
  pub channel : NotificationChannel
  pub recipient : String
  pub content : String

pub record DeliverySql (W : Type 0) : Type 0 where
  -- `INSERT … VALUES (gen_random_uuid(), …, NULL, NOW()) RETURNING …`
  pub insert : CreateNotificationDeliveryInput → Act W (List NotificationDeliveryRecord)
  -- `UPDATE … SET status, sent_at WHERE id RETURNING …`
  pub update : (id status : String) → Option ℕ → Act W (List NotificationDeliveryRecord)

-- the argument of `create` in `dispatch`
unfoldable pub pending_delivery :
    DispatchNotificationInput → String → CreateNotificationDeliveryInput
pending_delivery input provider = record {
  event_id = input.event_id;
  event_type = input.event_type;
  channel = channel_text input.channel;
  recipient = input.recipient;
  content = input.content;
  status = status_text pending;
  provider = provider;
}

-- `const [delivery] = …; if (!delivery) throw …`
abbrev pub first_row : String → List NotificationDeliveryRecord → Result NotificationDeliveryRecord
first_row m [] = err (error m)
first_row m (delivery ∷ _) = ok delivery

module _ {W : Type 0} (sql : DeliverySql W) where
  -- `PrismaNotificationDeliveryRepository.create`
  unfoldable pub create : CreateNotificationDeliveryInput → Act W NotificationDeliveryRecord
  create input = do
    rows ← sql.insert input
    lift (first_row "Failed to create notification delivery" rows)

  -- `PrismaNotificationDeliveryRepository.updateStatus`
  unfoldable pub update_status : (id status : String) → Option ℕ → Act W NotificationDeliveryRecord
  update_status id status sent_at = do
    rows ← sql.update id status sent_at
    lift (first_row (String.◌++◌ "Notification delivery not found: " id) rows)

  -- What follows `provider.send(delivery)`. The promise of the status SENT is returned and not awaited
  -- inside the `try`, so that where it is rejected, the `catch` does not run.
  unfoldable pub after_send : ℕ → String → Result (Unit {0}) → Act W NotificationDeliveryRecord
  after_send now id (ok u) = update_status id (status_text sent) (some now)
  after_send now id (err e) = update_status id (status_text failed) none >> throw e

  abbrev send_and_settle :
      NotificationProvider W → ℕ → NotificationDeliveryRecord → Act W NotificationDeliveryRecord
  send_and_settle provider now delivery w =
      let (result, w') = provider.send delivery w in after_send now delivery.id result w'

  -- `NotificationDispatchService.dispatch`; `now` is the time at which the sending ended.
  unfoldable pub dispatch :
      (NotificationChannel → NotificationProvider W)
      → (now : ℕ) → DispatchNotificationInput
      → Act W NotificationDeliveryRecord
  unfolding after_send
  dispatch resolve now input = do
    let provider = resolve input.channel
    delivery ← create (pending_delivery input provider.name)
    send_and_settle provider now delivery
