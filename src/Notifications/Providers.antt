-- ===== src/Notifications/Providers.antt =====
-- apps/notification-service/src/notifications: the types, the providers and their resolver.
use logistics_platform.Prelude.{
  ℕ, String, ◌≡◌, Bool, true, false, not, Option, none, some, List, [], ◌∷◌, ◌==◌, ◌||◌,
  if◌then◌else◌, arith,
}
use logistics_platform.Result.{ok}
use logistics_platform.Act.{Act}

pub data NotificationChannel : Type 0 where
  email sms : NotificationChannel

abbrev pub channel_text : NotificationChannel → String
channel_text email = "EMAIL"
channel_text sms = "SMS"

pub data NotificationStatus : Type 0 where
  pending sent failed : NotificationStatus

abbrev pub status_text : NotificationStatus → String
status_text pending = "PENDING"
status_text sent = "SENT"
status_text failed = "FAILED"

pub record NotificationDeliveryRecord : Type 0 where
  pub id : String
  pub event_id : String
  pub event_type : String
  pub channel : String
  pub recipient : String
  pub content : String
  pub status : String
  pub provider : String
  pub sent_at : Option ℕ
  pub created_at : ℕ

pub record NotificationProvider (W : Type 0) : Type 0 where
  pub name : String
  pub supports : List NotificationChannel
  pub send : NotificationDeliveryRecord → Act W (Unit {0})

-- Logging is not modelled, and the transports are still to be integrated: `send` does nothing.
unfoldable pub console_provider : {W : Type 0} → NotificationProvider W
console_provider = record {
  name = "console";
  supports = email ∷ sms ∷ [];
  send = λ delivery w. (ok tt, w);
}

unfoldable pub send_grid_provider : {W : Type 0} → NotificationProvider W
send_grid_provider = record {
  name = "sendgrid";
  supports = email ∷ [];
  send = λ delivery w. (ok tt, w);
}

unfoldable pub twilio_provider : {W : Type 0} → NotificationProvider W
twilio_provider = record { name = "twilio"; supports = sms ∷ []; send = λ delivery w. (ok tt, w) }

-- `process.env.NOTIFICATION_PROVIDER` and `process.env.NODE_ENV`
pub record Environment : Type 0 where
  pub notification_provider : Option String
  pub node_env : Option String

-- `variable === text`
abbrev pub is : Option String → String → Bool
is none text = false
is (some value) text = value == text

abbrev by_channel : {W : Type 0} → NotificationChannel → NotificationProvider W
by_channel email = send_grid_provider
by_channel sms = twilio_provider

-- `NotificationProviderResolver.resolve`
unfoldable pub resolve : {W : Type 0} → Environment → NotificationChannel → NotificationProvider W
unfolding console_provider send_grid_provider twilio_provider
resolve env channel =
    if is env.notification_provider "console"
    then console_provider
    else if is env.notification_provider "sendgrid"
    then send_grid_provider
    else if is env.notification_provider "twilio"
    then twilio_provider
    else if not (is env.node_env "production")
    then console_provider
    else by_channel channel

abbrev pub same_channel : NotificationChannel → NotificationChannel → Bool
same_channel email email = true
same_channel sms sms = true
same_channel _ _ = false

abbrev pub includes : List NotificationChannel → NotificationChannel → Bool
includes [] c = false
includes (d ∷ ds) c = same_channel d c || includes ds c

-- Unless SendGrid or Twilio is forced by the environment, the provider that is resolved supports
-- the channel.
pub resolve-supports :
    (W : Type 0) (env : Environment) (channel : NotificationChannel)
    → is env.notification_provider "sendgrid" ≡ false
    → is env.notification_provider "twilio" ≡ false
    → includes (resolve {W = W} env channel).supports channel ≡ true
unfolding resolve console_provider send_grid_provider twilio_provider
resolve-supports W env email grid twilio = ground arith
resolve-supports W env sms grid twilio = ground arith
