-- ===== src/Messaging/Outbox.antt =====
-- libs/messaging/src/outbox/outbox.types.ts, and the publishing half of rabbitmq.client.ts that
-- the relay calls. A component with state is an interface over a state `W`.
use logistics_platform.Prelude.{ℕ, String, Bool, Option, List}
use logistics_platform.Number.{Number}
use logistics_platform.Json.{Json}
use logistics_platform.Act.{Act}

pub data HeaderValue : Type 0 where
  text : String → HeaderValue
  number : Number → HeaderValue

abbrev pub Headers : Type 0
Headers = List (String × HeaderValue)

pub record OutboxRecord : Type 0 where
  pub id : String
  pub aggregate_type : String
  pub aggregate_id : String
  pub event_type : String
  pub routing_key : String
  pub payload : Json
  pub headers : Option Headers
  pub attempts : ℕ
  pub created_at : ℕ
  pub published_at : Option ℕ
  pub dead_at : Option ℕ
  pub last_error : Option String

pub record OutboxStore (W : Type 0) : Type 0 where
  pub claim_batch : ℕ → Act W (List OutboxRecord)
  pub mark_published : String → Act W (Unit {0})
  pub mark_failed : String → String → Act W (Unit {0})
  pub mark_dead : String → String → Act W (Unit {0})
  pub has_pending : Act W Bool

-- The body is the JSON that the buffer holds.
pub record PublishArgs : Type 0 where
  pub routing_key : String
  pub body : Json
  pub headers : Option Headers
  pub message_id : String
  pub correlation_id : Option String
  pub content_type : Option String
  pub timestamp : Option ℕ

abbrev pub Publish : Type 0 → Type 0
Publish W = PublishArgs → Act W (Unit {0})
