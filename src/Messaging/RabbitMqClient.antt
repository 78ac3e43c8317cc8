-- ===== src/Messaging/RabbitMqClient.antt =====
-- libs/messaging/src/rabbitmq/rabbitmq.client.ts: what `publish` hands to its channel, which is a
-- parameter, and that the relay may publish through it. The connection is in `Connection`, the callback
-- of `consume` in `Consumer`.
pub mod Connection
use logistics_platform.Prelude.{
  ℕ, ◌+◌, String, ◌≡◌, refl, ◌⊎◌, inl, inr, Bool, true, false, Option, none, some, List, [], ◌∷◌,
  or_else, leb, Bool-cases,
}
use logistics_platform.Json.{Json}
use logistics_platform.Result.{Failure, error, message, Result, ok, err, Result-cases}
use logistics_platform.Act.{Act, throw, pure, continue}
use logistics_platform.Messaging.Outbox.{Headers, OutboxRecord, OutboxStore, PublishArgs, Publish}
use logistics_platform.Messaging.Relay.{
  OutboxRelayOptions, record_failure, deliver, process, process_claimed, tick_work,
}

pub record RabbitMqClientOptions : Type 0 where
  pub url : String
  pub exchange : String
  pub app_name : String
  pub prefetch : Option ℕ

pub record PublishOptions : Type 0 where
  pub persistent : Bool
  pub message_id : String
  pub content_type : String
  pub timestamp : ℕ
  pub app_id : String
  pub correlation_id : Option String
  pub headers : Option Headers

-- `pubChannel.publish(exchange, routingKey, body, options)`, which waits for the confirmation
abbrev pub ChannelPublish : Type 0 → Type 0
ChannelPublish W = (exchange routing_key : String) → Json → PublishOptions → Act W (Unit {0})

unfoldable pub publish_options : RabbitMqClientOptions → (now : ℕ) → PublishArgs → PublishOptions
publish_options opts now args = record {
  persistent = true;
  message_id = args.message_id;
  content_type = or_else args.content_type "application/json";
  timestamp = or_else args.timestamp now;
  app_id = opts.app_name;
  correlation_id = args.correlation_id;
  headers = args.headers;
}

-- There is no channel before `connect` and after `close`.
unfoldable pub publish :
    {W : Type 0} → RabbitMqClientOptions → Option (ChannelPublish W) → (W → ℕ) → Publish W
publish opts none now args w = throw (error "RabbitMQ publisher channel not initialized") w
publish opts (some channel) now args w =
    channel opts.exchange args.routing_key args.body (publish_options opts (now w) args) w

continued :
    {W : Type 0} (m : Result (Unit {0}) × W)
    → ((continue m (λ _. pure false)).0 ≡ ok false)
      ⊎ ((f : Failure) × ((continue m (λ _. pure false)).0 ≡ err f))
continued (ok u, w) = inl refl
continued (err f, w) = inr (f, refl)

module _ {W : Type 0} (store : OutboxStore W) (client : RabbitMqClientOptions) (now : W → ℕ)
    (opts : OutboxRelayOptions) where
  abbrev closed : Publish W
  closed = publish client none now

  -- The failure of a record is never counted as a publication.
  record_failure-uncounted :
      (r : OutboxRecord) (e : Failure) (w : W)
      → ((record_failure store closed opts r e w).0 ≡ ok false)
        ⊎ ((f : Failure) × ((record_failure store closed opts r e w).0 ≡ err f))
  unfolding record_failure
  record_failure-uncounted r e w = elim (Bool-cases (leb opts.max_attempts (r.attempts + 1))) [
    | inl many ↦ rw many (continued (store.mark_dead r.id (message e) w))
    | inr few ↦ rw few (continued (store.mark_failed r.id (message e) w))
  ]

  process-closed :
      (rs : List OutboxRecord) (n : ℕ) (w : W) → (process store closed opts rs n w).0 ≡ n
  unfolding process deliver publish
  process-closed [] n w = refl
  process-closed (r ∷ rs) n w =
      elim (record_failure-uncounted r (error "RabbitMQ publisher channel not initialized") w) [
        | inl e ↦ rw (e, process) (process-closed rs n _)
        | inr (f, e) ↦ rw (e, process) refl
      ]

  -- While the client has no channel, before it connects and after it is closed, a tick of the relay
  -- counts no publication, whatever its store answers.
  pub tick_work-publish : (w : W) → (tick_work store (publish client none now) opts w).0 ≡ 0
  unfolding tick_work
  tick_work-publish w = elim (Result-cases (store.claim_batch opts.batch_size w).0) [
    | inl (rs, e) ↦ rw (e, process_claimed) (process-closed rs 0 _)
    | inr (f, e) ↦ rw (e, process_claimed) refl
  ]
