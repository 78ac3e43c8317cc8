-- ===== src/Messaging/RabbitMqClient/Connection.antt =====
-- libs/messaging/src/rabbitmq/rabbitmq.client.ts: the state of the client, and what each method does
-- with it. The library amqp-connection-manager is a parameter; the connections and the channels that
-- it hands out are named by numbers.
pub mod Books
pub mod Opening
pub mod Closing
pub mod Runs
use logistics_platform.Prelude.{
  ℕ, String, Bool, true, false, Option, none, some, List, [], ◌∷◌, ◌++◌, or_else,
}
use logistics_platform.Result.{error, ok}
use logistics_platform.Act.{Act, pure, throw, ◌>>=◌, ◌>>◌}
use logistics_platform.Messaging.Outbox.{PublishArgs}
use logistics_platform.Messaging.RabbitMqClient.{RabbitMqClientOptions, ChannelPublish, publish}

-- What the setup of a channel sends, in order, whenever the channel is connected. `H` is the type of
-- the handlers of messages.
pub data SetupCall (H : Type 0) : Type 0 where
  assert_exchange : (name kind : String) (durable : Bool) → SetupCall H
  prefetch : (count : ℕ) → SetupCall H
  consume : (queue : String) → H → (no_ack : Bool) → SetupCall H

pub record ConnectOptions : Type 0 where
  pub heartbeat_interval_in_seconds : ℕ
  pub reconnect_time_in_seconds : ℕ

abbrev pub connect_options : ConnectOptions
connect_options = record { heartbeat_interval_in_seconds = 15; reconnect_time_in_seconds = 5 }

pub record Broker (W H : Type 0) : Type 0 where
  pub connect : List String → ConnectOptions → Act W ℕ
  pub create_channel : (connection : ℕ) → List (SetupCall H) → Act W ℕ
  pub wait_for_connect : (channel : ℕ) → Act W (Unit {0})
  pub close_channel : (channel : ℕ) → Act W (Unit {0})
  pub close_connection : (connection : ℕ) → Act W (Unit {0})
  pub is_connected : (connection : ℕ) → W → Bool
  pub channel_publish : (channel : ℕ) → ChannelPublish W

-- The fields of the client.
pub record Client : Type 0 where
  pub connection : Option ℕ
  pub pub_channel : Option ℕ
  pub consumer_channels : List ℕ

abbrev pub new_client : Client
new_client = record { connection = none; pub_channel = none; consumer_channels = [] }

unfoldable pub publisher_setup : {H : Type 0} → RabbitMqClientOptions → List (SetupCall H)
publisher_setup opts = assert_exchange opts.exchange "topic" true ∷ []

unfoldable pub consumer_setup :
    {H : Type 0} → RabbitMqClientOptions → (queue : String) → H → List (SetupCall H)
consumer_setup opts queue handler =
    prefetch (or_else opts.prefetch 10) ∷ consume queue handler false ∷ []

module _ {W H : Type 0} (broker : Broker W H) (opts : RabbitMqClientOptions) where
  -- A call of the library, and a write of the fields.
  abbrev call : {A : Type 0} → Act W A → Act (Client × W) A
  call m (c, w) = let (result, w') = m w in (result, (c, w'))

  abbrev write : (Client → Client) → Act (Client × W) (Unit {0})
  write f (c, w) = (ok tt, (f c, w))

  -- `m.catch(() => undefined)`
  abbrev swallow : Act W (Unit {0}) → Act W (Unit {0})
  swallow m w = (ok tt, (m w).1)

  connect_from : Option ℕ → Act (Client × W) (Unit {0})
  connect_from (some connection) = pure tt
  connect_from none = do
    connection ← call (broker.connect (opts.url ∷ []) connect_options)
    write (λ c. record c { connection = some connection })
    channel ← call (broker.create_channel connection (publisher_setup opts))
    write (λ c. record c { pub_channel = some channel })
    call (broker.wait_for_connect channel)

  unfoldable pub connect : Act (Client × W) (Unit {0})
  unfolding connect_from publisher_setup
  connect (c, w) = connect_from c.connection (c, w)

  close_each : List ℕ → Act W (Unit {0})
  close_each [] = pure tt
  close_each (ch ∷ chs) = swallow (broker.close_channel ch) >> close_each chs

  close_if : (ℕ → Act W (Unit {0})) → Option ℕ → Act W (Unit {0})
  close_if f none = pure tt
  close_if f (some n) = swallow (f n)

  close_from : Client → Act (Client × W) (Unit {0})
  unfolding close_each close_if
  close_from held = do
    call (close_each held.consumer_channels)
    write (λ c. record c { consumer_channels = [] })
    call (close_if broker.close_channel held.pub_channel)
    write (λ c. record c { pub_channel = none })
    call (close_if broker.close_connection held.connection)
    write (λ c. record c { connection = none })

  unfoldable pub close : Act (Client × W) (Unit {0})
  unfolding close_from
  close (c, w) = close_from c (c, w)

  consume_from : Option ℕ → (queue : String) → H → Act (Client × W) (Unit {0})
  consume_from none queue handler = throw (error "RabbitMQ client not connected")
  consume_from (some connection) queue handler = do
    channel ← call (broker.create_channel connection (consumer_setup opts queue handler))
    write (λ c. record c { consumer_channels = c.consumer_channels ++ channel ∷ [] })
    call (broker.wait_for_connect channel)

  unfoldable pub consume_queue : (queue : String) → H → Act (Client × W) (Unit {0})
  unfolding consume_from consumer_setup
  consume_queue queue handler (c, w) = consume_from c.connection queue handler (c, w)

  abbrev publisher : Option ℕ → Option (ChannelPublish W)
  publisher none = none
  publisher (some channel) = some (broker.channel_publish channel)

  unfoldable pub publish_message : (W → ℕ) → PublishArgs → Act (Client × W) (Unit {0})
  unfolding publish
  publish_message now args (c, w) = call (publish opts (publisher c.pub_channel) now args) (c, w)

  abbrev connected : Option ℕ → W → Bool
  connected none w = false
  connected (some connection) w = broker.is_connected connection w

  unfoldable pub is_healthy : Client → W → Bool
  is_healthy c w = connected c.connection w
