-- ===== src/Messaging/RabbitMqClient/Connection/Runs.antt =====
-- Any sequence of calls of the client's methods, whatever they throw.
use logistics_platform.Prelude.{
  false, ℕ, String, ◌≡◌, refl, Option, none, some, List, [], ◌∷◌, arith, sym, ap, subst,
}
use logistics_platform.Result.{Result, ok, err, error}
use logistics_platform.Messaging.Outbox.{PublishArgs}
use logistics_platform.Messaging.RabbitMqClient.{RabbitMqClientOptions, publish}
use logistics_platform.Messaging.RabbitMqClient.Connection.{
  Broker, Client, new_client, connect, close, consume_queue, consume_from, publish_message,
  is_healthy, publisher, call,
}
use logistics_platform.Messaging.RabbitMqClient.Connection.Books.{
  Book, IsBroker, Balanced, BalancedIn, count,
}
use logistics_platform.Messaging.RabbitMqClient.Connection.Opening.{
  connect-Balanced, consume_queue-Balanced,
}
use logistics_platform.Messaging.RabbitMqClient.Connection.Closing.{close-ends}

-- A call of a method of the client.
pub data Operation (W H : Type 0) : Type 0 where
  connects closes : Operation W H
  consumes : (queue : String) → H → Operation W H
  publishes : (now : W → ℕ) → PublishArgs → Operation W H

module _ {W H : Type 0} (broker : Broker W H) (opts : RabbitMqClientOptions) where
  unfoldable pub step : Operation W H → Client × W → Client × W
  step connects s = (connect broker opts s).1
  step closes s = (close broker opts s).1
  step (consumes queue handler) s = (consume_queue broker opts queue handler s).1
  step (publishes now args) s = (publish_message broker opts now args s).1

  -- The calls one after the other; what one of them throws ends that call only.
  unfoldable pub run : List (Operation W H) → Client × W → Client × W
  unfolding step
  run [] s = s
  run (op ∷ ops) s = run ops (step op s)

module _ {W H : Type 0} (broker : Broker W H) (book : W → Book) (laws : IsBroker broker book)
    (opts : RabbitMqClientOptions) where
  publish-Balanced :
      (now : W → ℕ) (args : PublishArgs) (o : Option ℕ) (c : Client) (w : W)
      → Balanced c (book w)
      → BalancedIn book
          (call broker opts (publish opts (publisher broker opts o) now args) (c, w)).1
  unfolding publish
  publish-Balanced now args none c w v = v
  publish-Balanced now args (some ch) c w v =
      subst (Balanced c) (sym (laws.publish_books ch _ _ _ _ w)) v

  step-Balanced :
      (op : Operation W H) (c : Client) (w : W)
      → Balanced c (book w)
      → BalancedIn book (step broker opts op (c, w))
  unfolding step publish_message
  step-Balanced connects c w v = connect-Balanced broker book laws opts c w v
  step-Balanced closes c w v =
      let (w', ended, keeps) = close-ends broker book laws opts c w in
      subst (λ (x : Result (Unit {0}) × (Client × W)). BalancedIn book x.1) (sym ended) (keeps v)
  step-Balanced (consumes queue handler) c w v =
      consume_queue-Balanced broker book laws opts queue handler c w v
  step-Balanced (publishes now args) c w v = publish-Balanced now args c.pub_channel c w v

  -- For a broker that keeps books of what it hands out and takes back, any sequence of calls of
  -- connect, close, consume and publish, made one after the other and whatever they throw, keeps
  -- the books balanced: every channel that was opened is either asked to close or held by the
  -- client, once for each opening, and so is every connection, of which it holds one at most;
  -- without a connection it holds no channel.
  pub run-Balanced :
      (ops : List (Operation W H)) (c : Client) (w : W)
      → Balanced c (book w)
      → BalancedIn book (run broker opts ops (c, w))
  unfolding run
  run-Balanced [] c w v = v
  run-Balanced (op ∷ ops) c w v =
      run-Balanced ops (step broker opts op (c, w)).0 (step broker opts op (c, w)).1
        (step-Balanced op c w v)

  -- The client is closed, and has given back all that the broker ever handed to it.
  pub record Released (s : Client × W) : Type 0 where
    pub holds_nothing : s.0 ≡ new_client
    pub all_closed : (k : ℕ) → count k (book s.1).opened ≡ count k (book s.1).closed
    pub all_disconnected : (book s.1).connects ≡ (book s.1).disconnects
    pub unhealthy : is_healthy broker opts s.0 s.1 ≡ false
    pub publishes_nothing :
        (now : W → ℕ) (args : PublishArgs)
        → publish_message broker opts now args s
          ≡ (err (error "RabbitMQ publisher channel not initialized"), s)
    pub consumes_nothing :
        (queue : String) (handler : H)
        → consume_queue broker opts queue handler s
          ≡ (err (error "RabbitMQ client not connected"), s)

  new-Released : (w : W) → Balanced new_client (book w) → Released (new_client, w)
  unfolding is_healthy publish_message publish consume_queue consume_from
  new-Released w v = record {
    holds_nothing = refl;
    all_closed = λ k. omega (arith, v.channels k);
    all_disconnected = omega (arith, v.connections);
    unhealthy = refl;
    publishes_nothing = λ now args. refl;
    consumes_nothing = λ queue handler. refl;
  }

  -- After any such sequence of calls, closing returns whatever the broker throws; then all channels
  -- and connections that were opened have been asked to close, the client holds none of them, is
  -- not healthy, and refuses to publish and to consume.
  pub close-Released :
      (ops : List (Operation W H)) (c : Client) (w : W)
      → Balanced c (book w)
      → ((close broker opts (run broker opts ops (c, w))).0 ≡ ok tt)
        × Released (close broker opts (run broker opts ops (c, w))).1
  close-Released ops c w v =
      let s = run broker opts ops (c, w) in
      let (w', ended, keeps) = close-ends broker book laws opts s.0 s.1 in
      (
        ap (λ (x : Result (Unit {0}) × (Client × W)). x.0) ended,
        subst Released (sym (ap (λ (x : Result (Unit {0}) × (Client × W)). x.1) ended))
            (new-Released w' (keeps (run-Balanced ops c w v))),
      )
