-- ===== src/Messaging/RabbitMqClient/Connection/Closing.antt =====
-- `close` gives back all that the client holds.
use logistics_platform.Prelude.{ℕ, ◌≡◌, refl, Option, none, some, List, [], ◌∷◌, arith, sym, subst}
use logistics_platform.Result.{ok}
use logistics_platform.Act.{Act}
use logistics_platform.Messaging.RabbitMqClient.{RabbitMqClientOptions}
use logistics_platform.Messaging.RabbitMqClient.Connection.{
  Broker, Client, new_client, close, close_from, close_each, close_if,
}
use logistics_platform.Messaging.RabbitMqClient.Connection.Books.{Book, IsBroker, Balanced}

module _ {W H : Type 0} (broker : Broker W H) (book : W → Book) (laws : IsBroker broker book)
    (opts : RabbitMqClientOptions) where
  close_each-ok : (chs : List ℕ) (w : W) → (close_each broker opts chs w).0 ≡ ok tt
  unfolding close_each
  close_each-ok [] w = refl
  close_each-ok (ch ∷ chs) w = close_each-ok chs _

  close_if-ok :
      (f : ℕ → Act W (Unit {0})) (o : Option ℕ) (w : W) → (close_if broker opts f o w).0 ≡ ok tt
  unfolding close_if
  close_if-ok f none w = refl
  close_if-ok f (some n) w = refl

  closed_channel-Balanced :
      (c : Client) (b : Book) (ch : ℕ) (chs : List ℕ)
      → Balanced (record c { consumer_channels = ch ∷ chs }) b
      → Balanced (record c { consumer_channels = chs }) (record b { closed = ch ∷ b.closed })
  closed_channel-Balanced c b ch chs v = record {
    channels = λ k. omega (arith, v.channels k);
    connections = v.connections;
    no_publisher = v.no_publisher;
    no_consumers = λ h. cc (v.no_consumers h);
  }

  close_each-Balanced :
      (c : Client) (chs : List ℕ) (w : W)
      → Balanced (record c { consumer_channels = chs }) (book w)
      → Balanced (record c { consumer_channels = [] }) (book (close_each broker opts chs w).1)
  unfolding close_each
  close_each-Balanced c [] w v = v
  close_each-Balanced c (ch ∷ chs) w v =
      close_each-Balanced c chs _
        (subst (Balanced _) (sym (laws.close_books ch w)) (closed_channel-Balanced c _ ch chs v))

  close_publisher-Balanced :
      (c : Client) (o : Option ℕ) (w : W)
      → Balanced (record c { pub_channel = o }) (book w)
      → Balanced
          (record c { pub_channel = none })
          (book (close_if broker opts broker.close_channel o w).1)
  unfolding close_if
  close_publisher-Balanced c none w v = v
  close_publisher-Balanced c (some ch) w v =
      subst (Balanced _) (sym (laws.close_books ch w)) (record {
        channels = λ k. omega (arith, v.channels k);
        connections = v.connections;
        no_publisher = λ h. refl;
        no_consumers = v.no_consumers;
      })

  disconnect-Balanced :
      (o : Option ℕ) (w : W)
      → Balanced (record new_client { connection = o }) (book w)
      → Balanced new_client (book (close_if broker opts broker.close_connection o w).1)
  unfolding close_if
  disconnect-Balanced none w v = v
  disconnect-Balanced (some n) w v = subst (Balanced _) (sym (laws.disconnect_books n w)) (record {
    channels = v.channels;
    connections = omega (arith, v.connections);
    no_publisher = λ h. refl;
    no_consumers = λ h. refl;
  })

  -- Closing always returns, with nothing held, whatever the calls of the library throw.
  pub close-ends :
      (c : Client) (w : W)
      → (w' : W) × (close broker opts (c, w) ≡ (ok tt, (new_client, w')))
        × (Balanced c (book w) → Balanced new_client (book w'))
  unfolding close close_from
  close-ends c w =
      let w1 = (close_each broker opts c.consumer_channels w).1 in
      let w2 = (close_if broker opts broker.close_channel c.pub_channel w1).1 in
      let w3 = (close_if broker opts broker.close_connection c.connection w2).1 in
      (
        w3,
        rw (close_each-ok c.consumer_channels w) (
            rw (close_if-ok broker.close_channel c.pub_channel w1)
              (rw (close_if-ok broker.close_connection c.connection w2) refl)),
        λ v. disconnect-Balanced c.connection w2 (
            close_publisher-Balanced (record c { consumer_channels = [] }) c.pub_channel w1
              (close_each-Balanced c c.consumer_channels w v)),
      )
