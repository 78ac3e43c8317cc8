-- ===== src/Messaging/RabbitMqClient/Connection/Opening.antt =====
-- `connect` and `consume` keep the books balanced.
use logistics_platform.Prelude.{ℕ, String, ◌≡◌, refl, Option, none, some, [], ◌∷◌, ◌++◌, sym, subst}
use logistics_platform.Result.{Result, ok, err}
use logistics_platform.Act.{continue, ◌>>=◌, ◌>>◌}
use logistics_platform.Messaging.RabbitMqClient.{RabbitMqClientOptions}
use logistics_platform.Messaging.RabbitMqClient.Connection.{
  Broker, Client, connect, connect_from, consume_queue, consume_from, publisher_setup,
  consumer_setup, call, write, connect_options,
}
use logistics_platform.Messaging.RabbitMqClient.Connection.Books.{
  Book, IsBroker, Balanced, BalancedIn, after_connect, after_create, opening-Balanced,
  publisher-Balanced, consumer-Balanced,
}

module _ {W H : Type 0} (broker : Broker W H) (book : W → Book) (laws : IsBroker broker book)
    (opts : RabbitMqClientOptions) where
  -- `waitForConnect` changes no field and no book, whether it returns or throws.
  waiting-Balanced :
      (c : Client) (ch : ℕ) (w : W)
      → Balanced c (book w)
      → BalancedIn book (c, (broker.wait_for_connect ch w).1)
  waiting-Balanced c ch w v = subst (Balanced c) (sym (laws.wait_books ch w)) v

  -- What follows the creation of the publisher's channel, by what the creation returned.
  publisher_created-Balanced :
      (r : Result ℕ) (c : Client) (n : ℕ) (b : Book) (w : W)
      → book w ≡ after_create r b
      → Balanced c b
      → c.connection ≡ some n
      → c.pub_channel ≡ none
      → BalancedIn book
          (continue
            (r, (c, w))
            (λ ch.
              write broker opts (λ c'. record c' { pub_channel = some ch })
              >> call broker opts (broker.wait_for_connect ch))).1
  publisher_created-Balanced (ok ch) c n b w e v at p =
      waiting-Balanced _ ch w (subst (Balanced _) (sym e) (publisher-Balanced c b n ch v at p))
  publisher_created-Balanced (err x) c n b w e v at p = subst (Balanced c) (sym e) v

  connected-Balanced :
      (r : Result ℕ) (c : Client) (b : Book) (w : W)
      → book w ≡ after_connect r b
      → Balanced c b
      → c.connection ≡ none
      → BalancedIn book
          (continue
            (r, (c, w))
            (λ connection.
              write broker opts (λ c'. record c' { connection = some connection })
              >> call broker opts (broker.create_channel connection (publisher_setup opts))
              >>= λ ch.
                  write broker opts (λ c'. record c' { pub_channel = some ch })
                  >> call broker opts (broker.wait_for_connect ch))).1
  connected-Balanced (ok n) c b w e v at =
      publisher_created-Balanced (broker.create_channel n (publisher_setup opts) w).0
        (record c { connection = some n }) n (book w) _
        (laws.create_books n (publisher_setup opts) w)
        (subst (Balanced _) (sym e) (opening-Balanced c b n v at)) refl (v.no_publisher at)
  connected-Balanced (err x) c b w e v at = subst (Balanced c) (sym e) v

  connect_from-Balanced :
      (o : Option ℕ) (c : Client) (w : W)
      → c.connection ≡ o
      → Balanced c (book w)
      → BalancedIn book (connect_from broker opts o (c, w)).1
  unfolding connect_from
  connect_from-Balanced (some n) c w e v = v
  connect_from-Balanced none c w e v =
      connected-Balanced _ c (book w) _ (laws.connect_books (opts.url ∷ []) connect_options w) v e

  consumer_created-Balanced :
      (r : Result ℕ) (c : Client) (n : ℕ) (b : Book) (w : W)
      → book w ≡ after_create r b
      → Balanced c b
      → c.connection ≡ some n
      → BalancedIn book
          (continue
            (r, (c, w))
            (λ ch.
              write broker opts
                (λ c'. record c' { consumer_channels = c'.consumer_channels ++ ch ∷ [] })
              >> call broker opts (broker.wait_for_connect ch))).1
  consumer_created-Balanced (ok ch) c n b w e v at =
      waiting-Balanced _ ch w (subst (Balanced _) (sym e) (consumer-Balanced c b n ch v at))
  consumer_created-Balanced (err x) c n b w e v at = subst (Balanced c) (sym e) v

  consume_from-Balanced :
      (o : Option ℕ) (queue : String) (h : H) (c : Client) (w : W)
      → c.connection ≡ o
      → Balanced c (book w)
      → BalancedIn book (consume_from broker opts o queue h (c, w)).1
  unfolding consume_from
  consume_from-Balanced none queue h c w e v = v
  consume_from-Balanced (some n) queue h c w e v =
      consumer_created-Balanced _ c n (book w) _
        (laws.create_books n (consumer_setup opts queue h) w) v e

  pub connect-Balanced :
      (c : Client) (w : W) → Balanced c (book w) → BalancedIn book (connect broker opts (c, w)).1
  unfolding connect
  connect-Balanced c w v = connect_from-Balanced c.connection c w refl v

  pub consume_queue-Balanced :
      (queue : String) (h : H) (c : Client) (w : W)
      → Balanced c (book w)
      → BalancedIn book (consume_queue broker opts queue h (c, w)).1
  unfolding consume_queue
  consume_queue-Balanced queue h c w v = consume_from-Balanced c.connection queue h c w refl v
