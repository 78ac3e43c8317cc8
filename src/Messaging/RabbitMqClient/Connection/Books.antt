-- ===== src/Messaging/RabbitMqClient/Connection/Books.antt =====
-- What the client was given and what it has given back, as the broker's books say.
use logistics_platform.Prelude.{
  ℕ, suc, ◌+◌, String, ◌≡◌, Option, none, some, List, [], ◌∷◌, ◌++◌, arith, eqb, if◌then◌else◌,
}
use logistics_platform.Result.{Result, ok, err}
use logistics_platform.Messaging.RabbitMqClient.{PublishOptions}
use logistics_platform.Json.{Json}
use logistics_platform.Messaging.RabbitMqClient.Connection.{
  Broker, Client, ConnectOptions, SetupCall,
}

-- The channels that the client was given and those that it has asked to close, and how often it was
-- connected and has asked to disconnect.
pub record Book : Type 0 where
  pub opened : List ℕ
  pub closed : List ℕ
  pub connects : ℕ
  pub disconnects : ℕ

abbrev pub after_connect : Result ℕ → Book → Book
after_connect (ok connection) b = record b { connects = suc b.connects }
after_connect (err e) b = b

abbrev pub after_create : Result ℕ → Book → Book
after_create (ok channel) b = record b { opened = channel ∷ b.opened }
after_create (err e) b = b

-- What each call of the library enters in the books.
pub record IsBroker {W H : Type 0} (broker : Broker W H) (book : W → Book) : Type 0 where
  pub connect_books :
      (urls : List String) (o : ConnectOptions) (w : W)
      → book (broker.connect urls o w).1 ≡ after_connect (broker.connect urls o w).0 (book w)
  pub create_books :
      (n : ℕ) (setup : List (SetupCall H)) (w : W)
      → book (broker.create_channel n setup w).1
        ≡ after_create (broker.create_channel n setup w).0 (book w)
  pub wait_books : (ch : ℕ) (w : W) → book (broker.wait_for_connect ch w).1 ≡ book w
  pub close_books :
      (ch : ℕ) (w : W)
      → book (broker.close_channel ch w).1 ≡ record (book w) { closed = ch ∷ (book w).closed }
  pub disconnect_books :
      (n : ℕ) (w : W)
      → book (broker.close_connection n w).1
        ≡ record (book w) { disconnects = suc (book w).disconnects }
  pub publish_books :
      (ch : ℕ) (exchange key : String) (body : Json) (o : PublishOptions) (w : W)
      → book (broker.channel_publish ch exchange key body o w).1 ≡ book w

abbrev pub count : ℕ → List ℕ → ℕ
count k [] = 0
count k (x ∷ xs) = (if eqb x k then 1 else 0) + count k xs

pub count-append : (k : ℕ) (xs ys : List ℕ) → count k (xs ++ ys) ≡ count k xs + count k ys
count-append k [] ys = omega arith
count-append k (x ∷ xs) ys = omega (arith, count-append k xs ys)

abbrev pub one_if : Option ℕ → ℕ
one_if none = 0
one_if (some n) = 1

abbrev pub count_if : ℕ → Option ℕ → ℕ
count_if k none = 0
count_if k (some n) = if eqb n k then 1 else 0

-- Each channel that was opened has been closed or is held, exactly once for each opening, and so is
-- each connection, of which one at most is held; without a connection no channel is held.
pub record Balanced (c : Client) (b : Book) : Type 0 where
  pub channels :
      (k : ℕ)
      → count k b.opened
        ≡ count k b.closed + (count_if k c.pub_channel + count k c.consumer_channels)
  pub connections : b.connects ≡ b.disconnects + one_if c.connection
  pub no_publisher : c.connection ≡ none → c.pub_channel ≡ none
  pub no_consumers : c.connection ≡ none → c.consumer_channels ≡ []

-- The books after a run are balanced with the fields of the client.
abbrev pub BalancedIn : {W : Type 0} → (W → Book) → Client × W → Type 0
BalancedIn book (c, w) = Balanced c (book w)

pub opening-Balanced :
    (c : Client) (b : Book) (n : ℕ)
    → Balanced c b
    → c.connection ≡ none
    → Balanced (record c { connection = some n }) (record b { connects = suc b.connects })
opening-Balanced c b n v e = record {
  channels = v.channels;
  connections = ground (arith, v.connections);
  no_publisher = λ h. cc;
  no_consumers = λ h. cc;
}

pub publisher-Balanced :
    (c : Client) (b : Book) (n ch : ℕ)
    → Balanced c b
    → c.connection ≡ some n
    → c.pub_channel ≡ none
    → Balanced (record c { pub_channel = some ch }) (record b { opened = ch ∷ b.opened })
publisher-Balanced c b n ch v e p = record {
  channels = λ k. ground (arith, v.channels k);
  connections = v.connections;
  no_publisher = λ h. cc;
  no_consumers = v.no_consumers;
}

pub consumer-Balanced :
    (c : Client) (b : Book) (n ch : ℕ)
    → Balanced c b
    → c.connection ≡ some n
    → Balanced
        (record c { consumer_channels = c.consumer_channels ++ ch ∷ [] })
        (record b { opened = ch ∷ b.opened })
consumer-Balanced c b n ch v e = record {
  channels = λ k. omega (arith, v.channels k, count-append k c.consumer_channels (ch ∷ []));
  connections = v.connections;
  no_publisher = v.no_publisher;
  no_consumers = λ h. cc;
}
