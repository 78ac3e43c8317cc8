-- ===== src/Tests/Client.antt =====
-- The RabbitMQ client, over a broker that keeps its books and never lets a channel be closed.
use logistics_platform.Prelude.{ℕ, suc, ◌≡◌, refl, true, List, [], ◌∷◌, length}
use logistics_platform.Result.{error, ok, err}
use logistics_platform.Messaging.RabbitMqClient.Connection.{
  Broker, new_client, connect, consume_queue, close,
}
use logistics_platform.Messaging.RabbitMqClient.Connection.Books.{
  Book, IsBroker, Balanced, BalancedIn,
}
use logistics_platform.Messaging.RabbitMqClient.Connection.Runs.{
  Operation, connects, closes, consumes, run, run-Balanced, Released, close-Released,
}
use logistics_platform.Tests.Relay.{client_options}

abbrev broker : Broker Book ℕ
broker = record {
  connect = λ urls o b. (ok b.connects, record b { connects = suc b.connects });
  create_channel =
      λ n setup b. (ok (length b.opened), record b { opened = length b.opened ∷ b.opened });
  wait_for_connect = λ ch b. (ok tt, b);
  close_channel = λ ch b. (err (error "closed already"), record b { closed = ch ∷ b.closed });
  close_connection = λ n b. (ok tt, record b { disconnects = suc b.disconnects });
  is_connected = λ n b. true;
  channel_publish = λ ch exchange key body o b. (ok tt, b);
}

broker-IsBroker : IsBroker broker (λ b. b)
broker-IsBroker = record {
  connect_books = λ urls o b. refl;
  create_books = λ n setup b. refl;
  wait_books = λ ch b. refl;
  close_books = λ ch b. refl;
  disconnect_books = λ n b. refl;
  publish_books = λ ch exchange key body o b. refl;
}

abbrev no_book : Book
no_book = record { opened = []; closed = []; connects = 0; disconnects = 0 }

new-Balanced : Balanced new_client no_book
new-Balanced = record {
  channels = λ k. refl;
  connections = refl;
  no_publisher = λ h. refl;
  no_consumers = λ h. refl;
}

abbrev calls : List (Operation Book ℕ)
calls = connects ∷ consumes "tracking.order.created" 1 ∷ connects ∷ closes ∷ connects ∷ []

run-Balanced_example : BalancedIn (λ b. b) (run broker client_options calls (new_client, no_book))
run-Balanced_example =
    run-Balanced broker (λ b. b) broker-IsBroker client_options calls new_client no_book
      new-Balanced

close-Released_example :
    let s = run broker client_options calls (new_client, no_book) in
    ((close broker client_options s).0 ≡ ok tt)
    × Released broker (λ b. b) broker-IsBroker client_options (close broker client_options s).1
close-Released_example =
    close-Released broker (λ b. b) broker-IsBroker client_options calls new_client no_book
      new-Balanced

calls_test :
    (run broker client_options calls (new_client, no_book)).1
    ≡ record { opened = 2 ∷ 1 ∷ 0 ∷ []; closed = 0 ∷ 1 ∷ []; connects = 2; disconnects = 1 }
unfolding run connect consume_queue close
calls_test = refl
