-- ===== src/Tests/Redrive.antt =====
-- Redriving two messages.
use logistics_platform.Prelude.{
  ℕ, String, false, ◌≡◌, refl, true, Option, none, some, [], ◌∷◌, ◌++◌, ◌==◌, if◌then◌else◌,
}
use logistics_platform.Json.{Json, obj, end}
use logistics_platform.Result.{ok, map_all}
use logistics_platform.Text.{trim_start, is_space}
use logistics_platform.Number.{double}
use logistics_platform.Redrive.Counts.{parse_int, max_count}
use logistics_platform.Redrive.Peek.{peek, shown}
use logistics_platform.Redrive.Peek.Shown.{read, peek-loses}
use logistics_platform.Redrive.Limits.{limit, selected, unselected}
use logistics_platform.Redrive.Listing.{
  Connection, reply_of, IsConnection, known_dlqs, report, list, list-report,
}
use logistics_platform.Number.{nat}
use logistics_platform.Redrive.{Message, Queues, Redriving, redrive_loop, redrive}
use logistics_platform.Redrive.Names.{target_queue}
use logistics_platform.Redrive.Runs.{Redriven, started, redrive-Redriven}
use logistics_platform.Redrive.Endless.{redrive-stuck, redrive_circular}

abbrev message : Message
message = record {
  message_id = some "m1";
  routing_key = "order.created";
  timestamp = none;
  content = "{}";
  headers = none;
}

abbrev clock : ℕ → String
clock n = "2026-01-01T00:00:00.000Z"

abbrev queues : Queues
queues q =
    if q == "tracking.order.created.dlq"
    then message ∷ message ∷ []
    else if q == "tracking.order.created"
    then message ∷ []
    else []

redrive-Redriven_example :
    (st' : Redriving) × (redrive (λ m. true) "tracking.order.created.dlq" clock "1" 3 queues
      ≡ some st')
    × Redriven
        (λ m. true)
        "tracking.order.created"
        clock
        (message ∷ [])
        (message ∷ [])
        (started queues)
        st'
unfolding parse_int trim_start is_space double max_count
redrive-Redriven_example =
    redrive-Redriven (λ m. true) "tracking.order.created" clock "1" queues (refl, tt)

redrive-stuck_example :
    redrive_loop (λ m. false) "tracking.order.created.dlq" clock (nat 1) 100 (started queues) ≡ none
redrive-stuck_example =
    redrive-stuck (λ m. false) "tracking.order.created.dlq" clock 100 (nat 1) message (message ∷ [])
      (started queues) refl refl refl

redrive_circular_example :
    redrive (λ m. true) "tracking.order.created" clock "all" 100 queues ≡ none
unfolding target_queue
redrive_circular_example =
    redrive_circular (λ m. true) "tracking.order.created" clock 100 message [] queues (λ m. refl)
      refl refl

target_queue_test : target_queue "tracking.order.created.dlq" ≡ "tracking.order.created"
unfolding target_queue
target_queue_test = refl

abbrev parse : String → Option Json
parse text = if text == "{}" then some (obj end) else none

peek-loses_example :
    let left = limit (parse_int "1") in
    (peek parse "1" (message ∷ message ∷ []) (message ∷ [])
      ≡ (map_all (read parse) (selected left (message ∷ message ∷ [])), message ∷ []))
    × (message ∷ message ∷ []
        ≡ selected left (message ∷ message ∷ []) ++ unselected left (message ∷ message ∷ []))
peek-loses_example = peek-loses parse "1" (message ∷ message ∷ []) (message ∷ [])

peek_test :
    peek parse "1" (message ∷ message ∷ []) (message ∷ [])
    ≡ (ok (shown message (obj end) ∷ []), message ∷ [])
unfolding peek parse_int trim_start is_space double
peek_test = refl

-- A broker that has the second of the three queues.
abbrev has : String → Option ℕ
has queue = if queue == "notification.order.created.dlq" then some 4 else none

abbrev connection : Connection (Unit {0})
connection = record {
  assert_queue = λ name exclusive w. (ok tt, w);
  check_queue = λ queue w. (reply_of (has queue), w);
  close = λ w. (ok tt, w);
}

connection-IsConnection : IsConnection (λ v. has) connection
connection-IsConnection = record {
  checks = λ queue w. refl;
  check_keeps = λ queue other w. refl;
  asserts = λ name w. refl;
  assert_keeps = λ name other w. refl;
  closes = λ w. refl;
}

list-report_example : (list connection tt).0 ≡ ok (report has known_dlqs)
list-report_example = list-report (λ v. has) connection connection-IsConnection tt

-- Nothing is printed, though the second queue is there.
list_test : (list connection tt).0 ≡ ok (record { printed = []; has_ended = true })
unfolding list
list_test = refl
