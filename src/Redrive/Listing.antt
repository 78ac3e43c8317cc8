-- ===== src/Redrive/Listing.antt =====
-- tools/dlq-redrive/src/index.ts: the command `list`. The channel is a parameter. The code listens to none
-- of its events, so that an event 'error' ends the process.
use logistics_platform.Prelude.{
  ℕ, String, ◌≡◌, refl, ◌∙◌, ap, inl, inr, Bool, Bool-cases, true, false, Option, none, some, List,
  [], ◌∷◌, if◌then◌else◌,
}
use logistics_platform.Result.{Failure, Result, ok, err}
use logistics_platform.Act.{Act}

-- What is printed of a queue: its messages, or "(queue not found)".
pub data Line : Type 0 where
  messages : (queue : String) → ℕ → Line
  queue_not_found : (queue : String) → Line

abbrev pub known_dlqs : List String
known_dlqs =
    "tracking.order.created.dlq" ∷ "notification.order.created.dlq"
    ∷ "notification.shipment.status_changed.dlq" ∷ []

-- What comes of `checkQueue`: the number of messages, an exception, or the event 'error' of the channel.
pub data Reply : Type 0 where
  counted : ℕ → Reply
  threw : Failure → Reply
  error_event : Reply

pub record Connection (W : Type 0) : Type 0 where
  pub assert_queue : (name : String) (exclusive : Bool) → Act W (Unit {0})
  pub check_queue : String → W → Reply × W
  pub close : Act W (Unit {0})

-- The lines that were printed, and whether the process has ended behind them.
pub record Output : Type 0 where
  pub printed : List Line
  pub has_ended : Bool

abbrev pub also : Line → Output → Output
also line out = record out { printed = line ∷ out.printed }

-- `finally { await connection.close() }`: a failure of the closing replaces the result.
abbrev closed_result : {A : Type 0} → Result (Unit {0}) → Result A → Result A
closed_result (ok u) r = r
closed_result (err e) r = err e

abbrev finally_closed : {A W : Type 0} → Act W (Unit {0}) → Result A × W → Result A × W
finally_closed close (result, w) = let (closing, w') = close w in (closed_result closing result, w')

module _ {W : Type 0} (connection : Connection W) where
  open connection use {assert_queue, check_queue, close}

  -- The line of a queue, by the reply, and what follows it.
  line_of : String → Reply → Output × W → W → Output × W
  line_of queue (counted n) (rest, w) now = (also (messages queue n) rest, w)
  line_of queue (threw e) (rest, w) now = (also (queue_not_found queue) rest, w)
  line_of queue error_event after now = (record { printed = []; has_ended = true }, now)

  unfoldable pub lines : List String → W → Output × W
  unfolding line_of
  lines [] w = (record { printed = []; has_ended = false }, w)
  lines (queue ∷ queues) w =
      let (reply, w') = check_queue queue w in line_of queue reply (lines queues w') w'

  -- A process that has ended runs no `finally`.
  abbrev finished : Output × W → Result Output × W
  finished (out, w) = if out.has_ended then (ok out, w) else finally_closed close (ok out, w)

  abbrev listed : Result (Unit {0}) × W → Result Output × W
  listed (ok u, w) = finished (lines known_dlqs w)
  listed (err e, w) = finally_closed close (err e, w)

  unfoldable pub list : W → Result Output × W
  unfolding lines
  list w = listed (assert_queue "" true w)

-- What a queue's count is in the broker. The passive declaration of a missing queue makes the broker
-- close the channel, upon which the library emits the event 'error'.
abbrev pub reply_of : Option ℕ → Reply
reply_of (some n) = counted n
reply_of none = error_event

module _ {W : Type 0} (messages_in : W → String → Option ℕ) where
  pub record IsConnection (connection : Connection W) : Type 0 where
    pub checks :
        (queue : String) (w : W)
        → (connection.check_queue queue w).0 ≡ reply_of (messages_in w queue)
    pub check_keeps :
        (queue other : String) (w : W)
        → messages_in (connection.check_queue queue w).1 other ≡ messages_in w other
    pub asserts : (name : String) (w : W) → (connection.assert_queue name true w).0 ≡ ok tt
    pub assert_keeps :
        (name other : String) (w : W)
        → messages_in (connection.assert_queue name true w).1 other ≡ messages_in w other
    pub closes : (w : W) → (connection.close w).0 ≡ ok tt

-- The counts of the queues up to the first that is missing.
pub counts : (String → Option ℕ) → List String → List Line
counts has [] = []
counts has (queue ∷ queues) = elim (has queue) [
  | some n ↦ messages queue n ∷ counts has queues
  | none ↦ []
]

-- One of the queues is missing.
pub lacks : (String → Option ℕ) → List String → Bool
lacks has [] = false
lacks has (queue ∷ queues) = elim (has queue) [ some n ↦ lacks has queues | none ↦ true ]

abbrev pub report : (String → Option ℕ) → List String → Output
report has queues = record { printed = counts has queues; has_ended = lacks has queues }

module _ {W : Type 0} (messages_in : W → String → Option ℕ) (connection : Connection W)
    (laws : IsConnection messages_in connection) where
  line-report :
      (found : Option ℕ) (queue : String) (queues : List String) (has : String → Option ℕ)
      (after : Output × W) (now : W)
      → has queue ≡ found
      → after.0 ≡ report has queues
      → (line_of connection queue (reply_of found) after now).0 ≡ report has (queue ∷ queues)
  unfolding line_of counts lacks
  line-report (some n) queue queues has after now e ih =
      rw (e, counts, lacks) (ap (also (messages queue n)) ih)
  line-report none queue queues has after now e ih = rw (e, counts, lacks) refl

  lines-report :
      (queues : List String) (w : W) (has : String → Option ℕ)
      → ((queue : String) → messages_in w queue ≡ has queue)
      → (lines connection queues w).0 ≡ report has queues
  unfolding lines counts lacks
  lines-report [] w has same = refl
  lines-report (queue ∷ queues) w has same = rw (laws.checks queue w ∙ ap reply_of (same queue)) (
      line-report (has queue) queue queues has _ _ refl
        (lines-report queues _ has (λ other. laws.check_keeps queue other w ∙ same other)))

  finished-eq : (out : Output × W) → (finished connection out).0 ≡ ok out.0
  finished-eq (out, w) = elim (Bool-cases out.has_ended) [
    | inl gone ↦ rw gone refl
    | inr here ↦ rw here (rw (laws.closes w) refl)
  ]

  -- For a broker whose queues stand still and a connection whose other calls succeed, where the
  -- passive declaration of a missing queue closes the channel with an event 'error', the command
  -- list prints the counts of the known queues up to the first one that is missing; if one is
  -- missing, the process ends there, so that nothing is printed for it or for the queues behind it,
  -- and otherwise the command returns.
  pub list-report : (w : W) → (list connection w).0 ≡ ok (report (messages_in w) known_dlqs)
  unfolding list
  list-report w = rw (laws.asserts "" w) (
      finished-eq _
      ∙ ap ok (lines-report known_dlqs _ (messages_in w) (λ q. laws.assert_keeps "" q w)))
