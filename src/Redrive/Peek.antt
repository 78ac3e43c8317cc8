-- ===== src/Redrive/Peek.antt =====
-- tools/dlq-redrive/src/index.ts: the command `peek`. How many messages the broker delivers within the
-- second that the command waits, and what `JSON.parse` returns, are parameters.
pub mod Shown
use logistics_platform.Prelude.{
  ℕ, zero, suc, ◌+◌, ◌-◌, leb, String, ◌≡◌, refl, ap, inl, inr, Bool, true, false, not, Bool-cases,
  Option, none, some, List, [], ◌∷◌, ◌++◌, map, length, All, or_else, arith, if◌then◌else◌,
}
use logistics_platform.Number.{Number, nat, neg, fraction, infinity, nan}
use logistics_platform.Json.{Json}
use logistics_platform.Result.{error, Result, ok, err, ◌>>=◌}
use logistics_platform.Redrive.{Message, below}
use logistics_platform.Redrive.Counts.{parse_int}

pub record DlqMessage : Type 0 where
  pub message_id : Option String
  pub routing_key : String
  pub timestamp : Option ℕ
  pub content : Json
  pub headers : List (String × Json)

-- `n >= count`, which is false for NaN
abbrev pub at_least : ℕ → Number → Bool
at_least n nan = false
at_least n count = not (below n count)

abbrev pub shown : Message → Json → DlqMessage
shown m content = record {
  message_id = m.message_id;
  routing_key = m.routing_key;
  timestamp = m.timestamp;
  content = content;
  headers = or_else m.headers [];
}

module _ (parse : String → Option Json) (count : Number) where
  abbrev pub parsed : Message → Option Json → List DlqMessage → Result (List DlqMessage)
  parsed m none messages = err (error "SyntaxError")
  parsed m (some content) messages = ok (messages ++ shown m content ∷ [])

  -- The callback of `consume`, which pushes to `messages`.
  on_delivery : Option Message → List DlqMessage → Result (List DlqMessage)
  on_delivery none messages = ok messages
  on_delivery (some m) messages =
      if at_least (length messages) count then ok messages else parsed m (parse m.content) messages

  -- The deliveries of the second; an exception in the callback ends the command.
  unfoldable pub deliveries : List Message → List DlqMessage → Result (List DlqMessage)
  unfolding on_delivery
  deliveries [] messages = ok messages
  deliveries (m ∷ ms) messages = do
    messages' ← on_delivery (some m) messages
    deliveries ms messages'

-- The option `noAck` of the consumer.
abbrev pub no_ack : Bool
no_ack = true

-- What the queue holds when the connection is closed: with `noAck` the broker forgets a message as it
-- delivers it, and otherwise it takes back what was not acknowledged.
abbrev pub remaining : Bool → (delivered waiting : List Message) → List Message
remaining true delivered waiting = waiting
remaining false delivered waiting = delivered ++ waiting

-- What the command prints, and the queue that it leaves.
unfoldable pub peek :
    (String → Option Json)
    → (count : String) (delivered waiting : List Message) → Result (List DlqMessage) × List Message
unfolding deliveries
peek parse count delivered waiting =
    (deliveries parse (parse_int count) delivered [], remaining no_ack delivered waiting)
