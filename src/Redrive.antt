-- ===== src/Redrive.antt =====
-- tools/dlq-redrive/src/index.ts: the command `redrive`. The broker is a parameter: whether
-- `sendToQueue` takes a message or throws. The other commands are in `Peek` and `Listing`.
pub mod Names
pub mod Counts
pub mod Limits
pub mod Runs
pub mod Endless
pub mod Peek
pub mod Listing
use logistics_platform.Prelude.{
  ℕ, zero, suc, ◌+◌, String, Bool, true, false, Option, none, some, List, [], ◌∷◌, ◌++◌, ◌==◌, ltb,
  leb, or_else, if◌then◌else◌,
}
use logistics_platform.Number.{Number, nat, neg, fraction, infinity, nan}
use logistics_platform.Json.{Json, str}
use logistics_platform.Redrive.Names.{target_queue}
use logistics_platform.Redrive.Counts.{max_count}

pub record Message : Type 0 where
  pub message_id : Option String
  pub routing_key : String
  pub timestamp : Option ℕ
  pub content : String
  pub headers : Option (List (String × Json))

-- `{ ...headers, [key]: value }`: an old value is replaced in its place.
unfoldable pub set_header : String → Json → List (String × Json) → List (String × Json)
set_header key value [] = (key, value) ∷ []
set_header key value ((k, v) ∷ hs) =
    let rest = set_header key value hs in if k == key then (k, value) ∷ hs else (k, v) ∷ rest

-- What the queues of the broker hold, by their names.
abbrev pub Queues : Type 0
Queues = String → List Message

abbrev pub set_queue : Queues → String → List Message → Queues
set_queue queues name ms q = if q == name then ms else queues q

-- The queues, and what the command counts.
pub record Redriving : Type 0 where
  pub queues : Queues
  pub redriven : List String
  pub failed : List String
  pub processed : ℕ

abbrev pub id_of : Message → String
id_of m = or_else m.message_id "unknown"

-- What is sent: `queue` is the name of the dead-letter queue, `time` the time of the sending.
-- `sendToQueue` publishes under the name of the target queue, over the default exchange.
unfoldable pub stamped : (queue time : String) → Message → Message
unfolding set_header
stamped queue time m = record m {
  routing_key = target_queue queue;
  headers = some (
      set_header "x-redriven-at" (str time)
        (set_header "x-redriven-from-dlq" (str queue) (or_else m.headers [])));
}

-- `n < count`, which is false for NaN
abbrev pub below : ℕ → Number → Bool
below n (nat count) = ltb n count
below n (neg count) = false
below n (fraction minus whole digits) = if minus then false else leb n whole
below n (infinity minus) = if minus then false else true
below n nan = false

module _ (accepts : Message → Bool) (queue : String) (clock : ℕ → String) where
  -- One message that `get` has taken from the queue, where it leaves `rest`. A message that is not
  -- sent is requeued, and comes first again.
  unfoldable pub redrive_one : Message → List Message → Redriving → Redriving
  redrive_one m rest st =
      let taken = set_queue st.queues queue rest in
      let target = target_queue queue in
      if accepts m
      then record {
        queues = set_queue taken target (taken target ++ stamped queue (clock st.processed) m ∷ []);
        redriven = st.redriven ++ id_of m ∷ [];
        failed = st.failed;
        processed = st.processed + 1;
      }
      else record {
        queues = set_queue taken queue (m ∷ rest);
        redriven = st.redriven;
        failed = st.failed ++ id_of m ∷ [];
        processed = st.processed;
      }

  module _ (limit : Number) where
    -- The rounds of the loop; `none` where the fuel is used up before it ends.
    unfoldable pub redrive_loop : (fuel : ℕ) → Redriving → Option Redriving
    unfolding redrive_one
    redrive_loop zero st = none
    redrive_loop (suc fuel) st = elim (below st.processed limit) [
      | false ↦ some st
      | true ↦ elim (st.queues queue) [
        | [] ↦ some st
        | m ∷ rest ↦ redrive_loop fuel (redrive_one m rest st)
      ]
    ]

-- The command, with the text of its option `--count`.
unfoldable pub redrive :
    (Message → Bool)
    → (queue : String) → (ℕ → String)
    → (count : String) → (fuel : ℕ) → Queues
    → Option Redriving
unfolding redrive_loop max_count
redrive accepts queue clock count fuel queues =
    redrive_loop accepts queue clock (max_count count) fuel
      (record { queues = queues; redriven = []; failed = []; processed = 0 })
