-- ===== src/Messaging/Relay/Control.antt =====
-- The flags and the timer of the relay, as the calls change them while a tick waits for the
-- database or the broker.
use logistics_platform.Prelude.{
  ℕ, ◌≡◌, ◌≢◌, ◌⊎◌, Bool, true, false, ◌||◌, not, Option, none, some, arith, if◌then◌else◌,
}

-- `timer` is the delay of the timeout that is set and has not fired.
pub record Control : Type 0 where
  pub timer : Option ℕ
  pub running : Bool
  pub wake_requested : Bool
  pub stopped : Bool

abbrev pub initial : Control
initial = record { timer = none; running = false; wake_requested = false; stopped = false }

unfoldable pub schedule_next_tick : ℕ → Control → Control
schedule_next_tick delay c = if c.stopped then c else record c { timer = some delay }

unfoldable pub on_module_init : Control → Control
unfolding schedule_next_tick
on_module_init c = schedule_next_tick 0 c

unfoldable pub on_module_destroy : Control → Control
on_module_destroy c = record c { stopped = true; timer = none }

unfoldable pub wake : Control → Control
unfolding schedule_next_tick
wake c =
    let requested = record c { wake_requested = true } in
    if not c.running then schedule_next_tick 0 requested else requested

-- The start of `tick`, up to the first wait; `none` where it returns 0 at once.
unfoldable pub begin_tick : Control → Option Control
begin_tick c =
    if c.running || c.stopped
    then none
    else some (record c { running = true; wake_requested = false })

-- its `finally`
unfoldable pub finish_tick : ℕ → Control → Control
unfolding schedule_next_tick
finish_tick poll_interval_ms c =
    let idle = record c { running = false } in
    if not c.stopped
    then schedule_next_tick (if c.wake_requested then 0 else poll_interval_ms) idle
    else idle

abbrev pub or_same : Control → Option Control → Control
or_same c none = c
or_same c (some c') = c'

-- What can happen between two waits. A timeout fires once and calls `tick`, which anyone may call;
-- a tick that runs ends, however its work went.
pub data Step (poll : ℕ) (c c' : Control) : Type 0 where
  fire :
      (d : ℕ)
      → c.timer ≡ some d
      → c' ≡ or_same (record c { timer = none }) (begin_tick (record c { timer = none }))
      → Step poll c c'
  call_tick : c' ≡ or_same c (begin_tick c) → Step poll c c'
  finish : c.running ≡ true → c' ≡ finish_tick poll c → Step poll c c'
  call_wake : c' ≡ wake c → Step poll c c'
  destroy : c' ≡ on_module_destroy c → Step poll c c'

-- The states that a relay reaches once its module is initialised.
pub data Reach (poll : ℕ) : Control → Type 0 where
  start : {c : Control} → c ≡ on_module_init initial → Reach poll c
  next : {c c' : Control} → Reach poll c → Step poll c c' → Reach poll c'

pub record IsSound (c : Control) : Type 0 where
  -- a live relay has a tick under way or a timeout set
  pub alive : c.stopped ≡ false → (c.running ≡ true) ⊎ (c.timer ≢ none)
  -- a request to wake that no tick has taken up is followed by a tick at once
  pub awake : c.stopped ≡ false → c.running ≡ false → c.wake_requested ≡ true → c.timer ≡ some 0
  -- a stopped relay sets no timeout
  pub quiet : c.stopped ≡ true → c.timer ≡ none

Step-IsSound : (poll : ℕ) (c c' : Control) → IsSound c → Step poll c c' → IsSound c'
unfolding schedule_next_tick begin_tick finish_tick wake on_module_destroy
Step-IsSound poll c c' s (fire d armed e) = ground arith
Step-IsSound poll c c' s (call_tick e) = ground arith
Step-IsSound poll c c' s (finish runs e) = ground arith
Step-IsSound poll c c' s (call_wake e) = ground arith
Step-IsSound poll c c' s (destroy e) = ground arith

-- In every state that the relay reaches by timeouts, calls of tick, wake and on_module_destroy and
-- ends of ticks, a relay that is not stopped has a tick under way or a timeout set, a wake-up that
-- no tick has taken up is followed by a timeout of 0 once no tick runs, and a stopped relay has no
-- timeout set.
pub Reach-IsSound : (poll : ℕ) {c : Control} → Reach poll c → IsSound c
unfolding on_module_init
Reach-IsSound poll (start e) = ground arith
Reach-IsSound poll (next {c} {c'} r st) = Step-IsSound poll c c' (Reach-IsSound poll r) st
