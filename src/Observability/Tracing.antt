-- ===== src/Observability/Tracing.antt =====
-- libs/observability/src/tracing/otel.ts, and what it keeps in the process: the module's `sdk` and the
-- listeners of its signals. The SDK of OpenTelemetry is a parameter: `S` is the type of its instances,
-- and what becomes of the promises that their `shutdown` returns is an argument.
use Prim.Native.String
use logistics_platform.Prelude.{
  String, Bool, true, false, ◌||◌, not, Option, none, some, List, [], ◌∷◌, ◌++◌, ◌==◌, or_else,
  if◌then◌else◌,
}

pub record OtelOptions : Type 0 where
  pub service_name : String
  pub service_version : String
  pub endpoint : Option String
  pub enabled : Option Bool

-- What the SDK is made with.
pub record SdkOptions : Type 0 where
  pub service_name : String
  pub service_version : String
  pub url : String

pub data Signal : Type 0 where
  sigint sigterm : Signal

abbrev pub same_signal : Signal → Signal → Bool
same_signal sigint sigint = true
same_signal sigterm sigterm = true
same_signal sigint sigterm = false
same_signal sigterm sigint = false

-- The listeners that the code registers: `startOtel` one that shuts the SDK down and exits, with `on`,
-- and a service one that calls `shutdownOtel`, with `once`.
pub data Listener : Type 0 where
  shutdown_and_exit shutdown_once : Listener

pub record Process (S : Type 0) : Type 0 where
  pub sdk : Option S
  pub listeners : List (Signal × Listener)
  -- the instances whose `shutdown` was called, in order
  pub shutdowns : List S
  pub has_exited : Bool

abbrev pub is_true : Option String → Bool
is_true none = false
is_true (some text) = text == "true"

-- `opts.enabled ?? process.env.OTEL_ENABLED === "true"`
abbrev pub is_enabled : (String → Option String) → OtelOptions → Bool
is_enabled env opts = or_else opts.enabled (is_true (env "OTEL_ENABLED"))

abbrev pub endpoint_of : (String → Option String) → OtelOptions → String
endpoint_of env opts =
    or_else opts.endpoint (or_else (env "OTEL_EXPORTER_OTLP_ENDPOINT") "http://localhost:4318")

module _ {S : Type 0} (new_sdk : SdkOptions → S) (env : String → Option String) where
  -- `startOtel`
  unfoldable pub start_otel : OtelOptions → Process S → Option S × Process S
  start_otel opts p =
      if is_enabled env opts
      then (let sdk = new_sdk (record {
        service_name = opts.service_name;
        service_version = opts.service_version;
        url = String.◌++◌ (endpoint_of env opts) "/v1/traces";
      }) in
          (
            some sdk,
            record p {
              sdk = some sdk;
              listeners = p.listeners ++ (sigterm, shutdown_and_exit) ∷ [];
            },
          ))
      else (none, p)

-- What becomes of a promise.
pub data Promised : Type 0 where
  resolved rejected pending : Promised

abbrev pub is_pending : Promised → Bool
is_pending pending = true
is_pending resolved = false
is_pending rejected = false

abbrev pub is_rejected : Promised → Bool
is_rejected rejected = true
is_rejected resolved = false
is_rejected pending = false

abbrev stays : Listener → Bool
stays shutdown_and_exit = true
stays shutdown_once = false

-- The listeners that are left behind a call of all: those of `once` are taken off.
unfoldable pub left_after : Signal → List (Signal × Listener) → List (Signal × Listener)
left_after signal [] = []
left_after signal ((other, l) ∷ ls) =
    let rest = left_after signal ls in
    if not (same_signal signal other) || stays l then (other, l) ∷ rest else rest

unfoldable pub listens : Signal → List (Signal × Listener) → Bool
listens signal [] = false
listens signal ((other, l) ∷ ls) = let rest = listens signal ls in same_signal signal other || rest

module _ {S : Type 0} (promised : Promised) where
  -- What follows `await sdk?.shutdown()`, of which no one handles the rejection: Node ends the process.
  abbrev awaited : Promised → Process S → Process S
  awaited resolved p = record p { sdk = none }
  awaited rejected p = record p { has_exited = true }
  awaited pending p = p

  -- `finally(() => process.exit(0))`
  abbrev finally_exits : Promised → Process S → Process S
  finally_exits pending p = p
  finally_exits resolved p = record p { has_exited = true }
  finally_exits rejected p = record p { has_exited = true }

  -- `await sdk?.shutdown(); sdk = null;`
  abbrev shut_down : Option S → Process S → Process S
  shut_down none p = record p { sdk = none }
  shut_down (some sdk) p = awaited promised (record p { shutdowns = p.shutdowns ++ sdk ∷ [] })

  -- `shutdownOtel`
  unfoldable pub shutdown_otel : Process S → Process S
  shutdown_otel p = shut_down p.sdk p

  -- `sdk?.shutdown().finally(() => process.exit(0))`, where `?.` leaves the whole chain out
  abbrev exit_with : Option S → Process S → Process S
  exit_with none p = p
  exit_with (some sdk) p = finally_exits promised (record p { shutdowns = p.shutdowns ++ sdk ∷ [] })

  unfoldable pub call_listener : Listener → Process S → Process S
  unfolding shutdown_otel
  call_listener shutdown_and_exit p = exit_with p.sdk p
  call_listener shutdown_once p = shutdown_otel p

  -- The listeners of a signal are called in their order.
  unfoldable pub call_all : Signal → List (Signal × Listener) → Process S → Process S
  unfolding call_listener
  call_all signal [] p = p
  call_all signal ((other, l) ∷ ls) p =
      let called = call_all signal ls (call_listener l p) in
      let passed = call_all signal ls p in if same_signal signal other then called else passed

  -- A signal arrives, at a process that has not ended: without a listener it ends.
  unfoldable pub receive : Signal → Process S → Process S
  unfolding call_all left_after listens
  receive signal p =
      if p.has_exited
      then p
      else if listens signal p.listeners
      then call_all signal p.listeners (record p { listeners = left_after signal p.listeners })
      else record p { has_exited = true }
