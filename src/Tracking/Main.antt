-- ===== src/Tracking/Main.antt =====
-- apps/tracking-service/src/main.ts, as far as it deals with tracing and signals.
use Prim.Native.String
use logistics_platform.Prelude.{
  ℕ, zero, suc, String, ◌≡◌, refl, sym, subst, Bool, true, false, ◌&&◌, not, Option, none, some,
  List, [], ◌∷◌, ◌++◌, if◌then◌else◌,
}
use logistics_platform.Observability.Tracing.{
  OtelOptions, SdkOptions, sigint, sigterm, shutdown_and_exit, shutdown_once, Promised, resolved,
  rejected, pending, is_pending, is_rejected, Process, is_enabled, endpoint_of, start_otel,
  shutdown_otel, call_listener, call_all, left_after, listens, receive,
}

abbrev pub otel_options : OtelOptions
otel_options = record {
  service_name = "tracking-service";
  service_version = "0.1.0";
  endpoint = none;
  enabled = none;
}

module _ {S : Type 0} (new_sdk : SdkOptions → S) (env : String → Option String) where
  abbrev pub started : Process S → Process S
  started p = (start_otel new_sdk env otel_options p).1

  -- `bootstrap()` as far as its first `await`, and the loop behind it
  unfoldable pub main : Process S → Process S
  unfolding start_otel
  main p =
      let p' = started p in
      record p' {
        listeners = p'.listeners ++ (sigint, shutdown_once) ∷ (sigterm, shutdown_once) ∷ [];
      }

  abbrev pub idle : Process S
  idle = record { sdk = none; listeners = []; shutdowns = []; has_exited = false }

  -- The SDK that `bootstrap` starts, where it starts one.
  abbrev pub tracer : S
  tracer = new_sdk (record {
    service_name = "tracking-service";
    service_version = "0.1.0";
    url = String.◌++◌ (endpoint_of env otel_options) "/v1/traces";
  })

  -- The process behind `main`, with tracing or without.
  abbrev running : Bool → Process S
  running true = record {
    sdk = some tracer;
    listeners =
        (sigterm, shutdown_and_exit) ∷ (sigint, shutdown_once) ∷ (sigterm, shutdown_once) ∷ [];
    shutdowns = [];
    has_exited = false;
  }
  running false = record {
    sdk = none;
    listeners = (sigint, shutdown_once) ∷ (sigterm, shutdown_once) ∷ [];
    shutdowns = [];
    has_exited = false;
  }

  abbrev outcome : Bool → Option S × Process S
  outcome b =
      if b
      then (
        some tracer,
        record idle { sdk = some tracer; listeners = (sigterm, shutdown_and_exit) ∷ [] },
      )
      else (none, idle)

  abbrev begun : Bool → Process S
  begun b =
      let p = (outcome b).1 in
      record p {
        listeners = p.listeners ++ (sigint, shutdown_once) ∷ (sigterm, shutdown_once) ∷ [];
      }

  main-running : (b : Bool) → is_enabled env otel_options ≡ b → main idle ≡ running b
  unfolding main start_otel
  main-running true e = subst (λ b. main idle ≡ begun b) e refl
  main-running false e = subst (λ b. main idle ≡ begun b) e refl

  module _ (promised : Promised) where
    -- As many signals SIGTERM as `n` says.
    abbrev pub terminations : ℕ → Process S → Process S
    terminations zero p = p
    terminations (suc n) p = terminations n (receive promised sigterm p)

    -- A process with the one listener that `startOtel` has registered.
    abbrev left : Option S → List S → Process S
    left sdk shutdowns = record {
      sdk = sdk;
      listeners = (sigterm, shutdown_and_exit) ∷ [];
      shutdowns = shutdowns;
      has_exited = false;
    }

    deaf-terminations :
        (n : ℕ) (shutdowns : List S) → (terminations n (left none shutdowns)).has_exited ≡ false
    unfolding receive listens call_all left_after call_listener
    deaf-terminations zero shutdowns = refl
    deaf-terminations (suc n) shutdowns = deaf-terminations n shutdowns

    -- The process behind a first SIGINT whose call of `shutdown` has resolved.
    abbrev interrupted : Process S
    interrupted = record {
      sdk = none;
      listeners = (sigterm, shutdown_and_exit) ∷ (sigterm, shutdown_once) ∷ [];
      shutdowns = tracer ∷ [];
      has_exited = false;
    }

    interrupted-terminations : (n : ℕ) → (terminations n interrupted).has_exited ≡ false
    unfolding receive listens call_all left_after call_listener shutdown_otel
    interrupted-terminations zero = refl
    interrupted-terminations (suc n) = deaf-terminations n (tracer ∷ [])

    -- What a process of the service does with its signals.
    pub record Signalled (enabled : Bool) (p : Process S) : Type 0 where
      pub terminated :
          (receive promised sigterm p).has_exited ≡ enabled && not (is_pending promised)
      pub interrupted : (receive promised sigint p).has_exited ≡ enabled && is_rejected promised
      pub terminated_again :
          (receive promised sigterm (receive promised sigterm p)).has_exited
          ≡ not (enabled && is_pending promised)
      pub interrupted_again :
          (receive promised sigint (receive promised sigint p)).has_exited ≡ true
      pub interrupted_first :
          (n : ℕ)
          → enabled ≡ true
          → promised ≡ resolved
          → (terminations n (receive promised sigint p)).has_exited ≡ false
      pub shut_down :
          (receive promised sigterm p).shutdowns ≡ (if enabled then tracer ∷ tracer ∷ [] else [])

  enabled-Signalled : (promised : Promised) → Signalled promised true (running true)
  unfolding receive listens call_all left_after call_listener shutdown_otel
  enabled-Signalled resolved = record {
    terminated = refl;
    interrupted = refl;
    terminated_again = refl;
    interrupted_again = refl;
    interrupted_first = λ n on gone. interrupted-terminations resolved n;
    shut_down = refl;
  }
  enabled-Signalled rejected = record {
    terminated = refl;
    interrupted = refl;
    terminated_again = refl;
    interrupted_again = refl;
    interrupted_first = λ n on gone. cc;
    shut_down = refl;
  }
  enabled-Signalled pending = record {
    terminated = refl;
    interrupted = refl;
    terminated_again = refl;
    interrupted_again = refl;
    interrupted_first = λ n on gone. cc;
    shut_down = refl;
  }

  module _ (promised : Promised) where
    running-Signalled : (b : Bool) → Signalled promised b (running b)
    unfolding receive listens call_all left_after call_listener shutdown_otel
    running-Signalled true = enabled-Signalled promised
    running-Signalled false = record {
      terminated = refl;
      interrupted = refl;
      terminated_again = refl;
      interrupted_again = refl;
      interrupted_first = λ n on gone. cc;
      shut_down = refl;
    }

    -- With the listeners of its own code alone, signals that arrive after the module has run and
    -- one after the other, and an SDK whose calls of shutdown all resolve, all reject or all stay
    -- pending: the tracking service ends at the first SIGTERM just if tracing is enabled and these
    -- calls do not stay pending, and with tracing it has then called shutdown twice; it ends at the
    -- first SIGINT just if tracing is enabled and they reject; at a second SIGINT it ends in any
    -- case, and at a second SIGTERM unless tracing is enabled and they stay pending. With tracing
    -- enabled and calls that resolve, no number of signals SIGTERM behind a first SIGINT ends it.
    pub main-Signalled : Signalled promised (is_enabled env otel_options) (main idle)
    main-Signalled =
        subst (Signalled promised (is_enabled env otel_options))
          (sym (main-running (is_enabled env otel_options) refl))
          (running-Signalled (is_enabled env otel_options))
