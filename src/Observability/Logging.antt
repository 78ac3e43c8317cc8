-- ===== src/Observability/Logging.antt =====
-- libs/observability/src/logger: what the loggers are configured with and what they add to a line. The
-- environment is an argument. The texts of `base`, the timestamp and the transport are left out.
use text.Mathlib.Text.{starts_with}
use logistics_platform.Prelude.{
  ℕ, String, Bool, false, not, ◌&&◌, ◌||◌, Option, none, some, List, [], ◌∷◌, ◌==◌, leb, or_else,
  if◌then◌else◌,
}
use logistics_platform.Json.{Json, str}
use logistics_platform.Contracts.Envelope.{or_null}
use logistics_platform.Observability.Correlation.{CorrelationContext}

-- `StandaloneLoggerOptions`, and `LoggerOptions` without `pretty`
pub record LoggerOptions : Type 0 where
  pub service_name : String
  pub level : Option String

-- `opts.level ?? process.env.LOG_LEVEL ?? "info"`
abbrev pub level_of : (String → Option String) → LoggerOptions → String
level_of env opts = or_else opts.level (or_else (env "LOG_LEVEL") "info")

abbrev pub is_text : Option String → String → Bool
is_text none text = false
is_text (some s) text = s == text

-- `opts.pretty ?? (process.env.NODE_ENV !== "production" && process.env.NODE_ENV !== "test")`
abbrev pub is_pretty : (String → Option String) → Option Bool → Bool
is_pretty env pretty =
    or_else pretty
      (not (is_text (env "NODE_ENV") "production") && not (is_text (env "NODE_ENV") "test"))

-- `mixin`: what is added to a line that is logged in a context
unfoldable pub mixin : Option CorrelationContext → List (String × Json)
mixin none = []
mixin (some ctx) =
    ("correlationId", str ctx.correlation_id) ∷ ("causationId", or_null ctx.causation_id) ∷ []

-- `autoLogging.ignore`, for the address of the request
unfoldable pub ignore : Option String → Bool
ignore url = starts_with (or_else url "") "/health" || starts_with (or_else url "") "/metrics"

-- `customLogLevel`
unfoldable pub custom_log_level : (has_error : Bool) → (status_code : ℕ) → String
custom_log_level has_error status_code =
    if has_error || leb 500 status_code
    then "error"
    else if leb 400 status_code
    then "warn"
    else "info"
