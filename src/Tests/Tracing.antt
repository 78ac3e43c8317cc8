-- ===== src/Tests/Tracing.antt =====
-- A tracking service with tracing switched on, whose SDK shuts down.
use logistics_platform.Prelude.{String, Option, some, ◌==◌, if◌then◌else◌, none}
use logistics_platform.Observability.Tracing.{is_enabled, resolved}
use logistics_platform.Tracking.Main.{otel_options, main, idle, Signalled, main-Signalled}

abbrev env : String → Option String
env name = if name == "OTEL_ENABLED" then some "true" else none

main-Signalled_example :
    Signalled
      (λ o. o.url)
      env
      resolved
      (is_enabled env otel_options)
      (main (λ o. o.url) env (idle (λ o. o.url) env))
main-Signalled_example = main-Signalled (λ o. o.url) env resolved
