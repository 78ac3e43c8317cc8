-- ===== src/Notifications/Readiness.antt =====
-- apps/notification-service/src/health: readiness and its endpoint.
use logistics_platform.Prelude.{Bool, true, false, ◌&&◌, if◌then◌else◌}
use logistics_platform.Result.{http_status, Result, ok, err}
use logistics_platform.Act.{Act}

pub record ReadinessChecks : Type 0 where
  pub database : Bool
  pub rabbitmq : Bool

-- `try { await … ; return true; } catch { return false; }`
abbrev pub returned : Result (Unit {0}) → Bool
returned (ok u) = true
returned (err e) = false

-- `ReadinessService.check`: the query `SELECT 1` is an argument, and so is what `isHealthy()` says
-- of the connection afterwards.
unfoldable pub check :
    {W : Type 0} → Act W (Unit {0}) → (W → Bool) → W → (Bool × ReadinessChecks) × W
check select_1 is_healthy w =
    let (result, w') = select_1 w in
    let database = returned result in
    let rabbitmq = is_healthy w' in
    ((database && rabbitmq, record { database = database; rabbitmq = rabbitmq }), w')

-- `HealthController.getReady`: the checks of its answer, or an error with the status 503.
unfoldable pub get_ready : {W : Type 0} → Act W (Unit {0}) → (W → Bool) → Act W ReadinessChecks
unfolding check
get_ready select_1 is_healthy w =
    let ((ready, checks), w') = check select_1 is_healthy w in
    if ready
    then (ok (record { database = true; rabbitmq = true }), w')
    else (err (http_status 503 "Service Unavailable Exception"), w')
