-- ===== src/Orders/ShipmentQuery/Firing.antt =====
-- What is used of opossum's documentation, for breakers with a fallback, and what the filter of
-- errors decides of an answer.
use logistics_platform.Prelude.{
  ℕ, String, ◌≡◌, refl, sym, ap, ◌∙◌, Bool, true, false, Option, some, ◌⊎◌, ◌≤◌, ◌<◌, arith,
}
use logistics_platform.Json.{Json}
use logistics_platform.Result.{Failure, http_status, Result, ok, err}
use logistics_platform.Act.{Act}
use logistics_platform.Runtime.{Runtime}
use logistics_platform.Orders.CircuitBreakers.{BreakerOptions, status_of_error, is_4xx}
use logistics_platform.Orders.ShipmentQuery.{Response, refusal, answer, Opossum}

pub answer_ok : (rt : Runtime) (r : Response) → r.is_ok ≡ true → answer rt r ≡ r.json
answer_ok rt r h = rw h refl

pub answer_err :
    (rt : Runtime) (r : Response)
    → r.is_ok ≡ false
    → answer rt r ≡ err (http_status r.status (refusal rt r.status))
answer_err rt r h = rw h refl

pub is_4xx_range : (status : ℕ) → is_4xx (some status) ≡ true → (400 ≤ status) × (status < 500)
is_4xx_range status h = (ground arith, ground arith)

pub not_4xx_range : (status : ℕ) → is_4xx (some status) ≡ false → (status < 400) ⊎ (500 ≤ status)
not_4xx_range status h = ground arith

abbrev pub filters_result : Result Json → Bool
filters_result (ok v) = true
filters_result (err e) = is_4xx (status_of_error e)

pub filtered_status :
    (rt : Runtime) (response : Response) {e : Failure} {b : Bool}
    → response.is_ok ≡ false
    → answer rt response ≡ err e
    → is_4xx (status_of_error e) ≡ b
    → is_4xx (some response.status) ≡ b
filtered_status rt response no_it_is_not is filters =
    sym (ap filters_result (sym is ∙ answer_err rt response no_it_is_not)) ∙ filters

-- How an action that has returned or thrown settles the call of `fire`.
pub data Settles (options : BreakerOptions) (fallback : ℕ → Json) (is_soon : Bool)
    (result r : Result Json) : Type 0 where
  returned :
      (v : Json)
      → is_soon ≡ true
      → result ≡ ok v
      → r ≡ ok v
      → Settles options fallback is_soon result r
  filtered :
      (e : Failure)
      → is_soon ≡ true
      → result ≡ err e
      → options.error_filter e ≡ true
      → r ≡ err e
      → Settles options fallback is_soon result r
  failed :
      (e : Failure) (now : ℕ)
      → is_soon ≡ true
      → result ≡ err e
      → options.error_filter e ≡ false
      → r ≡ ok (fallback now)
      → Settles options fallback is_soon result r
  timed_out :
      (now : ℕ)
      → is_soon ≡ false
      → r ≡ ok (fallback now)
      → Settles options fallback is_soon result r

module _ {W B V : Type 0} (opossum : Opossum W B)
    -- the world but for the breakers, which breaker is open, and the fallback of each
    (outside : W → V) (is_open : B → W → Bool) (registered : B → W → Option (ℕ → Json))
    -- whether the action that starts here settles within the breaker's timeout
    (in_time : String → W → Bool) where
  -- What `fire` does for a breaker with a fallback.
  pub data Fired (breaker : B) (action : String → Act W Json) (options : BreakerOptions)
      (fallback : ℕ → Json) (argument : String) (w : W) (after : Result Json × W) : Type 0 where
    rejected :
        (now : ℕ)
        → outside after.1 ≡ outside w
        → after.0 ≡ ok (fallback now)
        → Fired breaker action options fallback argument w after
    ran :
        (w1 : W)
        → is_open breaker w ≡ false
        → outside w1 ≡ outside w
        → outside after.1 ≡ outside (action argument w1).1
        → Settles options fallback (in_time argument w1) (action argument w1).0 after.0
        → Fired breaker action options fallback argument w after

  -- opossum, as it is documented.
  pub record IsOpossum : Type 0 where
    pub registers : (b : B) (f : ℕ → Json) (w : W) → registered b (opossum.fallback b f w) ≡ some f
    pub fires :
        (action : String → Act W Json) (options : BreakerOptions) (f : ℕ → Json) (argument : String)
        (w : W)
        → registered (opossum.new_breaker action options) w ≡ some f
        → Fired
            (opossum.new_breaker action options)
            action
            options
            f
            argument
            w
            (opossum.fire (opossum.new_breaker action options) argument w)
