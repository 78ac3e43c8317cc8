-- ===== src/Orders/CircuitBreakers.antt =====
-- apps/order-service/src/infrastructure/resilience/circuit-breaker.factory.ts. A breaker is one of the
-- library opossum: its constructor is a parameter. The map of breakers is an association list.
use logistics_platform.Prelude.{
  ℕ, String, ◌≡◌, ◌≢◌, refl, Bool, false, ◌&&◌, Option, none, some, List, [], ◌∷◌, ◌==◌, eq_iff,
  eq_refl, leb, ltb, or_else, if◌then◌else◌, arith,
}
use logistics_platform.Result.{
  Failure, error, not_found_exception, http_status, known_request, zod_error, thrown,
}

-- `Partial<CircuitBreakerOptions>`
pub record CircuitBreakerOptions : Type 0 where
  pub failure_threshold : Option ℕ
  pub reset_timeout_ms : Option ℕ
  pub timeout_ms : Option ℕ

-- The `status` of an error, where that is a number.
abbrev pub status_of_error : Failure → Option ℕ
status_of_error (http_status status m) = some status
status_of_error (not_found_exception m) = some 404
status_of_error (error m) = none
status_of_error (known_request code m) = none
status_of_error zod_error = none
status_of_error (thrown text) = none

-- `status >= 400 && status < 500`
abbrev pub is_4xx : Option ℕ → Bool
is_4xx none = false
is_4xx (some status) = leb 400 status && ltb status 500

unfoldable pub error_filter : Failure → Bool
error_filter e = is_4xx (status_of_error e)

pub record BreakerOptions : Type 0 where
  pub failure_threshold : ℕ
  pub reset_timeout : ℕ
  pub timeout : ℕ
  pub error_filter : Failure → Bool

unfoldable pub with_defaults : CircuitBreakerOptions → BreakerOptions
with_defaults options = record {
  failure_threshold = or_else options.failure_threshold 5;
  reset_timeout = or_else options.reset_timeout_ms 30000;
  timeout = or_else options.timeout_ms 5000;
  error_filter = error_filter;
}

pub data CircuitState : Type 0 where
  closed open_circuit half_open : CircuitState

-- `breaker.opened` and `breaker.halfOpen`
pub record Flags : Type 0 where
  pub opened : Bool
  pub half_open : Bool

abbrev pub state_of : Flags → CircuitState
state_of f = if f.opened then open_circuit else if f.half_open then half_open else closed

-- What `breaker.stats` counts.
pub record Counters : Type 0 where
  pub failures : ℕ
  pub successes : ℕ
  pub rejects : ℕ
  pub fallbacks : ℕ

-- What `getStats` returns.
pub record Stats : Type 0 where
  pub state : Option CircuitState
  pub counters : Counters

-- `breakers.get(name)`
unfoldable pub get : {B : Type 0} → String → List (String × B) → Option B
get name [] = none
get name ((key, breaker) ∷ breakers) =
    let rest = get name breakers in if key == name then some breaker else rest

module _ {A B : Type 0} (new_breaker : A → BreakerOptions → B) where
  abbrev pub created :
      Option B → String → A → CircuitBreakerOptions → List (String × B) → B × List (String × B)
  created (some breaker) name action options breakers = (breaker, breakers)
  created none name action options breakers =
      let breaker = new_breaker action (with_defaults options) in
      (breaker, (name, breaker) ∷ breakers)

  -- `CircuitBreakerFactory.create`
  unfoldable pub create :
      String → A → CircuitBreakerOptions → List (String × B) → B × List (String × B)
  unfolding get
  create name action options breakers = created (get name breakers) name action options breakers

  -- `CircuitBreakerFactory.getState`, for what the flags of a breaker are
  unfoldable pub get_state : (B → Flags) → String → List (String × B) → Option CircuitState
  unfolding get
  get_state flags name breakers = elim (get name breakers) [
    | none ↦ none
    | some b ↦ some (state_of (flags b))
  ]

  created-get :
      (found : Option B) (name : String) (action : A) (options : CircuitBreakerOptions)
      (breakers : List (String × B))
      → get name breakers ≡ found
      → (get name (created found name action options breakers).1
          ≡ some (created found name action options breakers).0)
        × ((other : String)
            → other ≢ name
            → get other (created found name action options breakers).1 ≡ get other breakers)
  unfolding get
  created-get (some b) name action options breakers e = (e, λ other ne. refl)
  created-get none name action options breakers e =
      (ground (arith, eq_refl name), λ other ne. ground (arith, eq_iff name other))

  -- After create the map has the breaker that was returned under its name and is as it was under
  -- every other; and a further create under that name, with any action and options, returns the
  -- same breaker and changes nothing.
  pub create-get :
      (name : String) (action : A) (options : CircuitBreakerOptions) (breakers : List (String × B))
      → (get name (create name action options breakers).1
          ≡ some (create name action options breakers).0)
        × ((other : String)
            → other ≢ name
            → get other (create name action options breakers).1 ≡ get other breakers)
        × ((action' : A) (options' : CircuitBreakerOptions)
            → create name action' options' (create name action options breakers).1
              ≡ create name action options breakers)
  unfolding create
  create-get name action options breakers =
      let (there, others) = created-get (get name breakers) name action options breakers refl in
      (there, others, λ action' options'. rw there refl)

  -- `CircuitBreakerFactory.getStats`, for what the flags and the counters of a breaker are
  unfoldable pub get_stats :
      (B → Flags) → (B → Counters) → String → List (String × B) → Option Stats
  unfolding get get_state
  get_stats flags counters name breakers = elim (get name breakers) [
    | none ↦ none
    | some b ↦ some (record { state = get_state flags name breakers; counters = counters b })
  ]
