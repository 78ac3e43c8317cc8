-- ===== src/Tests/Queries.antt =====
-- The query for a shipment, over a breaker that is open or closed as the state says.
use logistics_platform.Prelude.{
  ℕ, String, ◌≡◌, refl, sym, ap, subst, Bool, true, false, Bool-cases, inl, inr, Option, none, some,
  List, [], ◌∷◌, if◌then◌else◌,
}
use logistics_platform.Json.{Json, null}
use logistics_platform.Result.{Failure, error, http_status, Result, ok, err}
use logistics_platform.Act.{Act}
use logistics_platform.Orders.CircuitBreakers.{
  BreakerOptions, with_defaults, error_filter, status_of_error, get, create,
}
use logistics_platform.Orders.ShipmentQuery.{
  Response, refusal, Opossum, fetch_shipment, shipment_breaker, construct, execute,
}
use logistics_platform.Orders.ShipmentQuery.Answers.{Answered, execute-Answered}
use logistics_platform.Orders.ShipmentQuery.Firing.{Settles, Fired, IsOpossum}
use logistics_platform.Tests.Samples.{rt}

record Net : Type 0 where
  pub requests : List String
  pub is_open : Bool
  pub fallback : Option (ℕ → Json)

abbrev Breaker : Type 0
Breaker = (String → Act Net Json) × BreakerOptions

abbrev stand_in : Option (ℕ → Json) → Failure → Result Json
stand_in none e = err e
stand_in (some f) e = ok (f 7)

abbrev settle : BreakerOptions → Option (ℕ → Json) → Result Json → Result Json
settle options fallback (ok v) = ok v
settle options fallback (err e) = if options.error_filter e then err e else stand_in fallback e

abbrev fire : Bool → Breaker → String → Act Net Json
fire true breaker argument w = (stand_in w.fallback (error "Breaker is open"), w)
fire false breaker argument w =
    let (result, w') = breaker.0 argument w in (settle breaker.1 w.fallback result, w')

abbrev opossum : Opossum Net Breaker
opossum = record {
  new_breaker = λ action options. (action, options);
  fallback = λ breaker f w. record w { fallback = some f };
  fire = λ breaker argument w. fire w.is_open breaker argument w;
}

abbrev registered : Breaker → Net → Option (ℕ → Json)
registered breaker w = w.fallback

abbrev is_open : Breaker → Net → Bool
is_open breaker w = w.is_open

abbrev in_time : String → Net → Bool
in_time argument w = true

settle-Settles :
    (options : BreakerOptions) (f : ℕ → Json) (result : Result Json)
    → Settles options f true result (settle options (some f) result)
settle-Settles options f (ok v) = Settles.returned v refl refl refl
settle-Settles options f (err e) = elim (Bool-cases (options.error_filter e)) [
  | inl filters ↦ Settles.filtered e refl refl filters (rw filters refl)
  | inr counts ↦ Settles.failed e 7 refl refl counts (rw counts refl)
]

fire-Fired :
    (b : Bool) (action : String → Act Net Json) (options : BreakerOptions) (f : ℕ → Json)
    (argument : String) (w : Net)
    → w.is_open ≡ b
    → w.fallback ≡ some f
    → Fired opossum
        (λ v. v.requests)
        is_open
        registered
        in_time
        (action, options)
        action
        options
        f
        argument
        w
        (fire b (action, options) argument w)
fire-Fired true action options f argument w opened there =
    Fired.rejected 7 refl (ap (λ o. stand_in o (error "Breaker is open")) there)
fire-Fired false action options f argument w closed there = Fired.ran w closed refl refl (
    subst
      (λ o. Settles options f true (action argument w).0 (settle options o (action argument w).0))
      (sym there) (settle-Settles options f (action argument w).0))

opossum-IsOpossum : IsOpossum opossum (λ w. w.requests) is_open registered in_time
opossum-IsOpossum = record {
  registers = λ b f w. refl;
  fires = λ action options f argument w there.
      fire-Fired w.is_open action options f argument w refl there;
}

abbrev missing : Response
missing = record { is_ok = false; status = 404; json = ok null }

abbrev fetch : String → Act Net Response
fetch address w = (ok missing, record w { requests = address ∷ w.requests })

fetch_never_throws :
    (address : String) (w : Net) (e : Failure)
    → (fetch address w).0 ≡ err e
    → status_of_error e ≡ none
fetch_never_throws address w e threw = cc

abbrev json_of : Result Response → Result Json
json_of (ok r) = r.json
json_of (err e) = err e

json_has_no_status :
    (address : String) (w : Net) (r : Response) (e : Failure)
    → (fetch address w).0 ≡ ok r
    → r.json ≡ err e
    → status_of_error e ≡ none
json_has_no_status address w r e is threw = cc (threw, ap json_of is)

abbrev net : Bool → Net
net opened = record { requests = []; is_open = opened; fallback = none }

abbrev handler : Breaker × List (String × Breaker) × Net
handler = construct opossum rt fetch "http://tracking" [] (net false)

execute-Answered_example :
    Answered opossum
      (λ w. w.requests)
      is_open
      registered
      in_time
      opossum-IsOpossum
      rt
      fetch
      fetch_never_throws
      json_has_no_status
      "http://tracking"
      handler.0
      "order-1"
      handler.2
      (execute opossum rt fetch "http://tracking" handler.0 "order-1" handler.2)
unfolding get
execute-Answered_example =
    execute-Answered opossum (λ w. w.requests) is_open registered in_time opossum-IsOpossum rt fetch
      fetch_never_throws json_has_no_status "http://tracking" [] (net false) handler.2 "order-1"
      refl refl

-- The error of a missing shipment reaches the client.
execute_test :
    (execute opossum rt fetch "http://tracking" handler.0 "order-1" handler.2).0
    ≡ err (http_status 404 (refusal rt 404))
unfolding execute construct shipment_breaker create fetch_shipment with_defaults error_filter
execute_test = refl
