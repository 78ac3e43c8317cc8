-- ===== src/Orders/ShipmentQuery/Answers.antt =====
-- What the query for a shipment answers.
use logistics_platform.Prelude.{
  ℕ, String, ◌≡◌, refl, sym, ap, ◌∙◌, subst, Bool, true, false, Option, none, List, ◌⊎◌, inl, inr,
  ◌≤◌, ◌<◌, Bool-cases,
}
use logistics_platform.Json.{Json}
use logistics_platform.Result.{Failure, http_status, Result, ok, err}
use logistics_platform.Act.{Act, continue, lift}
use logistics_platform.Runtime.{Runtime}
use logistics_platform.Orders.CircuitBreakers.{
  BreakerOptions, with_defaults, status_of_error, is_4xx, error_filter, get, created, create,
}
use logistics_platform.Orders.ShipmentQuery.Firing.{
  answer_ok, answer_err, is_4xx_range, not_4xx_range, filters_result, filtered_status, Settles,
  Fired, IsOpossum,
}
use logistics_platform.Orders.ShipmentQuery.{
  Response, refusal, answer, shipment_url, fetch_shipment, shipment_breaker_options, placeholder,
  Opossum, shipment_breaker, construct, execute,
}

module _ {W B V : Type 0} (opossum : Opossum W B)
    -- the world but for the breakers, which breaker is open, and the fallback of each
    (outside : W → V) (is_open : B → W → Bool) (registered : B → W → Option (ℕ → Json))
    -- whether the action that starts here settles within the breaker's timeout
    (in_time : String → W → Bool) where
  module _ (laws : IsOpossum opossum outside is_open registered in_time) (rt : Runtime)
      (fetch : String → Act W Response)
      -- an error of `fetch` itself has no status
      (no_status : (address : String) (w : W) (e : Failure)
        → (fetch address w).0 ≡ err e
        → status_of_error e ≡ none)
      -- nor has one of `response.json()`
      (json_no_status : (address : String) (w : W) (r : Response) (e : Failure)
        → (fetch address w).0 ≡ ok r
        → r.json ≡ err e
        → status_of_error e ≡ none)
      (url : String) where
    -- The request for the shipment was made, with this result.
    pub record Asked (order_id : String) (w w' : W) (result : Result Response) : Type 0 where
      pub at : W
      pub before : outside at ≡ outside w
      pub is : (fetch (shipment_url url order_id) at).0 ≡ result
      pub after : outside w' ≡ outside (fetch (shipment_url url order_id) at).1

    -- The tracking service gave no answer of use: an error of its own, a status that is none of 4xx,
    -- or a body that is no JSON.
    pub data Failing : Result Response → Type 0 where
      unreachable : (e : Failure) → Failing (err e)
      unsuccessful :
          (r : Response) → r.is_ok ≡ false → (r.status < 400) ⊎ (500 ≤ r.status) → Failing (ok r)
      unreadable : (r : Response) (e : Failure) → r.is_ok ≡ true → r.json ≡ err e → Failing (ok r)

    pub data Answered (breaker : B) (order_id : String) (w : W) (after : Result Json × W)
        : Type 0 where
      shown :
          (response : Response) (v : Json) (asked : Asked order_id w after.1 (ok response))
          → in_time order_id asked.at ≡ true
          → response.is_ok ≡ true
          → response.json ≡ ok v
          → after.0 ≡ ok v
          → Answered breaker order_id w after
      refused :
          (response : Response) (asked : Asked order_id w after.1 (ok response))
          → in_time order_id asked.at ≡ true
          → response.is_ok ≡ false
          → 400 ≤ response.status
          → response.status < 500
          → after.0 ≡ err (http_status response.status (refusal rt response.status))
          → Answered breaker order_id w after
      replaced :
          (result : Result Response) (now : ℕ) (asked : Asked order_id w after.1 result)
          → in_time order_id asked.at ≡ true
          → Failing result
          → is_open breaker w ≡ false
          → after.0 ≡ ok (placeholder rt now)
          → Answered breaker order_id w after
      late :
          (result : Result Response) (now : ℕ) (asked : Asked order_id w after.1 result)
          → in_time order_id asked.at ≡ false
          → is_open breaker w ≡ false
          → after.0 ≡ ok (placeholder rt now)
          → Answered breaker order_id w after
      unasked :
          (now : ℕ)
          → outside after.1 ≡ outside w
          → after.0 ≡ ok (placeholder rt now)
          → Answered breaker order_id w after

    abbrev options : BreakerOptions
    options = with_defaults shipment_breaker_options

    abbrev breaker : B
    breaker = opossum.new_breaker (fetch_shipment rt fetch url) options

    abbrev settling : Result Response × W → Result Json × W
    settling m = continue m (λ response. lift (answer rt response))

    module _ (order_id : String) (w : W) (after : Result Json × W)
        (closed : is_open breaker w ≡ false) where
      response-Answered :
          (response : Response) (asked : Asked order_id w after.1 (ok response))
          → Settles options
              (placeholder rt)
              (in_time order_id asked.at)
              (answer rt response)
              after.0
          → Answered breaker order_id w after
      unfolding with_defaults error_filter
      response-Answered response asked (Settles.returned v soon is out) =
          elim (Bool-cases response.is_ok) [
            | inl yes_it_is ↦
                Answered.shown response v asked soon yes_it_is
                  (sym (answer_ok rt response yes_it_is) ∙ is) out
            | inr no_it_is_not ↦ cc (is, answer_err rt response no_it_is_not)
          ]
      response-Answered response asked (Settles.filtered e soon is filters out) =
          elim (Bool-cases response.is_ok) [
            | inl yes_it_is ↦ cc (
              filters,
              ap is_4xx (
                  json_no_status _ asked.at response e asked.is
                    (sym (answer_ok rt response yes_it_is) ∙ is)),
            )
            | inr no_it_is_not ↦
                let (from, below) =
                  is_4xx_range response.status
                    (filtered_status rt response no_it_is_not is filters) in
                Answered.refused response asked soon no_it_is_not from below
                  (out ∙ (sym is ∙ answer_err rt response no_it_is_not))
          ]
      response-Answered response asked (Settles.failed e now soon is passes out) =
          Answered.replaced (ok response) now asked soon
            (elim (Bool-cases response.is_ok) [
              | inl yes_it_is ↦
                  Failing.unreadable response e yes_it_is
                    (sym (answer_ok rt response yes_it_is) ∙ is)
              | inr no_it_is_not ↦ Failing.unsuccessful response no_it_is_not (
                  not_4xx_range response.status
                    (filtered_status rt response no_it_is_not is passes))
            ])
            closed out
      response-Answered response asked (Settles.timed_out now slow out) =
          Answered.late (ok response) now asked slow closed out

      failure-Answered :
          (e : Failure) (asked : Asked order_id w after.1 (err e))
          → Settles options (placeholder rt) (in_time order_id asked.at) (err e) after.0
          → Answered breaker order_id w after
      unfolding with_defaults error_filter
      failure-Answered e asked (Settles.returned v soon is out) = cc
      failure-Answered e asked (Settles.filtered e' soon is filters out) =
          cc (filters, ap filters_result is, ap is_4xx (no_status _ asked.at e asked.is))
      failure-Answered e asked (Settles.failed e' now soon is filters out) =
          Answered.replaced (err e) now asked soon (Failing.unreachable e) closed out
      failure-Answered e asked (Settles.timed_out now slow out) =
          Answered.late (err e) now asked slow closed out

      asked-Answered :
          (m : Result Response × W) (at : W)
          → outside at ≡ outside w
          → fetch (shipment_url url order_id) at ≡ m
          → outside after.1 ≡ outside m.1
          → Settles options (placeholder rt) (in_time order_id at) (settling m).0 after.0
          → Answered breaker order_id w after
      asked-Answered (ok response, w2) at before is left s =
          response-Answered response
            (record {
              at = at;
              before = before;
              is = ap (λ (x : Result Response × W). x.0) is;
              after = left ∙ ap (λ (x : Result Response × W). outside x.1) (sym is);
            })
            s
      asked-Answered (err e, w2) at before is left s =
          failure-Answered e
            (record {
              at = at;
              before = before;
              is = ap (λ (x : Result Response × W). x.0) is;
              after = left ∙ ap (λ (x : Result Response × W). outside x.1) (sym is);
            })
            s

    settling_state : (m : Result Response × W) → (settling m).1 ≡ m.1
    settling_state (ok response, w2) = refl
    settling_state (err e, w2) = refl

    fired-Answered :
        (order_id : String) (w : W) (after : Result Json × W)
        → Fired opossum outside is_open registered in_time breaker
            (fetch_shipment rt fetch url)
            options
            (placeholder rt)
            order_id
            w
            after
        → Answered breaker order_id w after
    unfolding fetch_shipment
    fired-Answered order_id w after (Fired.rejected now out is) = Answered.unasked now out is
    fired-Answered order_id w after (Fired.ran w1 closed before left s) =
        let m = fetch (shipment_url url order_id) w1 in
        asked-Answered order_id w after closed m w1 before refl
          (left ∙ ap outside (settling_state m)) s

    -- For opossum as documented, errors of fetch and of the reading of a body as JSON that have no
    -- status, and a map without a breaker of that name: after the handler is constructed, and as
    -- long as its fallback is registered, the query for the shipment of an order ends in one of
    -- five ways. The tracking service answered in time with success and a JSON body, which is
    -- returned; it answered in time with a status from 400 to 499, and the error with this status
    -- is thrown; the circuit was not open and the request failed in time, by an error of its own, a
    -- status that is none of these or a body that is no JSON, and the placeholder is returned; the
    -- circuit was not open and the request was late, and the placeholder is returned; or the
    -- request was not made and the placeholder is returned. So nothing but a status from 400 to 499
    -- makes it throw.
    pub execute-Answered :
        (breakers : List (String × B)) (w w' : W) (order_id : String)
        → get "tracking.getShipment" breakers ≡ none
        → let (b, breakers', constructed) = construct opossum rt fetch url breakers w in
          registered b w' ≡ registered b constructed
          → Answered b order_id w' (execute opossum rt fetch url b order_id w')
    unfolding construct execute shipment_breaker create
    execute-Answered breakers w w' order_id new same =
        subst
          (λ found.
            let b =
              (created opossum.new_breaker found "tracking.getShipment"
                (fetch_shipment rt fetch url) shipment_breaker_options breakers).0 in
            registered b w' ≡ registered b (opossum.fallback b (placeholder rt) w)
            → Answered b order_id w' (opossum.fire b order_id w'))
          (sym new)
          (λ same'. fired-Answered order_id w' _ (
            laws.fires (fetch_shipment rt fetch url) options (placeholder rt) order_id w'
              (same' ∙ laws.registers breaker (placeholder rt) w)))
          same
