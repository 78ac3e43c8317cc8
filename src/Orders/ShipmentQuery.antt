-- ===== src/Orders/ShipmentQuery.antt =====
-- apps/order-service/src/application/queries/get-shipment-for-order.handler.ts. The library opossum and
-- `fetch` are parameters.
pub mod Firing
pub mod Answers
use Prim.Native.String
use logistics_platform.Prelude.{ℕ, String, Bool, true, Option, some, List, if◌then◌else◌}
use logistics_platform.Number.{nat}
use logistics_platform.Json.{Json, str, bool, obj, end, field}
use logistics_platform.Result.{http_status, Result, ok, err}
use logistics_platform.Act.{Act, lift, ◌>>=◌}
use logistics_platform.Runtime.{Runtime}
use logistics_platform.Orders.CircuitBreakers.{CircuitBreakerOptions, BreakerOptions, create}

-- What `fetch` resolves to.
pub record Response : Type 0 where
  pub is_ok : Bool
  pub status : ℕ
  -- `response.json()`, which throws where the body is no JSON
  pub json : Result Json

abbrev pub refusal : Runtime → ℕ → String
refusal rt status = String.◌++◌ "Tracking service returned " (rt.number_text (nat status))

abbrev pub answer : Runtime → Response → Result Json
answer rt r = if r.is_ok then r.json else err (http_status r.status (refusal rt r.status))

abbrev pub shipment_url : (url order_id : String) → String
shipment_url url order_id =
    String.◌++◌ url (String.◌++◌ "/orders/" (String.◌++◌ order_id "/shipment"))

-- `GetShipmentForOrderHandler.fetchShipment`, the action of the breaker
unfoldable pub fetch_shipment :
    {W : Type 0} → Runtime → (String → Act W Response) → (url order_id : String) → Act W Json
fetch_shipment rt fetch url order_id = do
  response ← fetch (shipment_url url order_id)
  lift (answer rt response)

abbrev pub shipment_breaker_options : CircuitBreakerOptions
shipment_breaker_options = record {
  failure_threshold = some 3;
  reset_timeout_ms = some 10000;
  timeout_ms = some 3000;
}

-- The answer of the fallback, at the time `now`.
unfoldable pub placeholder : Runtime → (now : ℕ) → Json
placeholder rt now = obj (
    field "shipmentId" (str "fallback") (
      field "orderId" (str "unknown") (
        field "status" (str "UNKNOWN")
          (field "lastUpdated" (str (rt.to_iso_string now)) (field "_fallback" (bool true) end)))))

-- What the handler calls of opossum, for breakers `B` whose states are in `W`.
pub record Opossum (W B : Type 0) : Type 0 where
  pub new_breaker : (String → Act W Json) → BreakerOptions → B
  pub fallback : B → (ℕ → Json) → W → W
  pub fire : B → String → Act W Json

module _ {W B : Type 0} (opossum : Opossum W B) (rt : Runtime) (fetch : String → Act W Response)
    (url : String) where
  -- The breaker of the handler, and the map.
  unfoldable pub shipment_breaker : List (String × B) → B × List (String × B)
  shipment_breaker breakers =
      create opossum.new_breaker "tracking.getShipment" (fetch_shipment rt fetch url)
        shipment_breaker_options breakers

  -- The constructor of the handler.
  unfoldable pub construct : List (String × B) → W → B × List (String × B) × W
  unfolding shipment_breaker
  construct breakers w =
      let (breaker, breakers') = shipment_breaker breakers in
      (breaker, breakers', opossum.fallback breaker (placeholder rt) w)

  -- `GetShipmentForOrderHandler.execute`
  unfoldable pub execute : B → (order_id : String) → Act W Json
  execute breaker order_id = opossum.fire breaker order_id
