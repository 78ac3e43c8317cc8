-- ===== src/Observability/Correlation.antt =====
-- libs/observability/src/correlation: the context of a request, and the middleware that sets it.
-- What `AsyncLocalStorage` holds is an argument of the code that runs in it.
use Prim.Native.Char.{Char, code}
use Prim.Native.String.{[], ◌∷◌}
use logistics_platform.Prelude.{
  ℕ, String, ◌≡◌, refl, Bool, true, false, ◌&&◌, ◌||◌, Option, none, some, or_else, leb, eqb, arith,
  if◌then◌else◌,
}

pub record CorrelationContext : Type 0 where
  pub correlation_id : String
  pub causation_id : Option String

-- `correlationContext.getId()` in the current context
abbrev pub get_id : Option CorrelationContext → Option String
get_id none = none
get_id (some ctx) = some ctx.correlation_id

abbrev pub get_causation_id : Option CorrelationContext → Option String
get_causation_id none = none
get_causation_id (some ctx) = ctx.causation_id

-- a hexadecimal digit, in either case
is_hex : ℕ → Bool
is_hex c = (leb b'0' c && leb c b'9') || (leb b'a' c && leb c b'f') || (leb b'A' c && leb c b'F')

fits : Char → Char → Bool
unfolding is_hex
fits t c = if eqb (code t) b'h' then is_hex (code c) else eqb (code t) (code c)

-- The template has `h` for a hexadecimal digit.
matches : String → String → Bool
unfolding fits
matches [] [] = true
matches [] (c ∷ s) = false
matches (t ∷ ts) [] = false
matches (t ∷ ts) (c ∷ s) = fits t c && matches ts s

unfoldable pub is_uuid : String → Bool
unfolding matches
is_uuid value = matches "hhhhhhhh-hhhh-hhhh-hhhh-hhhhhhhhhhhh" value

-- a header that is there and a UUID
pub valid_id : Option String → Option String
valid_id none = none
valid_id (some id) = if is_uuid id then some id else none

-- `use(req, res, next)`: the header of the response, and the context in which `next` runs. The
-- third argument is the id that `newId()` would return.
unfoldable pub middleware :
    (correlation causation : Option String) (new_id : String) → String × CorrelationContext
unfolding valid_id
middleware correlation causation new_id =
    let correlation_id = or_else (valid_id correlation) new_id in
    (correlation_id, record { correlation_id = correlation_id; causation_id = valid_id causation })

-- If the ids that the host generates are UUIDs, then whatever the headers, the response carries the
-- correlation id of the request's context, which is a UUID; the cause, if there is one, is a UUID
-- that came with the request; and a request's own correlation id is kept if it is a UUID.
pub middleware_ids :
    (correlation causation : Option String) (new_id : String)
    → is_uuid new_id ≡ true
    → ((middleware correlation causation new_id).0
        ≡ (middleware correlation causation new_id).1.correlation_id)
      × (is_uuid (middleware correlation causation new_id).0 ≡ true)
      × ((c : String)
          → (middleware correlation causation new_id).1.causation_id ≡ some c
          → (is_uuid c ≡ true) × (causation ≡ some c))
      × ((c : String)
          → correlation ≡ some c
          → is_uuid c ≡ true
          → (middleware correlation causation new_id).0 ≡ c)
unfolding middleware
middleware_ids correlation causation new_id h =
    (ground arith, ground arith, λ c e. ground arith, λ c e u. ground arith)

uuid_test : is_uuid "A3f1c2b4-5e6d-4c7b-9a8f-1d2e3c4b5a6f" ≡ true
unfolding is_uuid
uuid_test = refl
