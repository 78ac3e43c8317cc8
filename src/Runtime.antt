-- ===== src/Runtime.antt =====
-- What the services take from the JavaScript host and from their libraries, and do not implement.
-- A `Date` is its number of milliseconds since the epoch, a UUID or an ISO time a text.
use Prim.Native.Char.{Char}
use logistics_platform.Prelude.{ℕ, String, Bool}
use logistics_platform.Number.{Number}

pub record Runtime : Type 0 where
  -- the case mapping of characters that are not ASCII
  pub upper_other : Char → String
  -- `date.toISOString()` and `new Date(text)`
  pub to_iso_string : ℕ → String
  pub date_of : String → ℕ
  -- the formats of `z.string().uuid()` and `z.string().datetime({ offset: true })`
  pub uuid_format : String → Bool
  pub datetime_format : String → Bool
  -- `String(n)`, for a number in a template
  pub number_text : Number → String
