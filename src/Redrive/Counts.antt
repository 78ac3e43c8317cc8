-- ===== src/Redrive/Counts.antt =====
-- The option `--count` of the commands.
use Prim.Native.Char.{code}
use Prim.Native.String.{[], ◌∷◌}
use logistics_platform.Prelude.{
  ℕ, zero, suc, ◌+◌, ◌-◌, ◌*◌, ◌^◌, String, Bool, false, true, Option, none, some, ◌&&◌, ◌==◌, eqb,
  leb, ltb, or_else, if◌then◌else◌,
}
use logistics_platform.Number.{Number, nat, neg, infinity, nan, double}
use logistics_platform.Text.{trim_start}

abbrev is_digit : ℕ → Bool
is_digit c = leb b'0' c && leb c b'9'

-- The number that the digits before the first other character spell, behind what was read.
digits : Option ℕ → String → Option ℕ
digits before [] = before
digits before (c ∷ s) =
    let rest = digits (some (or_else before 0 * 10 + (code c - b'0'))) s in
    if is_digit (code c) then rest else before

-- A magnitude, rounded to a double.
positive : Option ℕ → Number
positive none = nan
positive (some n) = if ltb n (2 ^ 1024) then nat (double n) else infinity false

negated : Number → Number
negated (nat zero) = nat 0
negated (nat (suc n)) = neg n
negated (infinity minus) = infinity true
negated n = n

signed : String → Number
unfolding digits positive negated
signed [] = nan
signed (c ∷ s) =
    if eqb (code c) b'-'
    then negated (positive (digits none s))
    else if eqb (code c) b'+'
    then positive (digits none s)
    else positive (digits none (c ∷ s))

-- `parseInt(text, 10)`
unfoldable pub parse_int : String → Number
unfolding signed
parse_int text = signed (trim_start text)

-- `options.count === "all" ? Infinity : parseInt(options.count, 10)`
unfoldable pub max_count : String → Number
unfolding parse_int
max_count count = if count == "all" then infinity false else parse_int count
