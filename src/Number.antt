-- ===== src/Number.antt =====
-- JavaScript numbers, as far as the services compute with them: a value that `Number.isInteger`
-- accepts is `nat n`, or `neg n` for -(n + 1). `fraction minus whole digits` is any other finite
-- value: its sign, the integer part of its magnitude, and a code for the digits behind the point.
-- -0 counts as 0. Products and sums are rounded to a double.
use logistics_platform.Prelude.{
  ℕ, zero, suc, ◌+◌, ◌*◌, ◌/◌, ◌%◌, ◌^◌, ◌<◌, ◌≡◌, refl, Bool, false, ltb, eqb, arith,
  if◌then◌else◌,
}

pub data Number : Type 0 where
  nat : ℕ → Number
  neg : ℕ → Number
  fraction : (minus : Bool) (whole digits : ℕ) → Number
  infinity : (minus : Bool) → Number
  nan : Number

-- How often a value is halved until it fits the 53 bits of a double's significand.
excess_bits : ℕ → ℕ → ℕ
excess_bits zero n = 0
excess_bits (suc f) n =
    let rest = excess_bits f (n / 2) in if ltb n 0x20000000000000 then 0 else suc rest

-- To the nearest multiple of 2 ^ k, ties to an even multiple.
round_to : ℕ → ℕ → ℕ
round_to k n =
    let q = n / 2 ^ k in
    let r = 2 * (n % 2 ^ k) in
    if ltb r (2 ^ k)
    then q * 2 ^ k
    else if ltb (2 ^ k) r
    then (q + 1) * 2 ^ k
    else (q + q % 2) * 2 ^ k

-- The double nearest to a natural number below 2 ^ 1024; 971 halvings take it below 2 ^ 53.
unfoldable pub double : ℕ → ℕ
unfolding excess_bits round_to
double n = let k = excess_bits 971 n in if eqb k 0 then n else round_to k n

-- 2 ^ 53, below which each integer is a double.
abbrev pub exact_limit : ℕ
exact_limit = 0x20000000000000

excess_bits-zero : (f n : ℕ) → n < exact_limit → excess_bits f n ≡ 0
unfolding excess_bits
excess_bits-zero zero n h = refl
excess_bits-zero (suc f) n h = ground arith

pub double_exact : (n : ℕ) → n < exact_limit → double n ≡ n
unfolding double
double_exact n h = ground (arith, excess_bits-zero 971 n h)

-- A number of the code: the nearest double, and Infinity where that is 2 ^ 1024 or more.
unfoldable pub rounded : ℕ → Number
rounded n = let d = double n in if ltb d (2 ^ 1024) then nat d else infinity false

pub rounded_exact : (n : ℕ) → n < exact_limit → rounded n ≡ nat n
unfolding rounded
rounded_exact n h = rw (double_exact n h) (ground arith)

-- The sum of two numbers that are natural or Infinity.
unfoldable pub plus : Number → Number → Number
plus (nat a) (nat b) = rounded (a + b)
plus _ _ = infinity false

double_rounds_even : double 0x20000000000001 ≡ 0x20000000000000
unfolding double
double_rounds_even = refl

double_rounds_up : double 0x20000000000003 ≡ 0x20000000000004
unfolding double
double_rounds_up = refl
