-- ===== src/Redrive/Limits.antt =====
-- How many messages the option `--count` selects.
use logistics_platform.Prelude.{
  ℕ, zero, suc, ◌-◌, leb, ◌≡◌, refl, ap, Bool, true, false, not, Option, none, some, List, [], ◌∷◌,
  ◌++◌, arith, if◌then◌else◌,
}
use logistics_platform.Number.{Number, nat, neg, fraction, infinity, nan}
use logistics_platform.Redrive.{Message, below}

abbrev pub take {ℓ} : {A : Type ℓ} → ℕ → List A → List A
take zero xs = []
take (suc n) [] = []
take (suc n) (x ∷ xs) = x ∷ take n xs

-- How many messages a count asks for: none for all of them, as NaN does.
abbrev pub limit : Number → Option ℕ
limit (nat n) = some n
limit (neg n) = some 0
limit (fraction minus whole digits) = if minus then some 0 else some (suc whole)
limit (infinity minus) = if minus then some 0 else none
limit nan = none

abbrev pub selected : Option ℕ → List Message → List Message
selected none ms = ms
selected (some n) ms = take n ms

abbrev pub reached : ℕ → Option ℕ → Bool
reached n none = false
reached n (some k) = leb k n

-- What is left of a limit behind `n` messages.
abbrev pub after : ℕ → Option ℕ → Option ℕ
after n none = none
after n (some k) = some (k - n)

pub take_none : (k n : ℕ) (ms : List Message) → leb k n ≡ true → take (k - n) ms ≡ []
take_none k n ms h = let e : k - n ≡ 0 = ground arith in rw e refl

pub take_one :
    (k n : ℕ) (m : Message) (ms : List Message)
    → leb k n ≡ false
    → take (k - n) (m ∷ ms) ≡ m ∷ take (k - suc n) ms
take_one k n m ms h = let e : k - n ≡ suc (k - suc n) = ground arith in rw e refl

abbrev pub drop {ℓ} : {A : Type ℓ} → ℕ → List A → List A
drop zero xs = xs
drop (suc n) [] = []
drop (suc n) (x ∷ xs) = drop n xs

-- What is delivered behind the limit.
abbrev pub unselected : Option ℕ → List Message → List Message
unselected none ms = []
unselected (some n) ms = drop n ms

take-drop : (n : ℕ) (ms : List Message) → ms ≡ take n ms ++ drop n ms
take-drop zero ms = refl
take-drop (suc n) [] = refl
take-drop (suc n) (m ∷ ms) = ap (λ rest. m ∷ rest) (take-drop n ms)

pub split_at_limit :
    (left : Option ℕ) (ms : List Message) → ms ≡ selected left ms ++ unselected left ms
split_at_limit none [] = refl
split_at_limit none (m ∷ ms) = ap (λ rest. m ∷ rest) (split_at_limit none ms)
split_at_limit (some n) ms = take-drop n ms

-- What a count selects: as `limit`, but nothing for NaN.
abbrev pub due : Number → Option ℕ
due nan = some 0
due count = limit count

pub below-due : (count : Number) (n : ℕ) → below n count ≡ not (reached n (due count))
below-due (nat k) n = ground arith
below-due (neg k) n = ground arith
below-due (fraction true w d) n = ground arith
below-due (fraction false w d) n = ground arith
below-due (infinity true) n = ground arith
below-due (infinity false) n = ground arith
below-due nan n = ground arith

pub next_reached : (k n : ℕ) → reached (suc n) (some (suc k)) ≡ reached n (some k)
next_reached k n = ground arith

pub not_yet : (k : ℕ) → reached 0 (some (suc k)) ≡ false
not_yet k = ground arith
