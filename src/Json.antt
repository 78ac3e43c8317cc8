-- ===== src/Json.antt =====
-- JSON values, as `JSON.parse` returns them, and the readers that Zod schemas are made of.
-- A key stands once in an object.
use logistics_platform.Prelude.{
  ◌≡◌, refl, ℕ, String, Bool, true, false, Option, none, some, List, [], ◌∷◌, ◌==◌, eqb, leb, ltb,
  if◌then◌else◌,
}
use logistics_platform.Number.{Number, nat, neg, fraction, infinity, nan}
use logistics_platform.Text.{text_length}

mutual
  pub data Json : Type 0 where
    null : Json
    bool : Bool → Json
    num : Number → Json
    str : String → Json
    arr : Items → Json
    obj : Fields → Json

  pub data Items : Type 0 where
    nil : Items
    cons : Json → Items → Items

  pub data Fields : Type 0 where
    end : Fields
    field : String → Json → Fields → Fields

abbrev pub of_list : List Json → Items
of_list [] = nil
of_list (v ∷ vs) = cons v (of_list vs)

abbrev pub get : String → Fields → Option Json
get k end = none
get k (field j v fs) = let rest = get k fs in if j == k then some v else rest

infixl 5 ◌>>=◌ ◌>>◌
abbrev pub ◌>>=◌ {ℓ κ} : {A : Type ℓ} {B : Type κ} → Option A → (A → Option B) → Option B
none >>= f = none
some a >>= f = f a

abbrev pub ◌>>◌ {ℓ} : {B : Type ℓ} → Option (Unit {0}) → Option B → Option B
m >> k = m >>= λ _. k

pub >>=-eq-some {ℓ κ} :
    {A : Type ℓ} {B : Type κ} (m : Option A) (f : A → Option B) {b : B}
    → (m >>= f) ≡ some b
    → (a : A) × (m ≡ some a) × (f a ≡ some b)
>>=-eq-some none f h = cc
>>=-eq-some (some a) f h = (a, refl, h)

abbrev pub check : Bool → Option (Unit {0})
check true = some tt
check false = none

-- `z.string()` and its refinements
abbrev pub string : Json → Option String
string (str s) = some s
string _ = none

abbrev pub string_where : (String → Bool) → Json → Option String
string_where p v = do s ← string v; check (p s); some s

abbrev pub at_least_one : String → Bool
at_least_one s = leb 1 (text_length s)

abbrev pub has_length : ℕ → String → Bool
has_length n s = eqb (text_length s) n

-- `z.number()`, which refuses NaN, and its refinements
abbrev pub number_where : (Number → Bool) → Json → Option Number
number_where p (num nan) = none
number_where p (num n) = do check (p n); some n
number_where p _ = none

abbrev pub positive_int : Number → Bool
positive_int (nat n) = ltb 0 n
positive_int _ = false

abbrev pub nonnegative_int : Number → Bool
nonnegative_int (nat n) = true
nonnegative_int _ = false

-- `.min(-bound).max(bound)` for an integer bound
abbrev pub within : ℕ → Number → Bool
within bound (nat n) = leb n bound
within bound (neg n) = ltb n bound
within bound (fraction minus whole digits) = ltb whole bound
within bound (infinity minus) = false
within bound nan = false

-- `.nullable()`
abbrev pub nullable {ℓ} : {A : Type ℓ} → (Json → Option A) → Json → Option (Option A)
nullable p null = some none
nullable p v = do some (some (← p v))

-- `z.array(p)`
abbrev pub all_of {ℓ} : {A : Type ℓ} → (Json → Option A) → Items → Option (List A)
all_of p nil = some []
all_of p (cons v vs) = do some ((← p v) ∷ (← all_of p vs))

abbrev pub array {ℓ} : {A : Type ℓ} → (Json → Option A) → Json → Option (List A)
array p (arr vs) = all_of p vs
array p _ = none

-- `z.object({ … })`
abbrev pub object : Json → Option Fields
object (obj fs) = some fs
object _ = none

-- A key that must be there.
abbrev pub required {ℓ} : {A : Type ℓ} → (Json → Option A) → Option Json → Option A
required p none = none
required p (some v) = p v
