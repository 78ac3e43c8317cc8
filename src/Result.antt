-- ===== src/Result.antt =====
-- What a call returns or throws.
use logistics_platform.Prelude.{
  ℕ, String, ◌⊎◌, inl, inr, ◌≡◌, refl, Bool, if◌then◌else◌, List, [], ◌∷◌, All, ap, subst,
}

-- What is thrown. `known_request` is Prisma's error with a `code`; `thrown` is a value that is no
-- `Error`, with its text.
pub data Failure : Type 0 where
  error : (message : String) → Failure
  not_found_exception : (message : String) → Failure
  http_status : (status : ℕ) → (message : String) → Failure
  known_request : (code message : String) → Failure
  zod_error : Failure
  thrown : (text : String) → Failure

-- `err instanceof Error ? err.message : String(err)`. What Zod writes is not modelled.
abbrev pub message : Failure → String
message (error m) = m
message (not_found_exception m) = m
message (http_status status m) = m
message (known_request code m) = m
message zod_error = "ZodError"
message (thrown text) = text

pub data Result {ℓ} (A : Type ℓ) : Type ℓ where
  ok : A → Result A
  err : Failure → Result A

pub Result-cases {ℓ} :
    {A : Type ℓ} (r : Result A) → ((a : A) × (r ≡ ok a)) ⊎ ((e : Failure) × (r ≡ err e))
Result-cases (ok a) = inl (a, refl)
Result-cases (err e) = inr (e, refl)

module _ {ℓ κ} {A : Type ℓ} {B : Type κ} where
  infixl 5 ◌>>=◌
  abbrev pub ◌>>=◌ : Result A → (A → Result B) → Result B
  ◌>>=◌ (err e) rest = err e
  ◌>>=◌ (ok a) rest = rest a

  -- Inversion of a chain that returned.
  pub >>=-eq-ok :
      (first : Result A) (rest : A → Result B) {b : B}
      → (first >>= rest) ≡ ok b
      → (a : A) × (first ≡ ok a) × (rest a ≡ ok b)
  >>=-eq-ok (err e) rest threw = cc
  >>=-eq-ok (ok a) rest returned = (a, refl, returned)

-- `xs.map(f)` for an `f` that may throw
abbrev pub map_all {ℓ κ} : {A : Type ℓ} {B : Type κ} → (A → Result B) → List A → Result (List B)
map_all f [] = ok []
map_all f (x ∷ xs) = do ok ((← f x) ∷ (← map_all f xs))

infixl 5 ◌>>◌
abbrev pub ◌>>◌ {ℓ} : {B : Type ℓ} → Result (Unit {0}) → Result B → Result B
◌>>◌ check rest = check >>= λ _. rest

-- `if (!test) throw e`
abbrev pub guard : Bool → Failure → Result (Unit {0})
guard test e = if test then ok tt else err e

abbrev returned {ℓ} : {A : Type ℓ} → A → Result A → A
returned a (ok b) = b
returned a (err e) = a

pub ok-injective {ℓ} : {A : Type ℓ} {a b : A} → ok a ≡ ok b → a ≡ b
ok-injective {a} h = ap (returned a) h

-- What `f` ensures of each result holds of all results of `map_all f`.
pub map_all-All {ℓ κ μ} :
    {A : Type ℓ} {B : Type κ} (f : A → Result B) (P : B → Type μ)
    → ((a : A) (b : B) → f a ≡ ok b → P b)
    → (xs : List A) (ys : List B) → map_all f xs ≡ ok ys
    → All P ys
map_all-All f P ensures [] [] h = tt
map_all-All f P ensures [] (y ∷ ys) h = cc
map_all-All f P ensures (x ∷ xs) ys h =
    let (y, first, rest_ok) = >>=-eq-ok (f x) _ h in
    let (ys', rest, same) = >>=-eq-ok (map_all f xs) _ rest_ok in
    subst (All P) (ok-injective same) (ensures x y first, map_all-All f P ensures xs ys' rest)
