-- ===== src/Act.antt =====
-- Asynchronous code as state passing: a call returns or throws, and what was written before a
-- throw stays written.
use logistics_platform.Prelude.{◌≡◌, refl, ap, arith}
use logistics_platform.Result.{Failure, Result, ok, err, ok-injective}

abbrev pub Act {ℓ} : Type ℓ → Type ℓ → Type ℓ
Act W A = W → Result A × W

module _ {ℓ} {W A : Type ℓ} where
  abbrev pub pure : A → Act W A
  pure a w = (ok a, w)

  abbrev pub throw : Failure → Act W A
  throw e w = (err e, w)

  abbrev pub lift : Result A → Act W A
  lift r w = (r, w)

  abbrev pub caught : Result A × W → (Failure → Act W A) → Result A × W
  caught (ok a, w) h = (ok a, w)
  caught (err e, w) h = h e w

  -- `try { m } catch (e) { h(e) }`
  abbrev pub try : Act W A → (Failure → Act W A) → Act W A
  try m h w = caught (m w) h

module _ {ℓ} {W A B : Type ℓ} where
  abbrev pub continue : Result A × W → (A → Act W B) → Result B × W
  continue (ok a, w) f = f a w
  continue (err e, w) f = (err e, w)

  infixl 5 ◌>>=◌ ◌>>◌
  abbrev pub ◌>>=◌ : Act W A → (A → Act W B) → Act W B
  ◌>>=◌ m f w = continue (m w) f

  abbrev pub ◌>>◌ : Act W A → Act W B → Act W B
  m >> n = m >>= λ _. n

module _ {ℓ} {W A B : Type ℓ} where
  -- Where the rest returns at once, the state is the one that the first call left.
  pub state_of_continue-pure :
      (m : Result A × W) (g : A → B) → (continue m (λ a. pure (g a))).1 ≡ m.1
  state_of_continue-pure (ok a, w) g = refl
  state_of_continue-pure (err e, w) g = refl

  pub continue_ok :
      (m : Result A × W) (f : A → Act W B) {a : A} → m.0 ≡ ok a → continue m f ≡ f a m.1
  continue_ok (ok a, w) f h = rw (ok-injective h)
  continue_ok (err e, w) f h = cc

  pub continue_err :
      (m : Result A × W) (f : A → Act W B) {e : Failure} → m.0 ≡ err e → continue m f ≡ (err e, m.1)
  continue_err (ok a, w) f h = cc
  continue_err (err e, w) f h = ground arith

  -- Inversion of a sequence that returned.
  pub continue-eq-ok :
      (m : Result A × W) (f : A → Act W B) {b : B} {w' : W}
      → continue m f ≡ (ok b, w')
      → (a : A) × (w1 : W) × (m ≡ (ok a, w1)) × (f a w1 ≡ (ok b, w'))
  continue-eq-ok (ok a, w1) f h = (a, w1, refl, h)
  continue-eq-ok (err e, w1) f h = cc (ap (λ (x : Result B × W). x.0) h)

module _ {ℓ} {W A : Type ℓ} where
  -- Inversion of a return.
  pub pure-eq-ok : {a b : A} {w w' : W} → pure a w ≡ (ok b, w') → (a ≡ b) × (w ≡ w')
  pure-eq-ok h = (ok-injective (ap (λ (x : Result A × W). x.0) h), ap (λ (x : Result A × W). x.1) h)

  pub lift-eq-ok : {r : Result A} {b : A} {w w' : W} → lift r w ≡ (ok b, w') → (r ≡ ok b) × (w ≡ w')
  lift-eq-ok h = (ap (λ (x : Result A × W). x.0) h, ap (λ (x : Result A × W). x.1) h)
