-- ===== src/Redrive/Names.antt =====
-- The name of the queue that a dead-letter queue belongs to.
use Prim.Native.String.{[], ◌∷◌, ◌++◌, count}
use Prim.Native.Char.{Char}
use text.Mathlib.TextLemmas.{cons-append, length-append, length-cons}
use logistics_platform.Prelude.{
  String, ◌≡◌, refl, ap, false, inl, inr, Bool-cases, ◌==◌, eq_iff, if◌then◌else◌, arith,
}

-- `options.queue.replace(/\.dlq$/, "")`
unfoldable pub target_queue : String → String
target_queue [] = []
target_queue (c ∷ s) = let rest = target_queue s in if (c ∷ s) == ".dlq" then [] else c ∷ rest

-- A text is no other text of another length.
apart : (s t : String) → (count s ≡ count t → ⊥) → (s == t) ≡ false
apart s t differ = elim (Bool-cases (s == t)) [
  | inl same ↦ absurd (differ (ap count ((eq_iff s t).0 same)))
  | inr other ↦ other
]

longer : (c : Char) (s : String) → (c ∷ (s ++ ".dlq")) == ".dlq" ≡ false
longer c s = apart _ _ (λ e. omega (arith, length-cons c (s ++ ".dlq"), length-append s ".dlq"))

pub target_queue-dlq : (s : String) → target_queue (s ++ ".dlq") ≡ s
unfolding target_queue
target_queue-dlq [] = refl
target_queue-dlq (c ∷ s) =
    rw (cons-append c s ".dlq") (rw (longer c s) (rw (target_queue-dlq s) refl))

pub dlq_is_other : (s : String) → (s == s ++ ".dlq") ≡ false
dlq_is_other s = apart _ _ (λ e. omega (arith, length-append s ".dlq"))

pub dlq_differs : (s : String) → (s ++ ".dlq" == s) ≡ false
dlq_differs s = apart _ _ (λ e. omega (arith, length-append s ".dlq"))
