-- ===== src/Text/Laws.antt =====
-- Laws of `trim`.
use Prim.Native.Char.{Char, code}
use Prim.Native.String.{[], ◌∷◌}
use logistics_platform.Prelude.{String, ◌≡◌, refl, inl, inr, false, arith, Bool-cases}
use logistics_platform.Text.{
  is_space, is_empty, trim_start, trim_end, trim, cons_unless_blank, text_length,
}

-- A text that `trimStart` leaves alone.
abbrev StartsInk : String → Type 0
StartsInk [] = Unit
StartsInk (c ∷ s) = is_space (code c) ≡ false

trim_start-StartsInk : (s : String) → StartsInk (trim_start s)
unfolding trim_start
trim_start-StartsInk [] = tt
trim_start-StartsInk (c ∷ s) = ground (arith, trim_start-StartsInk s)

trim_start_of_StartsInk : (s : String) → StartsInk s → trim_start s ≡ s
unfolding trim_start
trim_start_of_StartsInk [] h = refl
trim_start_of_StartsInk (c ∷ s) h = ground arith

cons_unless_blank-StartsInk :
    (c : Char) (s : String) → is_space (code c) ≡ false → StartsInk (cons_unless_blank c s)
cons_unless_blank-StartsInk c [] h = ground arith
cons_unless_blank-StartsInk c (d ∷ s) h = h

trim_end-StartsInk : (s : String) → StartsInk s → StartsInk (trim_end s)
unfolding trim_end
trim_end-StartsInk [] h = tt
trim_end-StartsInk (c ∷ s) h = cons_unless_blank-StartsInk c (trim_end s) h

trim_end-cons_unless_blank :
    (c : Char) (s : String)
    → trim_end s ≡ s
    → trim_end (cons_unless_blank c s) ≡ cons_unless_blank c s
unfolding trim_end
trim_end-cons_unless_blank c [] h = elim (Bool-cases (is_space (code c))) [
  | inl blank ↦ rw blank
  | inr ink ↦ rw ink (rw ink)
]
trim_end-cons_unless_blank c (d ∷ s) h = rw (h, trim_end)

trim_end_idem : (s : String) → trim_end (trim_end s) ≡ trim_end s
unfolding trim_end
trim_end_idem [] = refl
trim_end_idem (c ∷ s) = trim_end-cons_unless_blank c (trim_end s) (trim_end_idem s)

-- Trimming a trimmed text changes nothing.
pub trim_idem : (s : String) → trim (trim s) ≡ trim s
unfolding trim
trim_idem s =
    let ink = trim_end-StartsInk (trim_start s) (trim_start-StartsInk s) in
    ground
      (arith, trim_start_of_StartsInk (trim_end (trim_start s)) ink, trim_end_idem (trim_start s))

pub is_empty_of_text_length : (s : String) → text_length s ≡ 3 → is_empty s ≡ false
unfolding text_length
is_empty_of_text_length [] h = absurd (omega arith)
is_empty_of_text_length (c ∷ s) h = refl
