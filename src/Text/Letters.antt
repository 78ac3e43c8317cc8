-- ===== src/Text/Letters.antt =====
-- Texts of ASCII letters, which trimming leaves alone and upper-casing maps letter by letter.
use Prim.Native.Char.{Char, code}
use Prim.Native.String.{[], ◌∷◌}
use Prim.Native.String.append
use logistics_platform.Prelude.{
  String, ◌≡◌, refl, Bool, true, false, ◌&&◌, ◌||◌, leb, ltb, arith, ap, ◌∙◌,
}
use logistics_platform.Text.{
  is_space, trim_start, trim_end, trim, cons_unless_blank, text_length, translate, to_upper_case,
}

abbrev pub is_letter : Char → Bool
is_letter c = (leb b'A' (code c) && leb (code c) b'Z') || (leb b'a' (code c) && leb (code c) b'z')

abbrev pub letters : String → Bool
letters [] = true
letters (c ∷ s) = is_letter c && letters s

letter-space : (c : Char) → is_letter c ≡ true → is_space (code c) ≡ false
unfolding is_space
letter-space c h = ground arith

trim_start-letters : (s : String) → letters s ≡ true → trim_start s ≡ s
unfolding trim_start
trim_start-letters [] h = refl
trim_start-letters (c ∷ s) h = ground (arith, letter-space c)

trim_end-letters : (s : String) → letters s ≡ true → trim_end s ≡ s
unfolding trim_end
trim_end-letters [] h = refl
trim_end-letters (c ∷ []) h = ground (arith, letter-space c)
trim_end-letters (c ∷ d ∷ s) h = ap (cons_unless_blank c) (trim_end-letters (d ∷ s) (ground arith))

pub trim-letters : (s : String) → letters s ≡ true → trim s ≡ s
unfolding trim
trim-letters s h = ap trim_end (trim_start-letters s h) ∙ trim_end-letters s h

translate-letter :
    (as' bs : String) (c : Char)
    → letters bs ≡ true
    → is_letter c ≡ true
    → is_letter (translate as' bs c) ≡ true
unfolding translate
translate-letter [] bs c hb hc = hc
translate-letter (a ∷ as') [] c hb hc = hc
translate-letter (a ∷ as') (b ∷ bs) c hb hc = ground (arith, translate-letter as' bs c)

-- A letter becomes a letter.
upper_one-letters :
    (other : Char → String) (c : Char) (s : String)
    → is_letter c ≡ true
    → (d : Char) × (is_letter d ≡ true) × (to_upper_case other (c ∷ s) ≡ d ∷ to_upper_case other s)
unfolding to_upper_case
upper_one-letters other c s h =
    let d = translate "abcdefghijklmnopqrstuvwxyz" "ABCDEFGHIJKLMNOPQRSTUVWXYZ" c in
    let rest = to_upper_case other s in
    let small : ltb (code c) 128 ≡ true = ground arith in
    (
      d,
      translate-letter "abcdefghijklmnopqrstuvwxyz" "ABCDEFGHIJKLMNOPQRSTUVWXYZ" c refl h,
      rw small ((λ i. append.cons d [] rest i) ∙ ap (λ t. d ∷ t) (λ i. append.nil rest i)),
    )

pub to_upper_case-letters :
    (other : Char → String) (s : String)
    → letters s ≡ true
    → (letters (to_upper_case other s) ≡ true)
      × (text_length (to_upper_case other s) ≡ text_length s)
unfolding text_length to_upper_case
to_upper_case-letters other [] h = (refl, refl)
to_upper_case-letters other (c ∷ s) h =
    let (d, letter, same) = upper_one-letters other c s (ground arith) in
    let (rest, size) = to_upper_case-letters other s (ground arith) in
    (rw same (ground arith), rw same (ground arith))
