-- ===== src/Text.antt =====
-- What the services use of JavaScript strings. A text is a `String` of Unicode characters, so a
-- JavaScript string with an unpaired surrogate is not represented.
pub mod Laws
pub mod Letters
use Prim.Native.Char.{Char, code}
use Prim.Native.String.{[], ◌∷◌}
use Prim.Native.String
use logistics_platform.Prelude.{
  ℕ, ◌+◌, ◌-◌, String, Bool, true, false, ◌&&◌, ◌||◌, ltb, leb, eqb, if◌then◌else◌,
}

-- A white space or a line terminator of ECMAScript.
unfoldable pub is_space : ℕ → Bool
is_space c =
    (leb 9 c && leb c 13)
    || eqb c 32
    || eqb c 160
    || eqb c 0x1680
    || (leb 0x2000 c && leb c 0x200a)
    || eqb c 0x2028
    || eqb c 0x2029
    || eqb c 0x202f
    || eqb c 0x205f
    || eqb c 0x3000
    || eqb c 0xfeff

abbrev pub is_empty : String → Bool
is_empty [] = true
is_empty (c ∷ s) = false

unfoldable pub trim_start : String → String
trim_start [] = []
trim_start (c ∷ s) = let rest = trim_start s in if is_space (code c) then rest else c ∷ s

abbrev pub cons_unless_blank : Char → String → String
cons_unless_blank c [] = if is_space (code c) then [] else c ∷ []
cons_unless_blank c (d ∷ s) = c ∷ d ∷ s

unfoldable pub trim_end : String → String
trim_end [] = []
trim_end (c ∷ s) = cons_unless_blank c (trim_end s)

-- `s.trim()`
unfoldable pub trim : String → String
unfolding trim_start trim_end is_space
trim s = trim_end (trim_start s)

-- `s.length`, in UTF-16 units
unfoldable pub text_length : String → ℕ
text_length [] = 0
text_length (c ∷ s) = (if ltb (code c) 0x10000 then 1 else 2) + text_length s

-- The character of the second text that stands where `c` stands in the first, or `c` itself.
translate : String → String → Char → Char
translate [] bs c = c
translate (a ∷ as') [] c = c
translate (a ∷ as') (b ∷ bs) c =
    let rest = translate as' bs c in if eqb (code a) (code c) then b else rest

-- `s.toUpperCase()`: the ASCII letters by their table, any other character by the case mapping of
-- the Unicode version that the host implements.
unfoldable pub to_upper_case : (Char → String) → String → String
unfolding translate
to_upper_case other [] = []
to_upper_case other (c ∷ s) =
    String.◌++◌
      (if ltb (code c) 128
        then translate "abcdefghijklmnopqrstuvwxyz" "ABCDEFGHIJKLMNOPQRSTUVWXYZ" c ∷ []
        else other c)
      (to_upper_case other s)
