-- ===== src/Utf8.antt =====
-- Go's `utf8.ValidString` (unicode/utf8, standard library) over bytes, by its table of first bytes
-- and of the ranges that the bytes behind them may lie in.
pub mod Boundaries
pub mod Cuts
use alpha_proxy.Prelude.{
  ℕ, Bytes, List, [], ◌∷◌, Bool, true, false, ◌&&◌, ◌||◌, Option, none, some, ltb, leb,
  if◌then◌else◌, ◌==◌, ◌≡◌, refl,
}

abbrev pub in_range : ℕ → ℕ → ℕ → Bool
in_range lo hi c = leb lo c && leb c hi

-- The ranges of the bytes that have to follow a first byte, or `none` for a byte that starts no
-- character.
unfoldable pub following : ℕ → Option (List (ℕ × ℕ))
following c =
    if ltb c 0x80
    then some []
    else if in_range 0xC2 0xDF c
    then some ((0x80, 0xBF) ∷ [])
    else if c == 0xE0
    then some ((0xA0, 0xBF) ∷ (0x80, 0xBF) ∷ [])
    else if c == 0xED
    then some ((0x80, 0x9F) ∷ (0x80, 0xBF) ∷ [])
    else if in_range 0xE1 0xEF c
    then some ((0x80, 0xBF) ∷ (0x80, 0xBF) ∷ [])
    else if c == 0xF0
    then some ((0x90, 0xBF) ∷ (0x80, 0xBF) ∷ (0x80, 0xBF) ∷ [])
    else if in_range 0xF1 0xF3 c
    then some ((0x80, 0xBF) ∷ (0x80, 0xBF) ∷ (0x80, 0xBF) ∷ [])
    else if c == 0xF4
    then some ((0x80, 0x8F) ∷ (0x80, 0xBF) ∷ (0x80, 0xBF) ∷ [])
    else none

-- `valid_after pending s`: the bytes that the character at hand still needs, then valid text.
unfoldable pub valid_after : List (ℕ × ℕ) → Bytes → Bool
valid_after [] [] = true
valid_after (r ∷ pending) [] = false
valid_after [] (c ∷ s) = elim (following c) [ none ↦ false | some pending ↦ valid_after pending s ]
valid_after (r ∷ pending) (c ∷ s) = in_range r.0 r.1 c && valid_after pending s

unfoldable pub valid_string : Bytes → Bool
unfolding valid_after
valid_string s = valid_after [] s

cyrillic : valid_string (0xD0 ∷ 0x98 ∷ 0xD0 ∷ 0xBD ∷ b'!' ∷ []) ≡ true
unfolding valid_string following
cyrillic = refl

cut_character : valid_string (0x98 ∷ 0xD0 ∷ []) ≡ false
unfolding valid_string following
cut_character = refl
