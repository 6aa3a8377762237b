-- ===== src/Utf8/Boundaries.antt =====
-- Where valid text may be cut.
use alpha_proxy.Prelude.{
  ℕ, Bytes, List, [], ◌∷◌, ◌++◌, true, some, ◌≡◌, refl, arith, ◌≢◌, Option-cases, inl, inr, ◌⊎◌,
  ◌≤◌, ◌<◌,
}
use alpha_proxy.Utf8.{valid_after, valid_string, following}

-- A valid front does not change what is asked of the rest.
pub valid_after-append :
    (pending : List (ℕ × ℕ)) (s t : Bytes)
    → valid_after pending s ≡ true
    → valid_after pending (s ++ t) ≡ valid_string t
unfolding valid_string valid_after
valid_after-append [] [] t h = refl
valid_after-append (r ∷ pending) [] t h = cc
valid_after-append [] (c ∷ s) t h = elim (Option-cases (following c)) [
  | inl e ↦ ground arith
  | inr (p, e) ↦ ground (arith, valid_after-append p s t)
]
valid_after-append (r ∷ pending) (c ∷ s) t h = ground (arith, valid_after-append pending s t)

-- Valid text in front of any text: the whole is valid when the rest is.
pub valid_string-append :
    (s t : Bytes) → valid_string s ≡ true → valid_string (s ++ t) ≡ valid_string t
unfolding valid_string
valid_string-append s t h = valid_after-append [] s t h

-- Every byte behind a first byte lies in 0x80 to 0xBF.
abbrev InnerRanges : List (ℕ × ℕ) → Type 0
InnerRanges [] = Unit
InnerRanges (r ∷ rs) = (0x80 ≤ r.0) × (r.1 ≤ 0xBF) × InnerRanges rs

following-inner : (c : ℕ) (p : List (ℕ × ℕ)) → following c ≡ some p → InnerRanges p
unfolding following
following-inner c p h = ground arith

-- A byte that starts a character lies in none of those ranges.
following-start : (c : ℕ) (p : List (ℕ × ℕ)) → following c ≡ some p → (c < 0x80) ⊎ (0xBF < c)
unfolding following
following-start c p h = ground arith

-- Text that is valid as a whole is cut at a character where what follows is valid and not empty.
cut_after :
    (pending : List (ℕ × ℕ)) (s : Bytes) (c : ℕ) (t : Bytes)
    → InnerRanges pending
    → valid_after pending (s ++ c ∷ t) ≡ true
    → (c < 0x80) ⊎ (0xBF < c)
    → valid_after pending s ≡ true
unfolding valid_after
cut_after [] [] c t i h st = refl
cut_after (r ∷ pending) [] c t i h st = ground arith
cut_after [] (b ∷ s) c t i h st = elim (Option-cases (following b)) [
  | inl e ↦ ground arith
  | inr (p, e) ↦ ground (arith, following-inner b p e, cut_after p s c t)
]
cut_after (r ∷ pending) (b ∷ s) c t i h st = ground (arith, cut_after pending s c t)

-- The front of a valid text is valid, where it ends before a first byte of valid text.
pub valid_string-front :
    (s m t : Bytes)
    → valid_string (s ++ (m ++ t)) ≡ true
    → valid_string m ≡ true
    → m ≢ []
    → valid_string s ≡ true
unfolding valid_string valid_after
valid_string-front s [] t h hm ne = absurd (ne refl)
valid_string-front s (c ∷ m) t h hm ne = elim (Option-cases (following c)) [
  | inl e ↦ ground arith
  | inr (p, e) ↦ cut_after [] s c (m ++ t) tt h (following-start c p e)
]
