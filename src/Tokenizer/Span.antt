-- ===== src/Tokenizer/Span.antt =====
-- internal/tokenizer/plan.go: `validateSpan`, and the slices `text[a:b]` that it guards.
use alpha_proxy.Pii.{Result, ok, err, invalid_span}
use native.Mathlib.Nat.{sub-zero, suc-sub-suc}
use alpha_proxy.Prelude.{
  zero, suc, ◌≤◌, [], ◌∷◌, ◌++◌, take-append-drop, length-drop, length-take, refl, ap, sym, ◌∙◌,
  ◌+◌, arith, ℕ, Bytes, not, ◌||◌, ◌-◌, ◌≡◌, take, drop, length, if◌then◌else◌,
}
use alpha_proxy.Prelude.Int.{ℤ, pos, pos_part, ltb_ℤ, leb_ℤ}
use alpha_proxy.Utf8.{valid_string}

-- `text[a:b]`, which the source writes only where 0 ≤ a ≤ b ≤ len(text) holds.
abbrev pub slice : Bytes → ℕ → ℕ → Bytes
slice text a b = take (b - a) (drop a text)

abbrev pub slice_ℤ : Bytes → ℤ → ℤ → Bytes
slice_ℤ text a b = slice text (pos_part a) (pos_part b)

unfoldable pub validate_span : Bytes → ℤ → ℤ → Result (Unit {0})
validate_span text start end =
    if ltb_ℤ start (pos 0) || ltb_ℤ (pos (length text)) end || leb_ℤ end start
    then err invalid_span
    else if not (valid_string (slice_ℤ text start end))
    then err invalid_span
    else ok tt

take_of_length-le : (n : ℕ) (s : Bytes) → length s ≤ n → take n s ≡ s
take_of_length-le zero [] h = refl
take_of_length-le zero (c ∷ s) h = absurd (omega arith)
take_of_length-le (suc n) [] h = refl
take_of_length-le (suc n) (c ∷ s) h = ap (◌∷◌ c) (take_of_length-le n s (omega arith))

-- A slice and the text behind it.
pub slice-drop : (from to : ℕ) (s : Bytes) → from ≤ to → slice s from to ++ drop to s ≡ drop from s
slice-drop zero to s h = rw sub-zero (take-append-drop to s)
slice-drop (suc from) zero s h = absurd (omega arith)
slice-drop (suc from) (suc to) [] h =
    ap (λ t. t ++ []) (take_of_length-le (suc to - suc from) [] (omega arith))
slice-drop (suc from) (suc to) (c ∷ s) h = rw suc-sub-suc (slice-drop from to s (omega arith))

-- The slice to the end of a text.
pub slice_end : (from : ℕ) (s : Bytes) → slice s from (length s) ≡ drop from s
slice_end from s =
    take_of_length-le (length s - from) (drop from s) (omega (arith, length-drop from s))

drop-drop : (m n : ℕ) (s : Bytes) → drop m (drop n s) ≡ drop (n + m) s
drop-drop m zero s = let same : 0 + m ≡ m = omega arith in rw same refl
drop-drop m (suc n) [] = let step : suc n + m ≡ suc (n + m) = omega arith in rw step (drop_nil m)
  where
    drop_nil : (m : ℕ) → ◌≡◌ {A = Bytes} (drop m []) []
    drop_nil zero = refl
    drop_nil (suc m) = refl
drop-drop m (suc n) (c ∷ s) =
    let step : suc n + m ≡ suc (n + m) = omega arith in rw step (drop-drop m n s)

take-take : (m n : ℕ) (s : Bytes) → m ≤ n → take m (take n s) ≡ take m s
take-take zero n s h = refl
take-take (suc m) zero s h = absurd (omega arith)
take-take (suc m) (suc n) [] h = refl
take-take (suc m) (suc n) (c ∷ s) h = ap (◌∷◌ c) (take-take m n s (omega arith))

drop-take : (m n : ℕ) (s : Bytes) → drop m (take n s) ≡ take (n - m) (drop m s)
drop-take zero n s = rw sub-zero refl
drop-take (suc m) zero s = let nothing : zero - suc m ≡ 0 = omega arith in rw nothing refl
drop-take (suc m) (suc n) [] = sym (take_of_length-le (suc n - suc m) [] (omega arith))
drop-take (suc m) (suc n) (c ∷ s) = rw suc-sub-suc (drop-take m n s)

-- A slice of a slice.
pub slice-slice :
    (s : Bytes) (a b x y : ℕ)
    → y ≤ length (slice s a b)
    → slice (slice s a b) x y ≡ slice s (a + x) (a + y)
slice-slice s a b x y h =
    let inside : y - x ≤ (b - a) - x = omega (arith, h, length-take (b - a) (drop a s)) in
    let same : y - x ≡ (a + y) - (a + x) = omega arith in
    ap (take (y - x)) (drop-take x (b - a) (drop a s))
    ∙ take-take (y - x) ((b - a) - x) (drop x (drop a s)) inside
    ∙ ap (take (y - x)) (drop-drop x a s)
    ∙ ap (λ n. take n (drop (a + x) s)) same
