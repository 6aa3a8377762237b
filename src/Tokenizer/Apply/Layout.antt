-- ===== src/Tokenizer/Apply/Layout.antt =====
-- What the validation of `ApplyReplacements` establishes.
use alpha_proxy.Pii.{Ctx, background, ok, Replacement, ctx_err, >>=-eq-ok}
use alpha_proxy.Prelude.{
  ℕ, Bytes, List, [], ◌∷◌, true, false, Option, none, some, ◌≡◌, refl, arith, ◌≤◌, ◌<◌, length,
  bytes_eq, bytes_eq_iff,
}
use alpha_proxy.Prelude.Int.{neg_part_of_pos, ℤ, pos_part, neg_part}
use alpha_proxy.Prelude.Sort.Sorted.{IsSorted}
use alpha_proxy.Tokenizer.Apply.{
  starts_before, overlaps_previous, validate_one, validate_from, validate_replacements,
}
use alpha_proxy.Tokenizer.Span.{slice_ℤ, validate_span}
use alpha_proxy.Utf8.{valid_string}

-- What `validateSpan` accepts.
pub record IsSpan (text : Bytes) (start end : ℤ) : Type 0 where
  pub nonneg : neg_part start ≡ 0
  pub nonempty : pos_part start < pos_part end
  pub within : pos_part end ≤ length text
  pub valid : valid_string (slice_ℤ text start end) ≡ true

pub record IsPlaced (text : Bytes) (r : Replacement) : Type 0 where
  pub span : IsSpan text r.start r.end
  pub original : slice_ℤ text r.start r.end ≡ r.original
  pub token : bytes_eq r.token [] ≡ false

-- Every replacement is in place, and begins at or behind the end of the one before it.
abbrev pub Layout : Bytes → ℕ → List Replacement → Type 0
Layout text from [] = from ≤ length text
Layout text from (r ∷ rs) =
    (from ≤ pos_part r.start) × IsPlaced text r × Layout text (pos_part r.end) rs

pub validate_span-IsSpan :
    (text : Bytes) (start end : ℤ) → validate_span text start end ≡ ok tt → IsSpan text start end
unfolding validate_span
validate_span-IsSpan text start end h = ground arith

pub IsSpan-validate_span :
    (text : Bytes) (start end : ℤ) → IsSpan text start end → validate_span text start end ≡ ok tt
unfolding validate_span
IsSpan-validate_span text start end h = ground arith

validate_one-IsPlaced :
    (text : Bytes) (previous : Option Replacement) (r : Replacement)
    → validate_one text previous r ≡ ok tt
    → IsPlaced text r × (overlaps_previous previous r ≡ false)
unfolding validate_one
validate_one-IsPlaced text previous r h = ground (
  arith,
  validate_span-IsSpan text r.start r.end,
  bytes_eq_iff (slice_ℤ text r.start r.end) r.original,
)

IsPlaced-validate_one :
    (text : Bytes) (previous : Option Replacement) (r : Replacement)
    → IsPlaced text r
    → overlaps_previous previous r ≡ false
    → validate_one text previous r ≡ ok tt
unfolding validate_one
IsPlaced-validate_one text previous r p h = ground (
  arith,
  IsSpan-validate_span text r.start r.end p.span,
  bytes_eq_iff (slice_ℤ text r.start r.end) r.original,
)

module _ (text : Bytes) (p r : Replacement) where
  -- Two spans in order that do not overlap lie behind one another, and the other way round.
  behind :
      IsSpan text p.start p.end
      → IsSpan text r.start r.end
      → starts_before r p ≡ false
      → overlaps_previous (some p) r ≡ false
      → pos_part p.end ≤ pos_part r.start
  unfolding starts_before overlaps_previous
  behind hp hr s o = ground (arith, neg_part_of_pos p.end, neg_part_of_pos r.end)

  apart :
      IsSpan text p.start p.end
      → IsSpan text r.start r.end
      → pos_part p.end ≤ pos_part r.start
      → overlaps_previous (some p) r ≡ false
  unfolding overlaps_previous
  apart hp hr h = ground (arith, neg_part_of_pos p.end, neg_part_of_pos r.end)

  in_order :
      IsSpan text p.start p.end
      → IsSpan text r.start r.end
      → pos_part p.end ≤ pos_part r.start
      → starts_before r p ≡ false
  unfolding starts_before
  in_order hp hr h = ground (arith, neg_part_of_pos p.end, neg_part_of_pos r.end)

-- Where the validation of a sorted list succeeds, the list is laid out in the text.
validate_from-Layout :
    (text : Bytes) (ctx : Ctx) (p : Replacement) (rs : List Replacement) {c : Ctx}
    → IsPlaced text p
    → IsSorted starts_before (p ∷ rs)
    → validate_from text ctx (some p) rs ≡ ok c
    → Layout text (pos_part p.end) rs
unfolding validate_from
validate_from-Layout text ctx p [] hp s h = hp.span.within
validate_from-Layout text ctx p (r ∷ rs) hp s h =
    let (c, hc, h₁) = >>=-eq-ok (ctx_err ctx) _ h in
    let (u, hu, h₂) = >>=-eq-ok (validate_one text (some p) r) _ h₁ in
    let (hr, apart) = validate_one-IsPlaced text (some p) r hu in
    (behind text p r hp.span hr.span s.0 apart, hr, validate_from-Layout text c r rs hr s.1 h₂)

-- Where the validation of a sorted list succeeds, the whole list is laid out in the text.
pub validate-Layout :
    (text : Bytes) (ctx : Ctx) (rs : List Replacement) {c : Ctx}
    → IsSorted starts_before rs
    → validate_replacements ctx text rs ≡ ok c
    → Layout text 0 rs
unfolding validate_replacements
validate-Layout text ctx [] s h = omega arith
validate-Layout text ctx (r ∷ rs) s h =
    let (c, hc, h₁) = >>=-eq-ok (ctx_err ctx) _ h in
    let (u, hu, h₂) = >>=-eq-ok (validate_one text none r) _ h₁ in
    let (hr, _) = validate_one-IsPlaced text none r hu in
    (omega arith, hr, validate_from-Layout text c r rs hr s h₂)

validate_from-ok :
    (text : Bytes) (p : Replacement) (rs : List Replacement)
    → IsSpan text p.start p.end
    → Layout text (pos_part p.end) rs
    → validate_from text background (some p) rs ≡ ok background
unfolding validate_from
validate_from-ok text p [] hp l = refl
validate_from-ok text p (r ∷ rs) hp (h, hr, l) =
    rw (IsPlaced-validate_one text (some p) r hr (apart text p r hp hr.span h))
      (validate_from-ok text r rs hr.span l)

-- A list that is laid out in the text passes the validation, unless the context ends.
pub Layout-validate :
    (text : Bytes) (rs : List Replacement)
    → Layout text 0 rs
    → validate_replacements background text rs ≡ ok background
unfolding validate_replacements
Layout-validate text [] l = refl
Layout-validate text (r ∷ rs) (h, hr, l) =
    rw (IsPlaced-validate_one text none r hr (unfold overlaps_previous in refl))
      (validate_from-ok text r rs hr.span l)

-- Such a list is in the order that the sort gives it.
pub Layout-IsSorted :
    (text : Bytes) (from : ℕ) (rs : List Replacement)
    → Layout text from rs
    → IsSorted starts_before rs
Layout-IsSorted text from [] l = tt
Layout-IsSorted text from (r ∷ []) l = tt
Layout-IsSorted text from (r ∷ q ∷ rs) (h, hr, l) =
    (in_order text r q hr.span l.1.span l.0, Layout-IsSorted text (pos_part r.end) (q ∷ rs) l)

pub starts_before_asym : (a b : Replacement) → starts_before a b ≡ true → starts_before b a ≡ false
unfolding starts_before
starts_before_asym a b h = ground arith
