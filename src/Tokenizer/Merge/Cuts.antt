-- ===== src/Tokenizer/Merge/Cuts.antt =====
-- The fragments that `resolveOverlaps` makes of spans of whole characters.
use alpha_proxy.Pii.{background, ok, Replacement}
use alpha_proxy.Prelude.{
  ℕ, ◌≤◌, ◌<◌, ◌-◌, Bytes, List, [], ◌∷◌, ◌++◌, map, true, ◌≡◌, ◌≢◌, refl, ap, ◌∙◌, arith, All,
  All-append, length, take, drop, length-take, length-drop, take-append-drop,
}
use alpha_proxy.Prelude.Int.{ℤ, pos_part, neg_part, neg_part_of_pos}
use alpha_proxy.Tokenizer.Allocator.Format.{IsKindText}
use alpha_proxy.Tokenizer.Apply.Layout.{IsSpan}
use alpha_proxy.Tokenizer.Merge.{fragment, uncovered_spans, select_from}
use alpha_proxy.Tokenizer.Merge.Gaps.{IsGap, uncovered_spans-All}
use alpha_proxy.Tokenizer.Span.{slice, slice_ℤ, slice-drop}
use alpha_proxy.Utf8.{valid_string}
use alpha_proxy.Utf8.Boundaries.{valid_string-front}
use alpha_proxy.Utf8.Cuts.{IsCut, valid_string-prefix, valid_string-rest}

-- A slice between two cuts is valid.
pub slice_of_cuts :
    (text : Bytes) (a b : ℕ)
    → a ≤ b
    → IsCut text a
    → IsCut text b
    → valid_string (slice text a b) ≡ true
slice_of_cuts text a b h ca cb =
    valid_string-prefix (slice text a b) (drop b text)
      (ap valid_string (slice-drop a b text h) ∙ ca.rest) cb.rest

slice-ne-nil : (text : Bytes) (a b : ℕ) → a < b → b ≤ length text → slice text a b ≢ []
slice-ne-nil text a b h h' e =
    let short : length (slice text a b) ≡ 0 = ap length e in
    omega (arith, short, length-take (b - a) (drop a text), length-drop a text)

-- A valid slice that is not empty lies between two cuts of a valid text.
pub IsSpan-IsCut :
    (text : Bytes) (a b : ℤ)
    → valid_string text ≡ true
    → IsSpan text a b
    → IsCut text (pos_part a) × IsCut text (pos_part b)
IsSpan-IsCut text a b v s =
    let x = pos_part a in
    let y = pos_part b in
    let inside = s.nonempty in
    let within = s.within in
    let parts : slice text x y ++ drop y text ≡ drop x text =
      slice-drop x y text (omega (arith, inside)) in
    let whole : valid_string (take x text ++ drop x text) ≡ true =
      ap valid_string (take-append-drop x text) ∙ v in
    let front : valid_string (take x text) ≡ true =
      valid_string-front (take x text) (slice text x y) (drop y text)
        (ap (λ r. valid_string (take x text ++ r)) parts ∙ whole) s.valid
        (slice-ne-nil text x y inside within) in
    let first : valid_string (drop x text) ≡ true =
      valid_string-rest (take x text) (drop x text) whole front in
    let second : valid_string (drop y text) ≡ true =
      valid_string-rest (slice text x y) (drop y text) (ap valid_string parts ∙ first) s.valid in
    (
      record { within = omega (arith, inside, within); rest = first },
      record { within = within; rest = second },
    )

-- A replacement of a span of whole characters, with its text and a kind as types.go spells them.
pub record IsGood (text : Bytes) (r : Replacement) : Type 0 where
  pub span : IsSpan text r.start r.end
  pub original : slice_ℤ text r.start r.end ≡ r.original
  pub kind : IsKindText r.kind

abbrev IsEnd : Bytes → ℤ → Type 0
IsEnd text x = (neg_part x ≡ 0) × IsCut text (pos_part x)

module _ (text : Bytes) (v : valid_string text ≡ true) where
  ends : (r : Replacement) → IsGood text r → IsEnd text r.start × IsEnd text r.end
  ends r g =
      let cuts = IsSpan-IsCut text r.start r.end v g.span in
      let inside = g.span.nonempty in
      ((g.span.nonneg, cuts.0), (neg_part_of_pos r.end (omega (arith, inside)), cuts.1))

  all_ends :
      (rs : List Replacement)
      → All (IsGood text) rs
      → All (λ r. IsEnd text r.start × IsEnd text r.end) rs
  all_ends [] h = tt
  all_ends (r ∷ rs) (h, hs) = (ends r h, all_ends rs hs)

  fragments-IsGood :
      (c : Replacement) (us : List (ℤ × ℤ))
      → IsKindText c.kind
      → All (IsGap (IsEnd text)) us
      → All (IsGood text) (map (fragment text c) us)
  unfolding fragment
  fragments-IsGood c [] k h = tt
  fragments-IsGood c (u ∷ us) k ((a, b, l), hs) =
      let left = a.0 in
      let right = b.0 in
      let size = b.1.within in
      (
        record {
          span = record {
            nonneg = a.0;
            nonempty = omega (arith, left, right, l);
            within = size;
            valid =
                slice_of_cuts text (pos_part u.0) (pos_part u.1) (omega (arith, left, right, l)) a.1
                  b.1;
          };
          original = refl;
          kind = k;
        },
        fragments-IsGood c us k hs,
      )

  -- `resolveOverlaps` succeeds on good replacements and returns good ones.
  pub select_from-IsGood :
      (selected cs : List Replacement)
      → All (IsGood text) selected
      → All (IsGood text) cs
      → (res : List Replacement) × (select_from text background selected cs ≡ ok (background, res))
        × All (IsGood text) res
  unfolding select_from
  select_from-IsGood selected [] s g = (selected, refl, s)
  select_from-IsGood selected (c ∷ cs) s (g, gs) =
      let e = ends c g in
      select_from-IsGood (selected ++ map (fragment text c) (uncovered_spans c selected)) cs
        (All-append (IsGood text) selected _ s (
          fragments-IsGood c (uncovered_spans c selected) g.kind
            (uncovered_spans-All (IsEnd text) c selected e.0 e.1 (all_ends selected s))))
        gs
