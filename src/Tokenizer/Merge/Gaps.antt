-- ===== src/Tokenizer/Merge/Gaps.antt =====
-- `uncoveredSpans` round by round, and what holds of every gap that it returns.
use alpha_proxy.Pii.{Replacement}
use alpha_proxy.Prelude.{
  List, [], ◌∷◌, ◌++◌, true, false, ◌≡◌, arith, All, All-append, if◌then◌else◌, Bool-cases, inl,
  inr,
}
use alpha_proxy.Prelude.Int.{ℤ, ltb_ℤ, leb_ℤ, ◌<ℤ◌}
use alpha_proxy.Prelude.Sort.{sort}
use alpha_proxy.Prelude.Sort.Sorted.{All-sort}
use alpha_proxy.Tokenizer.Merge.{uncovered_from, uncovered_spans, last_gap, span_before}

abbrev pub gap_before : ℤ → ℤ → List (ℤ × ℤ)
gap_before cursor start = if ltb_ℤ cursor start then (cursor, start) ∷ [] else []

-- The rounds of the loop: a span that ends before the cursor, one that begins behind the end, and
-- one that moves the cursor to its own end.
module _ (end cursor : ℤ) (s : Replacement) (rest : List Replacement) where
  pub uncovered_from_skip :
      leb_ℤ s.end cursor ≡ true
      → uncovered_from end cursor (s ∷ rest) ≡ uncovered_from end cursor rest
  unfolding uncovered_from
  uncovered_from_skip h = rw h

  pub uncovered_from_stop :
      leb_ℤ s.end cursor ≡ false
      → leb_ℤ end s.start ≡ true
      → uncovered_from end cursor (s ∷ rest) ≡ last_gap end cursor
  unfolding uncovered_from
  uncovered_from_stop h k = rw h (rw k)

  pub uncovered_from_step :
      leb_ℤ s.end cursor ≡ false
      → leb_ℤ end s.start ≡ false
      → uncovered_from end cursor (s ∷ rest)
        ≡ gap_before cursor s.start
          ++ (if leb_ℤ end s.end then [] else uncovered_from end s.end rest)
  unfolding uncovered_from
  uncovered_from_step h k =
      let moved : ltb_ℤ cursor s.end ≡ true = ground arith in
      let kept : leb_ℤ cursor s.end ≡ true = ground arith in
      let first : leb_ℤ s.start end ≡ true = ground arith in
      rw h (
        rw k (
          rw moved (
            rw kept (
              rw first (elim (Bool-cases (leb_ℤ end s.end)) [
                | inl e ↦ rw e (ground arith)
                | inr e ↦ rw e
              ])))))

module _ {ℓ} (P : ℤ → Type ℓ) where
  -- A gap is not empty, and its ends have whatever property the ends of all spans have.
  abbrev pub IsGap : ℤ × ℤ → Type ℓ
  IsGap u = P u.0 × P u.1 × (u.0 <ℤ u.1)

  last_gap-All : (end cursor : ℤ) → P end → P cursor → All IsGap (last_gap end cursor)
  unfolding last_gap
  last_gap-All end cursor pe pc = elim (Bool-cases (ltb_ℤ cursor end)) [
    | inl e ↦ rw e ((pc, pe, ground arith), tt)
    | inr e ↦ rw e tt
  ]

  gap_before-All : (cursor start : ℤ) → P cursor → P start → All IsGap (gap_before cursor start)
  gap_before-All cursor start pc ps = elim (Bool-cases (ltb_ℤ cursor start)) [
    | inl e ↦ rw e ((pc, ps, ground arith), tt)
    | inr e ↦ rw e tt
  ]

  uncovered_from-All :
      (end cursor : ℤ) (rs : List Replacement)
      → P end
      → P cursor
      → All (λ r. P r.start × P r.end) rs
      → All IsGap (uncovered_from end cursor rs)
  uncovered_from-All end cursor [] pe pc h = unfold uncovered_from in last_gap-All end cursor pe pc
  uncovered_from-All end cursor (s ∷ rest) pe pc (ps, h) = elim (Bool-cases (leb_ℤ s.end cursor)) [
    | inl past ↦
        rw (uncovered_from_skip end cursor s rest past) (uncovered_from-All end cursor rest pe pc h)
    | inr open_ ↦ elim (Bool-cases (leb_ℤ end s.start)) [
      | inl beyond ↦
          rw (uncovered_from_stop end cursor s rest open_ beyond) (last_gap-All end cursor pe pc)
      | inr within ↦ rw (uncovered_from_step end cursor s rest open_ within) (
          All-append IsGap (gap_before cursor s.start) _ (gap_before-All cursor s.start pc ps.0)
            (elim (Bool-cases (leb_ℤ end s.end)) [
              | inl e ↦ rw e tt
              | inr e ↦ rw e (uncovered_from-All end s.end rest pe ps.1 h)
            ]))
    ]
  ]

  pub uncovered_spans-All :
      (c : Replacement) (selected : List Replacement)
      → P c.start
      → P c.end
      → All (λ r. P r.start × P r.end) selected
      → All IsGap (uncovered_spans c selected)
  unfolding uncovered_spans
  uncovered_spans-All c selected ps pe h =
      uncovered_from-All c.end c.start (sort span_before selected) pe ps
        (All-sort span_before (λ r. P r.start × P r.end) selected h)
