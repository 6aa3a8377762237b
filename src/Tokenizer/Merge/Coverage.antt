-- ===== src/Tokenizer/Merge/Coverage.antt =====
-- Which offsets the spans cover, and how often, through `uncoveredSpans` and `resolveOverlaps`.
use alpha_proxy.Pii.{Ctx, ok, Replacement, ctx_err, >>=-eq-ok}
use alpha_proxy.Prelude.{
  ℕ, ◌+◌, ◌≤◌, Bytes, List, [], ◌∷◌, ◌++◌, map, Bool, true, false, not, ◌&&◌, ◌||◌, ◌≡◌, refl,
  arith, All, All-append, if◌then◌else◌, Bool-cases, inl, inr, ◌∙◌, ap, sym, ◌==◌,
}
use alpha_proxy.Prelude.Int.{ℤ, ltb_ℤ, leb_ℤ, ◌≤ℤ◌}
use alpha_proxy.Prelude.Sort.{insert, sort}
use alpha_proxy.Prelude.Sort.Sorted.{IsSorted, sort-IsSorted, All-sort}
use alpha_proxy.Tokenizer.Merge.Gaps.{
  gap_before, uncovered_from_skip, uncovered_from_stop, uncovered_from_step, IsGap,
  uncovered_spans-All,
}
use alpha_proxy.Tokenizer.Merge.{
  uncovered_from, uncovered_spans, last_gap, span_before, fragment, select_from,
}

-- The offset `x` lies in `[a, b)`.
abbrev pub in_span : ℤ → ℤ → ℤ → Bool
in_span a b x = leb_ℤ a x && ltb_ℤ x b

-- How many of the spans hold the offset `x`.
unfoldable pub count : ℤ → List Replacement → ℕ
count x [] = 0
count x (r ∷ rs) = (if in_span r.start r.end x then 1 else 0) + count x rs

-- Some span holds the offset `x`.
unfoldable pub covers : ℤ → List Replacement → Bool
covers x [] = false
covers x (r ∷ rs) = in_span r.start r.end x || covers x rs

-- A span does not end before it begins.
abbrev pub IsProper : Replacement → Type 0
IsProper r = r.start ≤ℤ r.end

count_pairs : ℤ → List (ℤ × ℤ) → ℕ
count_pairs x [] = 0
count_pairs x (u ∷ us) = (if in_span u.0 u.1 x then 1 else 0) + count_pairs x us

-- In the order of their starts.
abbrev pub Ordered : List Replacement → Type 0
Ordered [] = Unit
Ordered (r ∷ rs) = All (λ q. r.start ≤ℤ q.start) rs × Ordered rs

pub IsSorted-Ordered :
    (less : Replacement → Replacement → Bool)
    → ((a b : Replacement) → less a b ≡ false → b.start ≤ℤ a.start)
    → (rs : List Replacement) → IsSorted less rs
    → Ordered rs
IsSorted-Ordered less h [] s = tt
IsSorted-Ordered less h (r ∷ []) s = (tt, tt)
IsSorted-Ordered less h (r ∷ q ∷ rs) (f, s) =
    let later = IsSorted-Ordered less h (q ∷ rs) s in
    ((h q r f, later_starts r q rs (h q r f) later.0), later)
  where
    later_starts :
        (r q : Replacement) (rs : List Replacement)
        → r.start ≤ℤ q.start
        → All (λ p. q.start ≤ℤ p.start) rs
        → All (λ p. r.start ≤ℤ p.start) rs
    later_starts r q [] l a = tt
    later_starts r q (p ∷ ps) l (b, bs) = (omega arith, later_starts r q ps l bs)

-- Spans that all begin behind `x` do not hold it.
covers_before :
    (x a : ℤ) (rs : List Replacement)
    → ltb_ℤ x a ≡ true
    → All (λ q. a ≤ℤ q.start) rs
    → covers x rs ≡ false
unfolding covers
covers_before x a [] h s = refl
covers_before x a (r ∷ rs) h (l, s) = ground (arith, covers_before x a rs h s)

count_pairs-append :
    (x : ℤ) (us vs : List (ℤ × ℤ)) → count_pairs x (us ++ vs) ≡ count_pairs x us + count_pairs x vs
unfolding count_pairs
count_pairs-append x [] vs = omega arith
count_pairs-append x (u ∷ us) vs = omega (arith, count_pairs-append x us vs)

count_last_gap :
    (x end cursor : ℤ)
    → count_pairs x (last_gap end cursor) ≡ (if in_span cursor end x then 1 else 0)
unfolding count_pairs last_gap
count_last_gap x end cursor = ground arith

count_gap_before :
    (x cursor start : ℤ)
    → count_pairs x (gap_before cursor start) ≡ (if in_span cursor start x then 1 else 0)
unfolding count_pairs
count_gap_before x cursor start = ground arith

count_unless :
    (x : ℤ) (b : Bool) (us : List (ℤ × ℤ))
    → count_pairs x (if b then [] else us) ≡ (if b then 0 else count_pairs x us)
unfolding count_pairs
count_unless x true us = refl
count_unless x false us = refl

-- The counts of one round, with `b` for the spans that follow.
step_count :
    (x end cursor s e : ℤ) (b : Bool)
    → leb_ℤ e cursor ≡ false
    → leb_ℤ end s ≡ false
    → s ≤ℤ e
    → (ltb_ℤ x s ≡ true → b ≡ false)
    → (if in_span cursor s x then 1 else 0)
        + (if leb_ℤ end e then 0 else if in_span e end x && not b then 1 else 0)
      ≡ (if in_span cursor end x && not (in_span s e x || b) then 1 else 0)
step_count x end cursor s e b h k p f = elim (Bool-cases (ltb_ℤ x s)) [
  | inl before ↦ rw (f before) (ground arith)
  | inr behind ↦ ground arith
]

-- An offset of `[cursor, end)` is in exactly one of the gaps if no span holds it, and in none else.
uncovered_from-count :
    (x end cursor : ℤ) (rs : List Replacement)
    → Ordered rs
    → All IsProper rs
    → count_pairs x (uncovered_from end cursor rs)
      ≡ (if in_span cursor end x && not (covers x rs) then 1 else 0)
unfolding count_pairs covers
uncovered_from-count x end cursor [] o p = unfold uncovered_from in ground arith
uncovered_from-count x end cursor (s ∷ rest) (l, o) (ps, p) =
    elim (Bool-cases (leb_ℤ s.end cursor)) [
      | inl past ↦
          rw (uncovered_from_skip end cursor s rest past)
            (ground (arith, uncovered_from-count x end cursor rest o p))
      | inr open_ ↦ elim (Bool-cases (leb_ℤ end s.start)) [
        | inl beyond ↦
            rw (uncovered_from_stop end cursor s rest open_ beyond)
              (ground (arith, count_last_gap x end cursor, covers_before x s.start rest))
        | inr within ↦ rw (uncovered_from_step end cursor s rest open_ within) (
            rw (count_pairs-append x (gap_before cursor s.start) _) (
              rw (count_gap_before x cursor s.start, count_unless x (leb_ℤ end s.end) _)
                (rw (uncovered_from-count x end s.end rest o p) (
                  step_count x end cursor s.start s.end (covers x rest) open_ within ps
                    (λ h. covers_before x s.start rest h l)))))
      ]
    ]

or_assoc : (a b c : Bool) → ((a || b) || c) ≡ (a || (b || c))
or_assoc true b c = refl
or_assoc false b c = refl

count-append : (x : ℤ) (rs qs : List Replacement) → count x (rs ++ qs) ≡ count x rs + count x qs
unfolding count
count-append x [] qs = omega arith
count-append x (r ∷ rs) qs = omega (arith, count-append x rs qs)

count-fragments :
    (x : ℤ) (text : Bytes) (c : Replacement) (us : List (ℤ × ℤ))
    → count x (map (fragment text c) us) ≡ count_pairs x us
unfolding count count_pairs fragment
count-fragments x text c [] = refl
count-fragments x text c (u ∷ us) = rw (count-fragments x text c us)

pub covers-count : (x : ℤ) (rs : List Replacement) → covers x rs ≡ not (count x rs == 0)
unfolding covers count
covers-count x [] = refl
covers-count x (r ∷ rs) = ground (arith, covers-count x rs)

module _ (less : Replacement → Replacement → Bool) (x : ℤ) where
  count-insert :
      (r : Replacement) (rs : List Replacement) → count x (insert less r rs) ≡ count x (r ∷ rs)
  unfolding count insert
  count-insert r [] = refl
  count-insert r (q ∷ qs) = elim (Bool-cases (less q r)) [
    | inl e ↦ rw e (omega (arith, count-insert r qs))
    | inr e ↦ rw e
  ]

  -- A sort changes no count.
  pub count-sort : (rs : List Replacement) → count x (sort less rs) ≡ count x rs
  unfolding count sort
  count-sort [] = refl
  count-sort (r ∷ rs) = omega (arith, count-insert r (sort less rs), count-sort rs)

span_before-start : (a b : Replacement) → span_before a b ≡ false → b.start ≤ℤ a.start
unfolding span_before
span_before-start a b h = ground arith

span_before_asym : (a b : Replacement) → span_before a b ≡ true → span_before b a ≡ false
unfolding span_before
span_before_asym a b h = ground arith

-- The gaps of a candidate hold each offset of it that is not covered yet, once.
uncovered_spans-count :
    (x : ℤ) (c : Replacement) (selected : List Replacement)
    → All IsProper selected
    → count_pairs x (uncovered_spans c selected)
      ≡ (if in_span c.start c.end x && not (covers x selected) then 1 else 0)
unfolding uncovered_spans
uncovered_spans-count x c selected p =
    let sorted = sort span_before selected in
    let same : covers x sorted ≡ covers x selected =
      covers-count x sorted
      ∙ ap (λ n. not (n == 0)) (count-sort span_before x selected)
      ∙ sym (covers-count x selected) in
    uncovered_from-count x c.end c.start sorted
      (IsSorted-Ordered span_before span_before-start sorted
        (sort-IsSorted span_before span_before_asym selected))
      (All-sort span_before IsProper selected p)
    ∙ ap (λ (b : Bool). if in_span c.start c.end x && not b then 1 else 0) same

-- One candidate more: what was covered stays covered once, and what it holds is covered.
select_one-count :
    (x : ℤ) (text : Bytes) (c : Replacement) (selected : List Replacement)
    → All IsProper selected
    → count x selected ≤ 1
    → (count x (selected ++ map (fragment text c) (uncovered_spans c selected)) ≤ 1)
      × (covers x (selected ++ map (fragment text c) (uncovered_spans c selected))
          ≡ (covers x selected || in_span c.start c.end x))
select_one-count x text c selected p h =
    let all = selected ++ map (fragment text c) (uncovered_spans c selected) in
    let total : count x all
        ≡ count x selected + (if in_span c.start c.end x && not (covers x selected) then 1 else 0) =
      count-append x selected _
      ∙ ap (λ n. count x selected + n)
          (count-fragments x text c _ ∙ uncovered_spans-count x c selected p) in
    (
      ground (arith, total, covers-count x selected),
      ground (arith, total, covers-count x selected, covers-count x all),
    )

fragments-IsProper :
    (text : Bytes) (c : Replacement) (us : List (ℤ × ℤ))
    → All (IsGap (λ _. Unit {0})) us
    → All IsProper (map (fragment text c) us)
unfolding fragment
fragments-IsProper text c [] h = tt
fragments-IsProper text c (u ∷ us) (h, hs) = (omega arith, fragments-IsProper text c us hs)

ends_any : (rs : List Replacement) → All (λ r. Unit {0} × Unit {0}) rs
ends_any [] = tt
ends_any (r ∷ rs) = ((tt, tt), ends_any rs)

select_one-IsProper :
    (text : Bytes) (c : Replacement) (selected : List Replacement)
    → All IsProper selected
    → All IsProper (selected ++ map (fragment text c) (uncovered_spans c selected))
select_one-IsProper text c selected p = All-append IsProper selected _ p (
    fragments-IsProper text c (uncovered_spans c selected)
      (uncovered_spans-All (λ _. Unit {0}) c selected tt tt (ends_any selected)))

-- `resolveOverlaps` from a selection in which no offset is covered twice: so it is at the end, and
-- the offsets covered at the end are those of the selection and of the candidates.
pub select_from-count :
    (x : ℤ) (text : Bytes) (ctx : Ctx) (selected cs : List Replacement) {c : Ctx}
    {res : List Replacement}
    → select_from text ctx selected cs ≡ ok (c, res)
    → All IsProper selected
    → count x selected ≤ 1
    → (count x res ≤ 1) × (covers x res ≡ (covers x selected || covers x cs))
unfolding select_from covers
select_from-count x text ctx selected [] {res = res} h p k =
    let e : selected ≡ res = cc in rw (← e) (k, ground arith)
select_from-count x text ctx selected (r ∷ rs) h p k =
    let (c, hc, h₁) = >>=-eq-ok (ctx_err ctx) _ h in
    let one = select_one-count x text r selected p k in
    let rest = select_from-count x text c _ rs h₁ (select_one-IsProper text r selected p) one.0 in
    (rest.0, rest.1 ∙ ap (λ b. b || covers x rs) one.1 ∙ or_assoc (covers x selected) _ _)
