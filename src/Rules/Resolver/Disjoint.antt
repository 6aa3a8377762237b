-- ===== src/Rules/Resolver/Disjoint.antt =====
-- The order of the entities that `Resolve` returns, for candidates that are not empty.
use alpha_proxy.Prelude.{List, [], ◌∷◌, map, true, false, ◌≡◌, arith, All, Bool-cases, inl, inr}
use alpha_proxy.Prelude.Int.{ℤ, ◌≤ℤ◌, ◌<ℤ◌, leb_ℤ}
use alpha_proxy.Prelude.Sort.{sort}
use alpha_proxy.Prelude.Sort.Sorted.{IsSorted, sort-IsSorted, sort_sorted, All-sort}
use alpha_proxy.Rules.Resolver.{
  above_threshold, span_first, candidates_overlap, settle, resolve_from, entity_of, entity_first,
  resolve,
}
use alpha_proxy.Rules.Spans.{CandidateSpan, ResolvedEntity}
use alpha_proxy.Rules.Resolver.Pointer.{
  Spans, From, settle_all, All-settle, resolve_from-eq-settle_all,
}

-- Spans one behind the other.
abbrev pub Spread : Spans → Type 0
Spread [] = Unit
Spread (k ∷ ks) = All (λ q. k.end ≤ℤ q.start) ks × Spread ks

-- Spans that are not empty and start at an offset or before.
abbrev Begun : ℤ → CandidateSpan → Type 0
Begun at k = (k.start ≤ℤ at) × (k.start <ℤ k.end)

settle-Spread :
    (s : CandidateSpan) (ks : Spans)
    → s.start <ℤ s.end
    → All (Begun s.start) ks
    → Spread ks
    → Spread (settle s ks)
unfolding settle candidates_overlap
settle-Spread s [] p h d = (tt, tt)
settle-Spread s (k ∷ ks) p ((b, w), h) (d, ds) = elim (Bool-cases (candidates_overlap s k)) [
  | inl y ↦ alone ks h d (ground arith) y
  | inr n ↦
      let behind : k.end ≤ℤ s.start = ground arith in
      rw n (All-settle (λ q. k.end ≤ℤ q.start) s ks behind d, settle-Spread s ks p h ds)
]
  where
    alone :
        (ks : Spans)
        → All (Begun s.start) ks
        → All (λ q. k.end ≤ℤ q.start) ks
        → s.start <ℤ k.end
        → candidates_overlap s k ≡ true
        → Spread (settle s (k ∷ ks))
    alone [] h d o y = rw y (tt, tt)
    alone (q ∷ qs) ((b', w'), h) (e, d) o y = absurd (omega arith)

All-Begun-later : (a b : ℤ) (ks : Spans) → a ≤ℤ b → All (Begun a) ks → All (Begun b) ks
All-Begun-later a b [] h hs = tt
All-Begun-later a b (k ∷ ks) h ((e, w), hs) = ((omega arith, w), All-Begun-later a b ks h hs)

All-Begun-proper : (at : ℤ) (ks : Spans) → All (Begun at) ks → All (λ s. s.start <ℤ s.end) ks
All-Begun-proper at [] h = tt
All-Begun-proper at (k ∷ ks) ((e, w), hs) = (w, All-Begun-proper at ks hs)

settle_all-Spread :
    (at : ℤ) (ks spans : Spans)
    → All (Begun at) ks
    → Spread ks
    → From at spans
    → All (λ s. s.start <ℤ s.end) spans
    → Spread (settle_all ks spans) × All (λ s. s.start <ℤ s.end) (settle_all ks spans)
unfolding settle_all
settle_all-Spread at ks [] b d f p = (d, All-Begun-proper at ks b)
settle_all-Spread at ks (s ∷ spans) b d (f, fs) (p, ps) =
    let begun = All-Begun-later at s.start ks f b in
    settle_all-Spread s.start (settle s ks) spans
      (All-settle (Begun s.start) s ks (omega arith, p) begun) (settle-Spread s ks p begun d) fs ps

span_first_asym : (a b : CandidateSpan) → span_first a b ≡ true → span_first b a ≡ false
unfolding span_first
span_first_asym a b h = ground arith

From-IsSorted :
    (s : CandidateSpan) (spans : Spans) → IsSorted span_first (s ∷ spans) → From s.start (s ∷ spans)
unfolding span_first
From-IsSorted s [] h = (omega arith, tt)
From-IsSorted s (q ∷ spans) (h, hs) =
    let next : s.start ≤ℤ q.start = ground arith in
    let rest = From-IsSorted q spans hs in (omega arith, (next, rest.1))

All-above_threshold :
    (P : CandidateSpan → Type 0) (m : ℤ) (spans : Spans)
    → All P spans
    → All P (above_threshold m spans)
unfolding above_threshold
All-above_threshold P m [] h = tt
All-above_threshold P m (s ∷ spans) (h, hs) = elim (Bool-cases (leb_ℤ m s.score)) [
  | inl y ↦ rw y (h, All-above_threshold P m spans hs)
  | inr n ↦ rw n (All-above_threshold P m spans hs)
]

-- The spans behind the loop are one behind the other.
resolved-Spread :
    (spans : Spans)
    → IsSorted span_first spans
    → All (λ s. s.start <ℤ s.end) spans
    → Spread (resolve_from 0 [] spans) × All (λ s. s.start <ℤ s.end) (resolve_from 0 [] spans)
unfolding resolve_from
resolved-Spread [] o p = (tt, tt)
resolved-Spread (s ∷ spans) o p =
    let from = From-IsSorted s spans o in
    let same = resolve_from-eq-settle_all 0 s.start [] (s ∷ spans) (omega arith) tt from in
    rw same (settle_all-Spread s.start [] (s ∷ spans) tt tt from p)

-- Entities one behind the other.
abbrev pub NoOverlap : List ResolvedEntity → Type 0
NoOverlap [] = Unit
NoOverlap (e ∷ es) = All (λ f. e.end ≤ℤ f.start) es × NoOverlap es

All-entity_of :
    (at : ℤ) (ks : Spans)
    → All (λ q. at ≤ℤ q.start) ks
    → All (λ f. at ≤ℤ f.start) (map entity_of ks)
unfolding entity_of
All-entity_of at [] h = tt
All-entity_of at (k ∷ ks) (h, hs) = (h, All-entity_of at ks hs)

NoOverlap-map : (ks : Spans) → Spread ks → NoOverlap (map entity_of ks)
unfolding entity_of
NoOverlap-map [] h = tt
NoOverlap-map (k ∷ ks) (h, hs) = (All-entity_of k.end ks h, NoOverlap-map ks hs)

Spread-IsSorted :
    (ks : Spans)
    → Spread ks
    → All (λ s. s.start <ℤ s.end) ks
    → IsSorted entity_first (map entity_of ks)
unfolding entity_of entity_first
Spread-IsSorted [] h p = tt
Spread-IsSorted (k ∷ []) h p = tt
Spread-IsSorted (k ∷ q ∷ ks) ((h, _), hs) (p, ps) = (ground arith, Spread-IsSorted (q ∷ ks) hs ps)

-- The entities that `Resolve` returns are in the order of their starts and each ends before the
-- next one begins, if no candidate span is empty.
pub resolve-NoOverlap :
    (min_score : ℤ) (spans : Spans)
    → All (λ s. s.start <ℤ s.end) spans
    → NoOverlap (resolve min_score spans)
unfolding resolve
resolve-NoOverlap min_score spans p =
    let kept = above_threshold min_score spans in
    let sorted = sort span_first kept in
    let (spread, proper) = resolved-Spread sorted (sort-IsSorted span_first span_first_asym kept) (
      All-sort span_first (λ s. s.start <ℤ s.end) kept
        (All-above_threshold (λ s. s.start <ℤ s.end) min_score spans p)) in
    rw
      (sort_sorted entity_first (map entity_of (resolve_from 0 [] sorted))
        (Spread-IsSorted (resolve_from 0 [] sorted) spread proper))
      (NoOverlap-map (resolve_from 0 [] sorted) spread)
