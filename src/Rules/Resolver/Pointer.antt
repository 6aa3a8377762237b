-- ===== src/Rules/Resolver/Pointer.antt =====
-- The pointer `activeStart` in the loop of `Resolve`, against the loop without it.
use alpha_proxy.Prelude.{
  ℕ, zero, suc, ◌+◌, ◌≤◌, List, [], ◌∷◌, ◌++◌, false, ◌≡◌, refl, ap, ◌∙◌, arith, take, drop, length,
  All, Bool-cases, inl, inr,
}
use alpha_proxy.Prelude.Int.{ℤ, ◌≤ℤ◌, leb_ℤ}
use alpha_proxy.Rules.Resolver.{candidates_overlap, is_stronger, passed, settle, resolve_from}
use alpha_proxy.Rules.Spans.{CandidateSpan}

abbrev pub Spans : Type 0
Spans = List CandidateSpan

-- The spans that end at or before an offset.
abbrev Ended : ℤ → CandidateSpan → Type 0
Ended at k = k.end ≤ℤ at

-- Where all spans in front of `activeStart` are over, skipping them changes nothing.
settle_skip :
    (n : ℕ) (s : CandidateSpan) (ks : Spans)
    → All (Ended s.start) (take n ks)
    → take n ks ++ settle s (drop n ks) ≡ settle s ks
unfolding settle candidates_overlap
settle_skip zero s ks h = refl
settle_skip (suc n) s [] h = refl
settle_skip (suc n) s (k ∷ ks) (h, hs) =
    let apart : candidates_overlap s k ≡ false = ground arith in
    rw apart (ap (◌∷◌ k) (settle_skip n s ks hs))

passed-Ended : (at : ℤ) (ks : Spans) → All (Ended at) (take (passed at ks) ks)
unfolding passed
passed-Ended at [] = tt
passed-Ended at (k ∷ ks) = elim (Bool-cases (leb_ℤ k.end at)) [
  | inl y ↦ rw y (ground arith, passed-Ended at ks)
  | inr n ↦ rw n tt
]

passed-le : (at : ℤ) (ks : Spans) → passed at ks ≤ length ks
unfolding passed
passed-le at [] = omega arith
passed-le at (k ∷ ks) = ground (arith, passed-le at ks)

module _ (P : CandidateSpan → Type 0) where
  All-take-add :
      (m n : ℕ) (ks : Spans)
      → All P (take m ks)
      → All P (take n (drop m ks))
      → All P (take (m + n) ks)
  All-take-add zero n ks h h' = let none_more : 0 + n ≡ n = omega arith in rw none_more h'
  All-take-add (suc m) n [] h h' = let step : suc m + n ≡ suc (m + n) = omega arith in rw step tt
  All-take-add (suc m) n (k ∷ ks) (h, hs) h' =
      let step : suc m + n ≡ suc (m + n) = omega arith in rw step (h, All-take-add m n ks hs h')

  All-take-front :
      (n : ℕ) (ks more : Spans)
      → n ≤ length ks
      → All P (take n ks)
      → All P (take n (take n ks ++ more))
  All-take-front zero ks more l h = tt
  All-take-front (suc n) [] more l h = absurd (omega arith)
  All-take-front (suc n) (k ∷ ks) more l (h, hs) = (h, All-take-front n ks more (omega arith) hs)

  pub All-settle : (s : CandidateSpan) (ks : Spans) → P s → All P ks → All P (settle s ks)
  unfolding settle
  All-settle s [] h hs = (h, tt)
  All-settle s (k ∷ ks) h (hk, hs) = elim (Bool-cases (candidates_overlap s k)) [
    | inl y ↦ elim (Bool-cases (is_stronger s k)) [
      | inl w ↦ rw (y, w) (h, hs)
      | inr w ↦ rw (y, w) (hk, hs)
    ]
    | inr n ↦ rw n (hk, All-settle s ks h hs)
  ]

-- Spans that start in order, at `at` or behind it.
abbrev pub From : ℤ → Spans → Type 0
From at [] = Unit
From at (s ∷ spans) = (at ≤ℤ s.start) × From s.start spans

-- The loops without `activeStart`.
unfoldable pub settle_all : Spans → Spans → Spans
settle_all resolved [] = resolved
settle_all resolved (s ∷ spans) = settle_all (settle s resolved) spans

All-Ended-later : (a b : ℤ) (ks : Spans) → a ≤ℤ b → All (Ended a) ks → All (Ended b) ks
All-Ended-later a b [] h hs = tt
All-Ended-later a b (k ∷ ks) h (e, hs) = (omega arith, All-Ended-later a b ks h hs)

length-front : (n : ℕ) (ks more : Spans) → n ≤ length ks → n ≤ length (take n ks ++ more)
length-front zero ks more h = omega arith
length-front (suc n) [] more h = absurd (omega arith)
length-front (suc n) (k ∷ ks) more h = omega (arith, length-front n ks more (omega arith))

length_of_drop :
    (n : ℕ) (ks : Spans) {m : ℕ} → n ≤ length ks → m ≤ length (drop n ks) → n + m ≤ length ks
length_of_drop zero ks h h' = omega (arith, h')
length_of_drop (suc n) [] h h' = absurd (omega arith)
length_of_drop (suc n) (k ∷ ks) h h' = omega (arith, length_of_drop n ks (omega arith) h')

-- If the candidates come in the order of their starts, every span in front of `activeStart` ends
-- by the start of the first of them and `activeStart` lies within the list, then the loop gives
-- what it gives without `activeStart`, comparing each candidate with all resolved spans.
pub resolve_from-eq-settle_all :
    (active : ℕ) (at : ℤ) (resolved spans : Spans)
    → active ≤ length resolved
    → All (Ended at) (take active resolved)
    → From at spans
    → resolve_from active resolved spans ≡ settle_all resolved spans
unfolding resolve_from settle_all
resolve_from-eq-settle_all active at resolved [] l e f = refl
resolve_from-eq-settle_all active at resolved (s ∷ spans) l e (f, fs) =
    let more = passed s.start (drop active resolved) in
    let n = active + more in
    let over : All (Ended s.start) (take n resolved) =
      All-take-add (Ended s.start) active more resolved
        (All-Ended-later at s.start (take active resolved) f e)
        (passed-Ended s.start (drop active resolved)) in
    let inside : n ≤ length resolved =
      length_of_drop active resolved l (passed-le s.start (drop active resolved)) in
    resolve_from-eq-settle_all n s.start (take n resolved ++ settle s (drop n resolved)) spans
      (length-front n resolved (settle s (drop n resolved)) inside)
      (All-take-front (Ended s.start) n resolved (settle s (drop n resolved)) inside over) fs
    ∙ ap (λ ks. settle_all ks spans) (settle_skip n s resolved over)
