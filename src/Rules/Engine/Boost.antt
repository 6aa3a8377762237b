-- ===== src/Rules/Engine/Boost.antt =====
-- What the second pass of the engine (internal/engine/engine.go) does to scores and types.
use alpha_proxy.Prelude.{
  ℕ, Bytes, List, [], ◌∷◌, map, Bool, true, false, not, ◌&&◌, ◌||◌, ◌≡◌, refl, ap, arith, All,
  bytes_eq, if◌then◌else◌, Bool-cases, inl, inr, ◌⊎◌, sym, subst, ◌∙◌,
}
use alpha_proxy.Prelude.Int.{pos, ◌-ℤ◌, ◌≤ℤ◌}
use alpha_proxy.Rules.Engine.{boost, boost_one, boost_near_card, card_spans, near_card}
use alpha_proxy.Rules.Spans.{CandidateSpan}
use alpha_proxy.Rules.Types.{type_cvv, type_pin}

-- A span behind the pass, and before it.
pub record Raised (s s' : CandidateSpan) : Type 0 where
  pub start : s'.start ≡ s.start
  pub end : s'.end ≡ s.end
  pub type : s'.type ≡ s.type
  pub up : s.score ≤ℤ s'.score
  pub at_most : s'.score ≤ℤ pos 100
  pub only_codes : (bytes_eq s.type type_cvv || bytes_eq s.type type_pin) ≡ false → s' ≡ s

unfoldable pub AllRaised : List CandidateSpan → List CandidateSpan → Type 0
AllRaised [] [] = Unit
AllRaised [] (s' ∷ ss') = ⊥
AllRaised (s ∷ ss) [] = ⊥
AllRaised (s ∷ ss) (s' ∷ ss') = Raised s s' × AllRaised ss ss'

unchanged : (s : CandidateSpan) → s.score ≤ℤ pos 100 → Raised s s
unchanged s h = record {
  start = refl;
  end = refl;
  type = refl;
  up = omega arith;
  at_most = h;
  only_codes = λ _. refl;
}

all_unchanged : (ss : List CandidateSpan) → All (λ s. s.score ≤ℤ pos 100) ss → AllRaised ss ss
unfolding AllRaised
all_unchanged [] h = tt
all_unchanged (s ∷ ss) (h, hs) = (unchanged s h, all_unchanged ss hs)

boost-Raised :
    (s : CandidateSpan)
    → s.score ≤ℤ pos 100
    → (bytes_eq s.type type_cvv || bytes_eq s.type type_pin) ≡ true
    → Raised s (boost s)
unfolding boost ◌-ℤ◌
boost-Raised s h c = record {
  start = refl;
  end = refl;
  type = refl;
  up = ground (arith, h);
  at_most = ground (arith, h);
  only_codes = λ n. cc;
}

if_true : (x y : CandidateSpan) {b : Bool} → b ≡ true → (if b then x else y) ≡ x
if_true x y e = ap (λ b. if b then x else y) e

if_false : (x y : CandidateSpan) {b : Bool} → b ≡ false → (if b then x else y) ≡ y
if_false x y e = ap (λ b. if b then x else y) e

cards_cases :
    (cards : List CandidateSpan)
    → (cards ≡ []) ⊎ ((c : CandidateSpan) × (rest : List CandidateSpan) × (cards ≡ c ∷ rest))
cards_cases [] = inl refl
cards_cases (c ∷ cards) = inr (c, cards, refl)

module _ (rune_count : Bytes → ℕ) (text : Bytes) where
  boost_one-Raised :
      (cards : List CandidateSpan) (s : CandidateSpan)
      → s.score ≤ℤ pos 100
      → Raised s (boost_one rune_count text cards s)
  unfolding boost_one
  boost_one-Raised cards s h =
      elim (Bool-cases (not (bytes_eq s.type type_cvv) && not (bytes_eq s.type type_pin))) [
        | inl y ↦ subst (Raised s) (sym (if_true _ _ y)) (unchanged s h)
        | inr code ↦ elim (Bool-cases (not s.contextual)) [
          | inl y ↦ subst (Raised s) (sym (if_false _ _ code ∙ if_true _ _ y)) (unchanged s h)
          | inr n ↦ elim (Bool-cases (near_card rune_count text s cards)) [
            | inl y ↦
                subst (Raised s) (sym (if_false _ _ code ∙ if_false _ _ n ∙ if_true _ _ y))
                  (boost-Raised s h (ground arith))
            | inr m ↦
                subst (Raised s) (sym (if_false _ _ code ∙ if_false _ _ n ∙ if_false _ _ m))
                  (unchanged s h)
          ]
        ]
      ]

  map-Raised :
      (cards ss : List CandidateSpan)
      → All (λ s. s.score ≤ℤ pos 100) ss
      → AllRaised ss (map (boost_one rune_count text cards) ss)
  unfolding AllRaised
  map-Raised cards [] h = tt
  map-Raised cards (s ∷ ss) (h, hs) = (boost_one-Raised cards s h, map-Raised cards ss hs)

  -- The pass near card numbers keeps the spans, their order and their types. No score falls or
  -- exceeds 1.0, if none did before, and only a CVV or a PIN is changed at all.
  pub boost_near_card-AllRaised :
      (ss : List CandidateSpan)
      → All (λ s. s.score ≤ℤ pos 100) ss
      → AllRaised ss (boost_near_card rune_count text ss)
  unfolding boost_near_card
  boost_near_card-AllRaised ss h = elim (cards_cases (card_spans ss)) [
    | inl e ↦ rw (boost_near_card, e) (all_unchanged ss h)
    | inr (c, cards, e) ↦ rw (boost_near_card, e) (map-Raised (c ∷ cards) ss h)
  ]
