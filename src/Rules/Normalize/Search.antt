-- ===== src/Rules/Normalize/Search.antt =====
-- The binary searches of internal/normalize/normalize.go in lists that never fall.
use alpha_proxy.Ml.Chunker.{offset}
use alpha_proxy.Prelude.{
  ℕ, zero, suc, ◌+◌, ◌/◌, ◌≤◌, ◌<◌, List, [], ◌∷◌, arith, length, ltb, Bool-cases, inl, inr,
}
use alpha_proxy.Prelude.Int.{ℤ, pos, ltb_ℤ, ◌≤ℤ◌, ◌<ℤ◌}
use alpha_proxy.Rules.Normalize.{search_offset}

-- Numbers of which none is below the one before.
unfoldable pub Rising : ℕ → List ℕ → Type 0
Rising from [] = Unit
Rising from (x ∷ xs) = (from ≤ x) × Rising x xs

from_below : (from : ℕ) (xs : List ℕ) (i : ℕ) → Rising from xs → i < length xs → from ≤ offset xs i
unfolding Rising offset
from_below from [] i r h = absurd (omega (arith, h))
from_below from (x ∷ xs) zero (l, r) h = l
from_below from (x ∷ xs) (suc i) (l, r) h = omega (arith, l, from_below x xs i r (omega (arith, h)))

pub offset-rises :
    (from : ℕ) (xs : List ℕ) (i j : ℕ)
    → Rising from xs
    → i ≤ j
    → j < length xs
    → offset xs i ≤ offset xs j
unfolding Rising offset
offset-rises from [] i j r h h' = absurd (omega (arith, h'))
offset-rises from (x ∷ xs) zero zero r h h' = omega arith
offset-rises from (x ∷ xs) zero (suc j) (l, r) h h' = from_below x xs j r (omega (arith, h'))
offset-rises from (x ∷ xs) (suc i) zero r h h' = absurd (omega (arith, h))
offset-rises from (x ∷ xs) (suc i) (suc j) (l, r) h h' =
    offset-rises x xs i j r (omega (arith, h)) (omega (arith, h'))

-- The position before which all numbers are below the goal, and from which on none is.
pub record IsFirst (xs : List ℕ) (goal : ℤ) (at : ℕ) : Type 0 where
  pub within : at ≤ length xs
  pub below : (i : ℕ) → i < at → pos (offset xs i) <ℤ goal
  pub behind : (i : ℕ) → at ≤ i → i < length xs → goal ≤ℤ pos (offset xs i)

pub search_offset-IsFirst :
    (xs : List ℕ) (goal : ℤ) (fuel lo hi from : ℕ)
    → Rising from xs
    → lo ≤ hi
    → hi ≤ lo + fuel
    → hi ≤ length xs
    → ((i : ℕ) → i < lo → pos (offset xs i) <ℤ goal)
    → ((i : ℕ) → hi ≤ i → i < length xs → goal ≤ℤ pos (offset xs i))
    → IsFirst xs goal (search_offset xs goal fuel lo hi)
unfolding search_offset
search_offset-IsFirst xs goal zero lo hi from r h f w b a = record {
  within = omega (arith, h, w);
  below = b;
  behind = λ i l u. a i (omega (arith, l, f)) u;
}
search_offset-IsFirst xs goal (suc fuel) lo hi from r h f w b a =
    let mid = (lo + hi) / 2 in
    elim (Bool-cases (ltb lo hi)) [
      | inr n ↦
          rw (search_offset, n)
            (record {
              within = omega (arith, h, w);
              below = b;
              behind = λ i l u. a i (ground (arith, l, h)) u;
            })
      | inl y ↦
          let small : lo < hi = ground arith in
          elim (Bool-cases (ltb_ℤ (pos (offset xs mid)) goal)) [
            | inl z ↦
                rw (search_offset, y, z)
                  (search_offset-IsFirst xs goal fuel (mid + 1) hi from r (omega (arith, small))
                    (omega (arith, small, f)) w
                    (λ i l.
                      let up =
                        offset-rises from xs i mid r (omega (arith, l)) (omega (arith, small, w)) in
                      ground (arith, up))
                    a)
            | inr z ↦
                rw (search_offset, y, z)
                  (search_offset-IsFirst xs goal fuel lo mid from r (omega (arith, small))
                    (omega (arith, small, f)) (omega (arith, small, w)) b
                    (λ i l u. let up = offset-rises from xs mid i r l u in ground (arith, up)))
          ]
    ]
