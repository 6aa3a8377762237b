-- ===== src/Tokenizer/Allocator/Fresh.antt =====
-- The loop of `Allocate`, and the tokens that a text can contain.
use mathlib.Core.Bool.{false≢true}
use alpha_proxy.Prelude.{
  ℕ, zero, suc, ◌+◌, ◌≤◌, ◌<◌, Bytes, [], ◌∷◌, ◌≡◌, refl, sym, ap, ◌∙◌, arith, Bool, true, false,
  ◌||◌, length, contains, has_prefix, if◌then◌else◌, Bool-cases, inl, inr,
}
use alpha_proxy.Tokenizer.Allocator.{next_number, format_token}
use alpha_proxy.Tokenizer.Allocator.Format.{token_prefix_unique}

-- How many of the numbers from `lo` on, `k` of them, pass the test.
tally : (ℕ → Bool) → ℕ → ℕ → ℕ
tally p lo zero = 0
tally p lo (suc k) = (if p lo then 1 else 0) + tally p (suc lo) k

tally_or : (p q : ℕ → Bool) (lo k : ℕ) → tally (λ i. p i || q i) lo k ≤ tally p lo k + tally q lo k
unfolding tally
tally_or p q lo zero = omega arith
tally_or p q lo (suc k) = ground (arith, tally_or p q (suc lo) k)

tally_none : (p : ℕ → Bool) (lo k : ℕ) → ((i : ℕ) → lo ≤ i → p i ≡ false) → tally p lo k ≡ 0
unfolding tally
tally_none p lo zero h = refl
tally_none p lo (suc k) h =
    rw (h lo (omega arith)) (omega (arith, tally_none p (suc lo) k (λ i l. h i (omega arith))))

tally_unique :
    (p : ℕ → Bool) (lo k : ℕ) → ((i j : ℕ) → p i ≡ true → p j ≡ true → i ≡ j) → tally p lo k ≤ 1
unfolding tally
tally_unique p lo zero h = omega arith
tally_unique p lo (suc k) h = elim (Bool-cases (p lo)) [
  | inr e ↦ rw e (omega (arith, tally_unique p (suc lo) k h))
  | inl e ↦
      let none_later : tally p (suc lo) k ≡ 0 = tally_none p (suc lo) k (λ i l.
        elim (Bool-cases (p i)) [ inr f ↦ f | inl f ↦ absurd (omega (arith, h lo i e f)) ]) in
      rw (e, none_later) (omega arith)
]

-- A text contains at most as many tokens of a kind as it has bytes.
tally-contains :
    (prefix text : Bytes) (lo k : ℕ)
    → tally (λ i. contains text (format_token prefix i)) lo k ≤ length text
unfolding contains
tally-contains prefix [] lo k = omega (
  arith,
  tally_none (λ i. contains [] (format_token prefix i)) lo k (λ i l. unfold format_token in refl),
)
tally-contains prefix (c ∷ s) lo k = omega (
  arith,
  tally_or (λ i. has_prefix (c ∷ s) (format_token prefix i))
      (λ i. contains s (format_token prefix i)) lo k,
  tally_unique (λ i. has_prefix (c ∷ s) (format_token prefix i)) lo k
      (token_prefix_unique prefix (c ∷ s)),
  tally-contains prefix s lo k,
)

-- The numbers tried are above the counter.
pub lt-next_number :
    (rounds : ℕ) (text prefix : Bytes) (n : ℕ) → n < next_number rounds text prefix n
unfolding next_number
lt-next_number zero text prefix n = omega arith
lt-next_number (suc rounds) text prefix n =
    ground (arith, lt-next_number rounds text prefix (n + 1))

module _ (rounds : ℕ) (text prefix : Bytes) (n : ℕ) where
  next_number_fails :
      contains text (format_token prefix (n + 1)) ≡ true
      → next_number (suc rounds) text prefix n ≡ next_number rounds text prefix (n + 1)
  unfolding next_number
  next_number_fails h = rw (h, next_number)

  next_number_passes :
      contains text (format_token prefix (n + 1)) ≡ false
      → next_number (suc rounds) text prefix n ≡ n + 1
  unfolding next_number
  next_number_passes h = rw (h, next_number)

-- If the last number fails too, all that were tried failed.
next_number-tally :
    (rounds : ℕ) (text prefix : Bytes) (n : ℕ)
    → contains text (format_token prefix (next_number rounds text prefix n)) ≡ true
    → tally (λ i. contains text (format_token prefix i)) (n + 1) (suc rounds) ≡ suc rounds
unfolding tally
next_number-tally zero text prefix n h =
    let e : contains text (format_token prefix (n + 1)) ≡ true = unfold next_number in h in
    rw e (omega arith)
next_number-tally (suc rounds) text prefix n h =
    elim (Bool-cases (contains text (format_token prefix (n + 1)))) [
      | inr e ↦ absurd (false≢true (sym e ∙ rw (next_number_passes rounds text prefix n e) at h))
      | inl e ↦
          let later =
            next_number-tally rounds text prefix (n + 1)
              (rw (next_number_fails rounds text prefix n e) at h) in
          let next : tally (λ i. contains text (format_token prefix i)) (suc (n + 1)) (suc rounds)
              ≡ suc rounds =
            ap (λ m. tally (λ i. contains text (format_token prefix i)) m (suc rounds))
              (omega arith)
            ∙ later in
          rw e (omega (arith, next))
    ]

-- The token of the number that the loop ends with, after as many rounds as the text has bytes at
-- most, does not occur in the text.
pub next_number-fresh :
    (text prefix : Bytes) (n : ℕ)
    → contains text (format_token prefix (next_number (length text) text prefix n)) ≡ false
next_number-fresh text prefix n =
    elim (Bool-cases
      (contains text (format_token prefix (next_number (length text) text prefix n)))) [
        | inr e ↦ e
        | inl e ↦ absurd (
            omega (
              arith,
              next_number-tally (length text) text prefix n e,
              tally-contains prefix text (n + 1) (suc (length text)),
            ))
      ]
