-- ===== src/Rules/Checksum/Luhn.antt =====
-- The Luhn sum of texts that differ in one byte.
use mathlib.Core.List.{reverse, reverse-append, reverse-cons}
use alpha_proxy.Prelude.{
  ℕ, ◌+◌, ◌≤◌, ◌%◌, Bytes, [], ◌∷◌, ◌++◌, Bool, true, false, not, some, ◌≡◌, ◌≢◌, sym, ap, ◌∙◌,
  arith, append_assoc, Bool-cases, Option-cases, inl, inr,
}
use alpha_proxy.Rules.Checksum.{atoi, luhn_digit, luhn_sum, luhn}

luhn_digit-injective :
    (double : Bool) (d e k : ℕ)
    → d ≤ 9
    → e ≤ 9
    → (luhn_digit double d + k) % 10 ≡ 0
    → (luhn_digit double e + k) % 10 ≡ 0
    → d ≡ e
unfolding luhn_digit
luhn_digit-injective true d e k h h' p q = ground arith
luhn_digit-injective false d e k h h' p q = omega arith

atoi-le-9 : (c : ℕ) {d : ℕ} → atoi c ≡ some d → (d ≤ 9) × (c ≡ b'0' + d)
unfolding atoi
atoi-le-9 c h = ground arith

luhn_sum-step :
    (double : Bool) (c : ℕ) (s : Bytes) {m : ℕ}
    → luhn_sum double (c ∷ s) ≡ some m
    → (d : ℕ) × (k : ℕ) × (atoi c ≡ some d)
      × (luhn_sum (not double) s ≡ some k)
      × (m ≡ luhn_digit double d + k)
unfolding luhn_sum
luhn_sum-step double c s {m} h = elim (Option-cases (atoi c)) [
  | inl e ↦ let bad = rw (luhn_sum, e) at h in cc
  | inr (d, e) ↦ elim (Option-cases (luhn_sum (not double) s)) [
    | inl f ↦ let bad = rw (luhn_sum, e, f) at h in cc
    | inr (k, f) ↦
        let sum = rw (luhn_sum, e, f) at h in
        let same : luhn_digit double d + k ≡ m = cc in (d, k, e, f, sym same)
  ]
]

luhn_sum-single :
    (double : Bool) (j : ℕ) (p q : Bytes) (a b : ℕ) {m n : ℕ}
    → luhn_sum double (p ++ a ∷ q) ≡ some m
    → luhn_sum double (p ++ b ∷ q) ≡ some n
    → (j + m) % 10 ≡ 0
    → (j + n) % 10 ≡ 0
    → a ≡ b
luhn_sum-single double j [] q a b {m} {n} h h' e e' =
    let (d, k, da, ka, sa) = luhn_sum-step double a q h in
    let (d', k', db, kb, sb) = luhn_sum-step double b q h' in
    let same : k ≡ k' = cc in
    let r = atoi-le-9 a da in
    let r' = atoi-le-9 b db in
    let ea : (luhn_digit double d + (j + k)) % 10 ≡ 0 = omega (arith, sa, e) in
    let eb : (luhn_digit double d' + (j + k)) % 10 ≡ 0 = omega (arith, sb, same, e') in
    let eq = luhn_digit-injective double d d' (j + k) r.0 r'.0 ea eb in omega (arith, eq, r.1, r'.1)
luhn_sum-single double j (c ∷ p) q a b {m} {n} h h' e e' =
    let (d, k, da, ka, sa) = luhn_sum-step double c (p ++ a ∷ q) h in
    let (d', k', db, kb, sb) = luhn_sum-step double c (p ++ b ∷ q) h' in
    let same : d ≡ d' = cc in
    let sb' : n ≡ luhn_digit double d + k' = sb ∙ ap (λ x. luhn_digit double x + k') (sym same) in
    luhn_sum-single (not double) (j + luhn_digit double d) p q a b ka kb (omega (arith, sa, e))
      (omega (arith, sb', e'))

luhn-sum :
    (s : Bytes) → luhn s ≡ true → (m : ℕ) × (luhn_sum false (reverse s) ≡ some m) × (m % 10 ≡ 0)
unfolding luhn
luhn-sum s h = elim (Option-cases (luhn_sum false (reverse s))) [
  | inl e ↦ let bad = rw e at h in absurd (ground arith)
  | inr (m, e) ↦ let good = rw e at h in (m, e, ground arith)
]

reverse_around : (p q : Bytes) (a : ℕ) → reverse (p ++ a ∷ q) ≡ reverse q ++ a ∷ reverse p
reverse_around p q a =
    reverse-append p (a ∷ q)
    ∙ ap (λ r. r ++ reverse p) (reverse-cons a q)
    ∙ append_assoc (reverse q) (a ∷ []) (reverse p)

-- Two texts that differ in one byte at most and that `Luhn` both accepts are the same.
luhn_same : (p q : Bytes) (a b : ℕ) → luhn (p ++ a ∷ q) ≡ true → luhn (p ++ b ∷ q) ≡ true → a ≡ b
luhn_same p q a b h h' =
    let (m, e, z) = luhn-sum (p ++ a ∷ q) h in
    let (n, e', z') = luhn-sum (p ++ b ∷ q) h' in
    luhn_sum-single false 0 (reverse q) (reverse p) a b
      (ap (luhn_sum false) (sym (reverse_around p q a)) ∙ e)
      (ap (luhn_sum false) (sym (reverse_around p q b)) ∙ e') (omega (arith, z)) (omega (arith, z'))

-- Where `Luhn` accepts a text, it refuses every text that differs from it in exactly one byte.
pub luhn_one_byte :
    (p q : Bytes) (a b : ℕ) → luhn (p ++ a ∷ q) ≡ true → a ≢ b → luhn (p ++ b ∷ q) ≡ false
luhn_one_byte p q a b h ne = elim (Bool-cases (luhn (p ++ b ∷ q))) [
  | inl y ↦ absurd (ne (luhn_same p q a b h y))
  | inr n ↦ n
]
