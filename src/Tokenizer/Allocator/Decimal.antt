-- ===== src/Tokenizer/Allocator/Decimal.antt =====
-- Decimal printing (`%d`), and text behind a separator.
use alpha_proxy.Prelude.{
  ℕ, zero, suc, ◌+◌, ◌-◌, ◌*◌, ◌/◌, ◌%◌, ◌≤◌, ◌<◌, Bytes, [], ◌∷◌, ◌++◌, ◌≡◌, ◌≢◌, refl, sym, ap,
  ◌∙◌, arith, All, ltb, Bool-cases, inl, inr, ◌⊎◌, true, false,
}
use alpha_proxy.Tokenizer.Allocator.{digits, format_decimal}

-- The number that digits spell behind `n`.
read : ℕ → Bytes → ℕ
read n [] = n
read n (c ∷ s) = read (n * 10 + (c - b'0')) s

module _ (rounds n : ℕ) (out : Bytes) where
  digits_last : ltb n 10 ≡ true → digits (suc rounds) n out ≡ (b'0' + n) ∷ out
  unfolding digits
  digits_last e = rw (e, digits)

  digits_more :
      ltb n 10 ≡ false → digits (suc rounds) n out ≡ digits rounds (n / 10) ((b'0' + n % 10) ∷ out)
  unfolding digits
  digits_more e = rw (e, digits)

read-digits : (rounds n : ℕ) (out : Bytes) → n < rounds → read 0 (digits rounds n out) ≡ read n out
unfolding read
read-digits zero n out h = absurd (omega arith)
read-digits (suc rounds) n out h = elim (Bool-cases (ltb n 10)) [
  | inl e ↦ rw (digits_last rounds n out e) (ap (λ k. read k out) (omega arith))
  | inr e ↦ rw (digits_more rounds n out e) (
      read-digits rounds (n / 10) ((b'0' + n % 10) ∷ out) (ground arith)
      ∙ ap (λ k. read k out) (omega arith))
]

read-format_decimal : (n : ℕ) → read 0 (format_decimal n) ≡ n
unfolding format_decimal read
read-format_decimal n = unfold digits in read-digits (suc n) n [] (omega arith)

-- Two numbers that print alike are one.
pub format_decimal-injective : (m n : ℕ) → format_decimal m ≡ format_decimal n → m ≡ n
format_decimal-injective m n h = sym (read-format_decimal m) ∙ ap (read 0) h ∙ read-format_decimal n

abbrev pub IsDigit : ℕ → Type 0
IsDigit c = (b'0' ≤ c) × (c ≤ b'9')

digits-All :
    (rounds n : ℕ) (out : Bytes) → n < rounds → All IsDigit out → All IsDigit (digits rounds n out)
digits-All zero n out h a = absurd (omega arith)
digits-All (suc rounds) n out h a = elim (Bool-cases (ltb n 10)) [
  | inl e ↦ rw (digits_last rounds n out e) (ground arith, a)
  | inr e ↦
      rw (digits_more rounds n out e)
        (digits-All rounds (n / 10) ((b'0' + n % 10) ∷ out) (ground arith) (omega arith, a))
]

-- A print holds digits only.
pub format_decimal-All : (n : ℕ) → All IsDigit (format_decimal n)
unfolding format_decimal
format_decimal-All n = unfold digits in digits-All (suc n) n [] (omega arith) tt

digits-ne-nil : (rounds n : ℕ) (out : Bytes) → out ≢ [] → digits rounds n out ≢ []
digits-ne-nil zero n out h = unfold digits in h
digits-ne-nil (suc rounds) n out h = elim (Bool-cases (ltb n 10)) [
  | inl e ↦ rw (digits_last rounds n out e) (cc)
  | inr e ↦
      rw (digits_more rounds n out e) (digits-ne-nil rounds (n / 10) ((b'0' + n % 10) ∷ out) (cc))
]

-- A print holds at least one.
pub format_decimal-ne-nil : (n : ℕ) → format_decimal n ≢ []
unfolding format_decimal
format_decimal-ne-nil n = elim (Bool-cases (ltb n 10)) [
  | inl e ↦ rw (digits_last n n [] e) (cc)
  | inr e ↦ rw (digits_more n n [] e) (digits-ne-nil n (n / 10) ((b'0' + n % 10) ∷ []) (cc))
]

-- Where neither front has the separator, both fronts and both rests agree.
pub cut_unique :
    (sep : ℕ) (p q x y : Bytes)
    → All (λ c. c ≢ sep) p
    → All (λ c. c ≢ sep) q
    → p ++ sep ∷ x ≡ q ++ sep ∷ y
    → (p ≡ q) × (x ≡ y)
cut_unique sep [] [] x y hp hq h = (refl, cc)
cut_unique sep [] (d ∷ q) x y hp (hd, hq) h = absurd (hd (sym (cc)))
cut_unique sep (c ∷ p) [] x y (hc, hp) hq h = absurd (hc (cc))
cut_unique sep (c ∷ p) (d ∷ q) x y (hc, hp) (hd, hq) h =
    let e : p ++ sep ∷ x ≡ q ++ sep ∷ y = cc in
    let more = cut_unique sep p q x y hp hq e in (cc more.0, more.1)

pub IsDigit-lacks :
    (sep : ℕ) (s : Bytes) → (sep < b'0') ⊎ (b'9' < sep) → All IsDigit s → All (λ c. c ≢ sep) s
IsDigit-lacks sep [] h a = tt
IsDigit-lacks sep (c ∷ s) h (d, a) = (omega arith, IsDigit-lacks sep s h a)
