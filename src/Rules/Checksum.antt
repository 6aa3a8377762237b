-- ===== src/Rules/Checksum.antt =====
-- internal/recognizer/validator.go: the control digits of an INN and the Luhn sum of a card number.
pub mod Luhn
use mathlib.Core.List.{reverse}
use alpha_proxy.Prelude.{
  ℕ, zero, suc, ◌+◌, ◌-◌, ◌*◌, ◌%◌, Bytes, List, [], ◌∷◌, ◌++◌, Bool, true, false, not, ◌&&◌, ◌||◌,
  Option, none, some, length, leb, ltb, ◌==◌, if◌then◌else◌,
}

-- `for i := 1; ...; if s[i] != first { return false }`.
unfoldable pub all_same : ℕ → Bytes → Bool
all_same first [] = true
all_same first (c ∷ s) = if not (c == first) then false else all_same first s

unfoldable pub all_same_digits : Bytes → Bool
unfolding all_same
all_same_digits [] = false
all_same_digits (c ∷ s) = all_same c s

-- `strconv.Atoi(string(s[i]))` for one byte.
unfoldable pub atoi : ℕ → Option ℕ
atoi c = if leb b'0' c && leb c b'9' then some (c - b'0') else none

-- The sum of the digits by the weights; the text is long enough.
unfoldable pub weighted_sum : List ℕ → Bytes → Option ℕ
unfolding atoi
weighted_sum [] s = some 0
weighted_sum (w ∷ ws) [] = none
weighted_sum (w ∷ ws) (c ∷ s) = elim (atoi c) [
  | none ↦ none
  | some d ↦ elim (weighted_sum ws s) [ none ↦ none | some sum ↦ some (d * w + sum) ]
]

-- `s[i]`, where `i` is in range.
unfoldable pub byte_at : Bytes → ℕ → ℕ
byte_at [] i = 0
byte_at (c ∷ s) zero = c
byte_at (c ∷ s) (suc i) = byte_at s i

unfoldable pub inn10 : Bytes → Bool
unfolding weighted_sum byte_at all_same_digits
inn10 s =
    if not (length s == 10) || all_same_digits s
    then false
    else elim (weighted_sum (2 ∷ 4 ∷ 10 ∷ 3 ∷ 5 ∷ 9 ∷ 4 ∷ 6 ∷ 8 ∷ []) s) [
      | none ↦ false
      | some sum ↦ elim (atoi (byte_at s 9)) [ none ↦ false | some last ↦ sum % 11 % 10 == last ]
    ]

-- `d, _ := strconv.Atoi(...)`: 0 where it fails.
unfoldable pub or_zero : Option ℕ → ℕ
or_zero none = 0
or_zero (some d) = d

unfoldable pub inn12 : Bytes → Bool
unfolding weighted_sum byte_at all_same_digits or_zero
inn12 s =
    if not (length s == 12) || all_same_digits s
    then false
    else elim (weighted_sum (7 ∷ 2 ∷ 4 ∷ 10 ∷ 3 ∷ 5 ∷ 9 ∷ 4 ∷ 6 ∷ 8 ∷ []) s) [
      | none ↦ false
      | some sum1 ↦ elim (weighted_sum (3 ∷ 7 ∷ 2 ∷ 4 ∷ 10 ∷ 3 ∷ 5 ∷ 9 ∷ 4 ∷ 6 ∷ 8 ∷ []) s) [
        | none ↦ false
        | some sum2 ↦
            (sum1 % 11 % 10 == or_zero (atoi (byte_at s 10)))
            && (sum2 % 11 % 10 == or_zero (atoi (byte_at s 11)))
      ]
    ]

unfoldable pub luhn_digit : Bool → ℕ → ℕ
luhn_digit false d = d
luhn_digit true d = if ltb 9 (d * 2) then d * 2 - 9 else d * 2

-- The sum of the loop of `Luhn`, over the digits from the last to the first.
unfoldable pub luhn_sum : Bool → Bytes → Option ℕ
unfolding luhn_digit
luhn_sum double [] = some 0
luhn_sum double (c ∷ s) = elim (atoi c) [
  | none ↦ none
  | some d ↦ elim (luhn_sum (not double) s) [
    | none ↦ none
    | some sum ↦ some (luhn_digit double d + sum)
  ]
]

-- `for i := len(s) - 1; i >= 0; i--` goes over the reversed bytes.
unfoldable pub luhn : Bytes → Bool
unfolding luhn_sum all_same_digits
luhn s =
    if ltb (length s) 2 || all_same_digits s
    then false
    else elim (luhn_sum false (reverse s)) [ none ↦ false | some sum ↦ sum % 10 == 0 ]
