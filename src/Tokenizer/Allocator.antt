-- ===== src/Tokenizer/Allocator.antt =====
-- internal/tokenizer/allocator.go. The two maps of an allocator are association lists: the counter
-- of a kind (0 where missing), and the token of a kind and value. The endless loop of `Allocate`
-- makes at most `len(text)` rounds here, which is as many as it needs (Allocator/Fresh).
pub mod Decimal
pub mod Format
pub mod Fresh
pub mod Owners
use alpha_proxy.Pii.{PiiKind}
use alpha_proxy.Prelude.{
  ℕ, zero, suc, Bytes, List, [], ◌∷◌, ◌++◌, Bool, true, false, ◌&&◌, Option, none, some, ◌+◌, ◌-◌,
  ◌/◌, ◌%◌, ◌≡◌, refl, ltb, leb, map, length, codes, contains, bytes_eq, if◌then◌else◌,
}

-- `strings.ToUpper`, on the ASCII texts that kinds are.
unfoldable pub to_upper : Bytes → Bytes
to_upper = map (λ c. if leb b'a' c && leb c b'z' then c - 32 else c)

-- The digits of `%d`, in front of `out`; there are at most `n` rounds to make.
unfoldable pub digits : ℕ → ℕ → Bytes → Bytes
digits zero n out = out
digits (suc rounds) n out = elim (ltb n 10) [
  | true ↦ (b'0' + n) ∷ out
  | false ↦ digits rounds (n / 10) ((b'0' + n % 10) ∷ out)
]

-- `fmt.Sprintf("%d", n)`.
unfoldable pub format_decimal : ℕ → Bytes
unfolding digits
format_decimal n = digits (suc n) n []

-- `fmt.Sprintf("<%s_%d>", prefix, n)`.
unfoldable pub format_token : Bytes → ℕ → Bytes
unfolding format_decimal
format_token prefix n = b'<' ∷ (prefix ++ b'_' ∷ (format_decimal n ++ b'>' ∷ []))

pub record Allocator : Type 0 where
  pub text : Bytes
  pub counters : List (PiiKind × ℕ)
  pub mappings : List (PiiKind × Bytes × Bytes)

unfoldable pub new_allocator : Bytes → Allocator
new_allocator text = record { text = text; counters = []; mappings = [] }

-- `a.mappings[kind][value]`.
unfoldable pub find_token : PiiKind → Bytes → List (PiiKind × Bytes × Bytes) → Option Bytes
find_token kind value [] = none
find_token kind value ((k, v, token) ∷ m) =
    if bytes_eq k kind && bytes_eq v value then some token else find_token kind value m

-- `a.counters[kind]`, and its assignment.
unfoldable pub counter : PiiKind → List (PiiKind × ℕ) → ℕ
counter kind [] = 0
counter kind ((k, n) ∷ m) = if bytes_eq k kind then n else counter kind m

unfoldable pub set_counter : PiiKind → ℕ → List (PiiKind × ℕ) → List (PiiKind × ℕ)
set_counter kind n m = (kind, n) ∷ m

-- The loop: the first number above `n` whose token the text does not contain. The source has no
-- bound on the rounds; here the number after `rounds` failures is taken without its test, and
-- Allocator/Fresh shows that it would pass the test.
unfoldable pub next_number : ℕ → Bytes → Bytes → ℕ → ℕ
next_number zero text prefix n = n + 1
next_number (suc rounds) text prefix n = elim (contains text (format_token prefix (n + 1))) [
  | true ↦ next_number rounds text prefix (n + 1)
  | false ↦ n + 1
]

unfoldable pub allocate : Allocator → PiiKind → Bytes → Allocator × Bytes
allocate a kind value = elim (find_token kind value a.mappings) [
  | some token ↦ (a, token)
  | none ↦
      let prefix = to_upper kind in
      let n = next_number (length a.text) a.text prefix (counter kind a.counters) in
      let token = format_token prefix n in
      (
        record a {
          counters = set_counter kind n a.counters;
          mappings = (kind, value, token) ∷ a.mappings;
        },
        token,
      )
]

second_phone : format_token (to_upper (codes "phone")) 10 ≡ codes "<PHONE_10>"
unfolding format_token to_upper
second_phone = refl
