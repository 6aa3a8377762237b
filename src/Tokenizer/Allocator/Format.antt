-- ===== src/Tokenizer/Allocator/Format.antt =====
-- The texts of tokens: their form, and which kind and number each stands for.
use alpha_proxy.Pii.{PiiKind}
use alpha_proxy.Prelude.{
  ℕ, suc, ◌-◌, ◌≤◌, ◌<◌, Bytes, [], ◌∷◌, ◌++◌, append_assoc, ◌≡◌, ◌≢◌, ◌⊎◌, inl, inr, refl, sym, ap,
  ◌∙◌, arith, All, All-append, none, some, true, false, length, length-append, take, drop,
  take-length, has_prefix, last_index_byte, if◌then◌else◌, ◌||◌, ◌&&◌, ltb, leb, ◌==◌,
}
use alpha_proxy.Tokenizer.Allocator.{format_token, format_decimal, to_upper}
use alpha_proxy.Tokenizer.Allocator.Decimal.{
  IsDigit, IsDigit-lacks, format_decimal-All, format_decimal-ne-nil, format_decimal-injective,
  cut_unique,
}
use alpha_proxy.Tokenizer.Detokenizer.{all_bytes, is_token, is_digit, is_kind_byte}
use alpha_proxy.Tokenizer.Detokenizer.Tokens.{IsTokenText}

-- A kind as the constants of types.go spell them: small letters and `_`, at least one.
abbrev pub IsKindByte : ℕ → Type 0
IsKindByte c = ((b'a' ≤ c) × (c ≤ b'z')) ⊎ (c ≡ b'_')

abbrev pub IsKindText : PiiKind → Type 0
IsKindText k = (k ≢ []) × All IsKindByte k

upper : ℕ → ℕ
upper c = if leb b'a' c && leb c b'z' then c - 32 else c

upper-is_kind_byte : (c : ℕ) → IsKindByte c → is_kind_byte (upper c) ≡ true
unfolding upper
upper-is_kind_byte c (inl h) = ground arith
upper-is_kind_byte c (inr h) = ground arith

upper-injective : (c d : ℕ) → IsKindByte c → IsKindByte d → upper c ≡ upper d → c ≡ d
unfolding upper
upper-injective c d (inl h) (inl k) e = ground arith
upper-injective c d (inl h) (inr k) e = ground arith
upper-injective c d (inr h) (inl k) e = ground arith
upper-injective c d (inr h) (inr k) e = ground arith

to_upper-all_bytes : (k : PiiKind) → All IsKindByte k → all_bytes is_kind_byte (to_upper k) ≡ true
unfolding to_upper all_bytes upper
to_upper-all_bytes [] h = refl
to_upper-all_bytes (c ∷ k) (hc, h) = rw (upper-is_kind_byte c hc) (to_upper-all_bytes k h)

-- Two kinds in capitals are alike only if the kinds are.
pub to_upper-injective :
    (k j : PiiKind) → All IsKindByte k → All IsKindByte j → to_upper k ≡ to_upper j → k ≡ j
unfolding to_upper upper
to_upper-injective [] [] hk hj e = refl
to_upper-injective [] (d ∷ j) hk hj e = cc
to_upper-injective (c ∷ k) [] hk hj e = cc
to_upper-injective (c ∷ k) (d ∷ j) (hc, hk) (hd, hj) e =
    let head : upper c ≡ upper d = cc in
    let tail : to_upper k ≡ to_upper j = cc in
    cc (upper-injective c d hc hd head, to_upper-injective k j hk hj tail)

last_index_byte-none : (s : Bytes) (b : ℕ) → All (λ c. c ≢ b) s → last_index_byte s b ≡ none
unfolding last_index_byte
last_index_byte-none [] b h = refl
last_index_byte-none (c ∷ s) b (hc, h) = rw (last_index_byte-none s b h) (ground arith)

last_index_byte-append :
    (p s : Bytes) (b : ℕ) → All (λ c. c ≢ b) s → last_index_byte (p ++ b ∷ s) b ≡ some (length p)
unfolding last_index_byte
last_index_byte-append [] s b h = rw (last_index_byte-none s b h) (ground arith)
last_index_byte-append (c ∷ p) s b h = rw (last_index_byte-append p s b h)

drop-suc : (p s : Bytes) (b : ℕ) → drop (suc (length p)) (p ++ b ∷ s) ≡ s
drop-suc [] s b = refl
drop-suc (c ∷ p) s b = drop-suc p s b

digits-all_bytes : (s : Bytes) → All IsDigit s → all_bytes is_digit s ≡ true
unfolding all_bytes
digits-all_bytes [] h = refl
digits-all_bytes (c ∷ s) (hc, h) =
    let e : is_digit c ≡ true = ground arith in rw e (digits-all_bytes s h)

is_token_parts :
    (s : Bytes) (us : ℕ)
    → last_index_byte s b'_' ≡ some us
    → 0 < us
    → suc us < length s
    → all_bytes is_digit (drop (suc us) s) ≡ true
    → all_bytes is_kind_byte (take us s) ≡ true
    → is_token s ≡ true
unfolding is_token
is_token_parts s us e l r d k =
    let long : ltb (length s) 3 ≡ false = ground arith in
    let inside : (us == 0 || us == length s - 1) ≡ false = ground arith in
    rw (long, e) (rw inside (rw (d, k)))

-- A front of kind bytes, `_`, and digits is what `isToken` accepts.
is_token-join :
    (p d : Bytes)
    → p ≢ []
    → d ≢ []
    → all_bytes is_kind_byte p ≡ true
    → All IsDigit d
    → is_token (p ++ b'_' ∷ d) ≡ true
is_token-join [] d np nd hp hd = absurd (np refl)
is_token-join (c ∷ p) [] np nd hp hd = absurd (nd refl)
is_token-join (c ∷ p) (e ∷ d) np nd hp hd =
    is_token_parts ((c ∷ p) ++ b'_' ∷ (e ∷ d)) (length (c ∷ p))
      (last_index_byte-append (c ∷ p) (e ∷ d) b'_' (IsDigit-lacks b'_' (e ∷ d) (omega arith) hd))
      (omega arith) (omega (arith, length-append p (b'_' ∷ (e ∷ d))))
      (rw (drop-suc (c ∷ p) (e ∷ d) b'_') (digits-all_bytes (e ∷ d) hd))
      (rw (take-length (c ∷ p) (b'_' ∷ (e ∷ d))) hp)

to_upper-ne-nil : (k : PiiKind) → k ≢ [] → to_upper k ≢ []
unfolding to_upper
to_upper-ne-nil [] h = h
to_upper-ne-nil (c ∷ k) h = cc

-- What `Allocate` makes of a kind is a token for the detokenizer.
pub format_token-IsTokenText :
    (k : PiiKind) (n : ℕ) → IsKindText k → IsTokenText (format_token (to_upper k) n)
unfolding format_token
format_token-IsTokenText k n (ne, h) = (
  to_upper k ++ b'_' ∷ format_decimal n,
  ap (◌∷◌ b'<') (sym (append_assoc (to_upper k) (b'_' ∷ format_decimal n) (b'>' ∷ []))),
  is_token-join (to_upper k) (format_decimal n) (to_upper-ne-nil k ne) (format_decimal-ne-nil n)
      (to_upper-all_bytes k h) (format_decimal-All n),
)

has_prefix-append : (s p : Bytes) → has_prefix s p ≡ true → s ≡ p ++ drop (length p) s
unfolding has_prefix
has_prefix-append s [] h = refl
has_prefix-append [] (c ∷ p) h = cc
has_prefix-append (d ∷ s) (c ∷ p) h = ground (arith, has_prefix-append s p)

append_cancel : (p x y : Bytes) → p ++ x ≡ p ++ y → x ≡ y
append_cancel [] x y h = h
append_cancel (c ∷ p) x y h = append_cancel p x y (cc)

token_split :
    (prefix : Bytes) (n : ℕ) (rest : Bytes)
    → format_token prefix n ++ rest ≡ b'<' ∷ (prefix ++ b'_' ∷ (format_decimal n ++ b'>' ∷ rest))
unfolding format_token
token_split prefix n rest = simp append_assoc

-- Two tokens of a kind that begin at one place of a text are one.
pub token_prefix_unique :
    (prefix s : Bytes) (m n : ℕ)
    → has_prefix s (format_token prefix m) ≡ true
    → has_prefix s (format_token prefix n) ≡ true
    → m ≡ n
token_prefix_unique prefix s m n hm hn =
    let em = has_prefix-append s (format_token prefix m) hm ∙ token_split prefix m _ in
    let en = has_prefix-append s (format_token prefix n) hn ∙ token_split prefix n _ in
    let tails = append_cancel prefix _ _ (append_cancel (b'<' ∷ []) _ _ (sym em ∙ en)) in
    let cut =
      cut_unique b'>' (format_decimal m) (format_decimal n) _ _
        (IsDigit-lacks b'>' (format_decimal m) (omega arith) (format_decimal-All m))
        (IsDigit-lacks b'>' (format_decimal n) (omega arith) (format_decimal-All n))
        (append_cancel (b'_' ∷ []) _ _ tails) in
    format_decimal-injective m n cut.0

last_index_byte_determines :
    (p q x y : Bytes) (b : ℕ)
    → All (λ c. c ≢ b) x
    → All (λ c. c ≢ b) y
    → p ++ b ∷ x ≡ q ++ b ∷ y
    → (p ≡ q) × (x ≡ y)
last_index_byte_determines p q x y b hx hy e =
    let found =
      sym (last_index_byte-append p x b hx)
      ∙ ap (λ t. last_index_byte t b) e
      ∙ last_index_byte-append q y b hy in
    let same : length p ≡ length q = cc found in
    (
      sym (take-length p (b ∷ x))
          ∙ ap (λ n. take n (p ++ b ∷ x)) same
          ∙ ap (take (length q)) e
          ∙ take-length q (b ∷ y),
      sym (drop-suc p x b)
          ∙ ap (λ n. drop (suc n) (p ++ b ∷ x)) same
          ∙ ap (drop (suc (length q))) e
          ∙ drop-suc q y b,
    )

-- Two tokens of kinds that are spelled with small letters and `_` are alike only if the kinds and
-- the numbers are.
pub format_token-injective :
    (k j : PiiKind) (m n : ℕ)
    → All IsKindByte k
    → All IsKindByte j
    → format_token (to_upper k) m ≡ format_token (to_upper j) n
    → (k ≡ j) × (m ≡ n)
unfolding format_token
format_token-injective k j m n hk hj e =
    let lacks = λ (b : ℕ) (l : ℕ) (out : (b < b'0') ⊎ (b'9' < b)).
      IsDigit-lacks b (format_decimal l) out (format_decimal-All l) in
    let parts =
      last_index_byte_determines (to_upper k) (to_upper j) (format_decimal m ++ b'>' ∷ [])
        (format_decimal n ++ b'>' ∷ []) b'_'
        (All-append _ (format_decimal m) (b'>' ∷ []) (lacks b'_' m (omega arith)) (omega arith))
        (All-append _ (format_decimal n) (b'>' ∷ []) (lacks b'_' n (omega arith)) (omega arith))
        (append_cancel (b'<' ∷ []) _ _ e) in
    let numbers =
      cut_unique b'>' (format_decimal m) (format_decimal n) [] [] (lacks b'>' m (omega arith))
        (lacks b'>' n (omega arith)) parts.1 in
    (to_upper-injective k j hk hj parts.0, format_decimal-injective m n numbers.0)
