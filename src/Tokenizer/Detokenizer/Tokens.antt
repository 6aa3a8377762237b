-- ===== src/Tokenizer/Detokenizer/Tokens.antt =====
-- Where the scan of `Detokenize` sees a token.
use alpha_proxy.Prelude.{
  ℕ, zero, suc, Bytes, [], ◌∷◌, ◌++◌, Bool, true, none, some, ◌≡◌, ◌≢◌, refl, ap, arith, length,
  take, drop, take-length, All, All-append, index_byte, last_index_byte, Option-cases, Bool-cases,
  inl, inr,
}
use alpha_proxy.Tokenizer.Detokenizer.{all_bytes, is_token, is_digit, is_kind_byte, token_at}

-- `<` + inner + `>` with an inner part that `isToken` accepts.
abbrev pub IsTokenText : Bytes → Type 0
IsTokenText t = (inner : Bytes) × (t ≡ b'<' ∷ (inner ++ b'>' ∷ [])) × (is_token inner ≡ true)

-- No token begins at any byte of the text.
abbrev pub NoToken : Bytes → Type 0
NoToken [] = Unit
NoToken (c ∷ s) = (token_at (c ∷ s) ≡ none) × NoToken s

-- The bytes that open and close a token.
abbrev NoBracket : Bytes → Type 0
NoBracket = All (λ c. (c ≢ b'<') × (c ≢ b'>'))

all_bytes-NoBracket :
    (p : ℕ → Bool) (s : Bytes)
    → ((c : ℕ) → p c ≡ true → (c ≢ b'<') × (c ≢ b'>'))
    → all_bytes p s ≡ true
    → NoBracket s
unfolding all_bytes
all_bytes-NoBracket p [] h a = tt
all_bytes-NoBracket p (c ∷ s) h a = elim (Bool-cases (p c)) [
  | inl e ↦ (h c e, all_bytes-NoBracket p s h (rw e at a))
  | inr e ↦ ground arith
]

last_index_byte-cut :
    (s : Bytes) (b n : ℕ) → last_index_byte s b ≡ some n → s ≡ take n s ++ b ∷ drop (suc n) s
unfolding last_index_byte
last_index_byte-cut [] b n h = cc
last_index_byte-cut (c ∷ s) b zero h = ground (arith)
last_index_byte-cut (c ∷ s) b (suc n) h = elim (Option-cases (last_index_byte s b)) [
  | inl e ↦ ground arith
  | inr (m, e) ↦ ap (◌∷◌ c) (last_index_byte-cut s b n (ground arith))
]

-- An inner part has neither bracket.
pub is_token-NoBracket : (s : Bytes) → is_token s ≡ true → NoBracket s
unfolding is_token
is_token-NoBracket s h = elim (Option-cases (last_index_byte s b'_')) [
  | inl e ↦ ground arith
  | inr (n, e) ↦ rw (last_index_byte-cut s b'_' n e) (
      All-append _ (take n s) (b'_' ∷ drop (suc n) s)
        (all_bytes-NoBracket is_kind_byte (take n s) (λ c k. ground arith) (ground arith))
        (
          (omega arith, omega arith),
          all_bytes-NoBracket is_digit (drop (suc n) s) (λ c k. ground arith) (ground arith),
        ))
]

index_byte-append :
    (p : Bytes) (b : ℕ) (rest : Bytes)
    → All (λ c. c ≢ b) p
    → index_byte (p ++ b ∷ rest) b ≡ some (length p)
unfolding index_byte
index_byte-append [] b rest h = ground arith
index_byte-append (c ∷ p) b rest (h, hs) = ground (arith, index_byte-append p b rest hs)

take-suc : (p : Bytes) (b : ℕ) (rest : Bytes) → take (suc (length p)) (p ++ b ∷ rest) ≡ p ++ b ∷ []
take-suc [] b rest = refl
take-suc (c ∷ p) b rest = ap (◌∷◌ c) (take-suc p b rest)

NoBracket-lacks_gt : (s : Bytes) → NoBracket s → All (λ c. c ≢ b'>') s
NoBracket-lacks_gt [] h = tt
NoBracket-lacks_gt (c ∷ s) (h, hs) = (h.1, NoBracket-lacks_gt s hs)

-- A token is seen where it stands, whatever follows it.
pub token_at_token :
    (inner rest : Bytes)
    → is_token inner ≡ true
    → token_at (b'<' ∷ (inner ++ b'>' ∷ rest))
      ≡ some (b'<' ∷ (inner ++ b'>' ∷ []), suc (length inner))
unfolding token_at
token_at_token inner rest h =
    rw (index_byte-append inner b'>' rest (NoBracket-lacks_gt inner (is_token-NoBracket inner h)))
      (rw (take-length inner (b'>' ∷ rest), h) (rw (take-suc inner b'>' rest)))

-- Where the first `b` of a text lies in its front, the rest does not matter.
index_byte_front :
    (p : Bytes) (b n : ℕ) (q : Bytes)
    → index_byte p b ≡ some n
    → (index_byte (p ++ q) b ≡ some n) × (take n (p ++ q) ≡ take n p)
unfolding index_byte
index_byte_front [] b n q h = cc
index_byte_front (c ∷ p) b zero q h = (ground (arith), refl)
index_byte_front (c ∷ p) b (suc n) q h = elim (Option-cases (index_byte p b)) [
  | inl e ↦ ground arith
  | inr (m, e) ↦
      let (h₁, h₂) = index_byte_front p b n q (ground arith) in (ground arith, ap (◌∷◌ c) h₂)
]

-- Where the front has no `b`, what lies before the first `b` holds the byte behind the front.
index_byte_behind :
    (p : Bytes) (b d n : ℕ) (q : Bytes)
    → d ≢ b
    → index_byte p b ≡ none
    → index_byte (p ++ d ∷ q) b ≡ some n
    → ¬ All (λ c. c ≢ d) (take n (p ++ d ∷ q))
unfolding index_byte
index_byte_behind [] b d zero q ne e h = ground arith
index_byte_behind [] b d (suc n) q ne e h = λ a. a.0 refl
index_byte_behind (c ∷ p) b d zero q ne e h = ground arith
index_byte_behind (c ∷ p) b d (suc n) q ne e h =
    λ a. index_byte_behind p b d n q ne (ground arith) (ground arith) a.1

NoBracket-lacks_lt : (s : Bytes) → NoBracket s → All (λ c. c ≢ b'<') s
NoBracket-lacks_lt [] h = tt
NoBracket-lacks_lt (c ∷ s) (h, hs) = (h.0, NoBracket-lacks_lt s hs)

-- A text with no token at its first byte has none there when another `<` is put behind a front
-- of it.
pub token_at_front :
    (c : ℕ) (p q r : Bytes) → token_at (c ∷ (p ++ q)) ≡ none → token_at (c ∷ (p ++ b'<' ∷ r)) ≡ none
unfolding token_at
token_at_front c p q r h = elim (Option-cases (index_byte p b'>')) [
  | inr (n, e) ↦
      let (q₁, q₂) = index_byte_front p b'>' n q e in
      let (r₁, r₂) = index_byte_front p b'>' n (b'<' ∷ r) e in ground arith
  | inl e ↦ elim (Option-cases (index_byte (p ++ b'<' ∷ r) b'>')) [
    | inl e' ↦ ground arith
    | inr (n, e') ↦ elim (Bool-cases (is_token (take n (p ++ b'<' ∷ r)))) [
      | inl t ↦ absurd (
          index_byte_behind p b'>' b'<' n r (omega arith) e e'
            (NoBracket-lacks_lt _ (is_token-NoBracket _ t)))
      | inr f ↦ ground arith
    ]
  ]
]
