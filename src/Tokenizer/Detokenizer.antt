-- ===== src/Tokenizer/Detokenizer.antt =====
-- internal/tokenizer/detokenizer.go. The scan of the text is a recursion on the text that is left,
-- with the count of bytes that the last token still takes: `i = end + 1` skips them. A token holds
-- ASCII bytes only, so the tests of `isToken` on runes are tests on bytes: every byte of a longer
-- character is above 'Z'.
pub mod Tokens
pub mod Known
use alpha_proxy.Pii.{Ctx, Result, ok, err, unknown_token, ◌>>=◌, ctx_err, TokenMapping}
use alpha_proxy.Prelude.{
  ℕ, zero, suc, Bytes, List, [], ◌∷◌, ◌++◌, Bool, true, false, not, ◌&&◌, ◌||◌, Option, none, some,
  ◌+◌, ◌-◌, length, bytes_eq, if◌then◌else◌, ltb, leb, ◌==◌, take, drop, index_byte,
  last_index_byte,
}
use alpha_proxy.Prelude.Dict.{lookup, insert}

unfoldable pub all_bytes : (ℕ → Bool) → Bytes → Bool
all_bytes p [] = true
all_bytes p (c ∷ s) = p c && all_bytes p s

-- `!(r < '0' || r > '9')`.
abbrev pub is_digit : ℕ → Bool
is_digit c = not (ltb c b'0' || ltb b'9' c)

-- `!(r < 'A' || r > 'Z' && r != '_')`.
abbrev pub is_kind_byte : ℕ → Bool
is_kind_byte c = not (ltb c b'A' || (ltb b'Z' c && not (c == b'_')))

unfoldable pub is_token : Bytes → Bool
is_token s = if ltb (length s) 3 then false else elim (last_index_byte s b'_') [
  | none ↦ false
  | some us ↦
      if us == 0 || us == length s - 1
      then false
      else all_bytes is_digit (drop (suc us) s) && all_bytes is_kind_byte (take us s)
]

-- The token that begins at the first byte of a text, if one does, and how many bytes of it follow
-- that byte.
unfoldable pub token_at : Bytes → Option (Bytes × ℕ)
token_at [] = none
token_at (c ∷ s) =
    if c == b'<'
    then elim (index_byte s b'>') [
      | none ↦ none
      | some n ↦ if is_token (take n s) then some (c ∷ take (suc n) s, suc n) else none
    ]
    else none

-- The loop that fills `tokenMap`.
unfoldable pub token_map :
    Ctx
    → List (Bytes × TokenMapping)
    → List TokenMapping
    → Result (Ctx × List (Bytes × TokenMapping))
token_map ctx known [] = ok (ctx, known)
token_map ctx known (m ∷ ms) = do
  ctx' ← ctx_err ctx
  elim (lookup m.token known) [
    | some existing ↦
        if not (bytes_eq existing.original m.original) || not (bytes_eq existing.kind m.kind)
        then err unknown_token
        else token_map ctx' known ms
    | none ↦ token_map ctx' (insert m.token m known) ms
  ]

-- The loop over the text: `skip` bytes belong to a token that is already replaced.
unfoldable pub scan : List (Bytes × TokenMapping) → ℕ → Ctx → Bytes → Result (Ctx × Bytes)
scan known skip ctx [] = ok (ctx, [])
scan known (suc skip) ctx (c ∷ s) = scan known skip ctx s
scan known zero ctx (c ∷ s) = do
  ctx' ← ctx_err ctx
  elim (token_at (c ∷ s)) [
    | some (token, n) ↦ elim (lookup token known) [
      | none ↦ err unknown_token
      | some m ↦ do (ctx'', out) ← scan known n ctx' s; ok (ctx'', m.original ++ out)
    ]
    | none ↦ do (ctx'', out) ← scan known zero ctx' s; ok (ctx'', c ∷ out)
  ]

unfoldable pub detokenize : Ctx → Bytes → List TokenMapping → Result (Ctx × Bytes)
unfolding token_map scan
detokenize ctx text mappings = do (ctx', known) ← token_map ctx [] mappings; scan known 0 ctx' text
