-- ===== src/Tokenizer/RoundTrip.antt =====
-- `ApplyReplacements` (internal/tokenizer/apply.go), followed by `Detokenize` (detokenizer.go).
use alpha_proxy.Pii.{Ctx, background, ok, Replacement, TokenMapping}
use alpha_proxy.Prelude.{
  ℕ, suc, Bytes, List, [], ◌∷◌, ◌++◌, append_assoc, true, ◌≡◌, refl, ap, ◌∙◌, arith, All, length,
  drop,
}
use alpha_proxy.Prelude.Int.{pos_part}
use alpha_proxy.Prelude.Sort.{sort}
use alpha_proxy.Prelude.Sort.Sorted.{All-sort}
use alpha_proxy.Tokenizer.Apply.{apply_replacements, build_mappings, starts_before}
use alpha_proxy.Tokenizer.Apply.Layout.{Layout}
use alpha_proxy.Tokenizer.Apply.Stages.{apply_replacements-Applied}
use alpha_proxy.Prelude.Dict.{lookup}
use alpha_proxy.Tokenizer.Apply.Render.{render}
use alpha_proxy.Tokenizer.Detokenizer.{is_token, scan, detokenize}
use alpha_proxy.Tokenizer.Detokenizer.Known.{Table, SameEntry, Reads, mappings_from-Filled}
use alpha_proxy.Tokenizer.Detokenizer.Tokens.{IsTokenText, NoToken, token_at_token, token_at_front}
use alpha_proxy.Tokenizer.Span.{slice, slice-drop, slice_end}

NoToken-behind : (p q : Bytes) → NoToken (p ++ q) → NoToken q
NoToken-behind [] q h = h
NoToken-behind (c ∷ p) q (_, h) = NoToken-behind p q h

module _ (known : Table) where
  skip_token :
      (inner rest : Bytes)
      → scan known (suc (length inner)) background (inner ++ b'>' ∷ rest)
        ≡ scan known 0 background rest
  unfolding scan
  skip_token [] rest = refl
  skip_token (c ∷ inner) rest = skip_token inner rest

  scan-plain : (s : Bytes) → NoToken s → scan known 0 background s ≡ ok (background, s)
  unfolding scan
  scan-plain [] h = refl
  scan-plain (c ∷ s) (h, hs) = rw h (rw (scan-plain s hs))

  -- Text with no token in front of a token is copied.
  scan-front :
      (p q r : Bytes) {out : Bytes}
      → NoToken (p ++ q)
      → scan known 0 background (b'<' ∷ r) ≡ ok (background, out)
      → scan known 0 background (p ++ b'<' ∷ r) ≡ ok (background, p ++ out)
  unfolding scan
  scan-front [] q r h e = e
  scan-front (c ∷ p) q r (h, hs) e = rw (token_at_front c p q r h) (rw (scan-front p q r hs e))

  -- A known token is replaced by its original.
  scan-token :
      (r : Replacement) (inner rest : Bytes) {out : Bytes}
      → r.token ≡ b'<' ∷ (inner ++ b'>' ∷ [])
      → is_token inner ≡ true
      → Reads known r
      → scan known 0 background rest ≡ ok (background, out)
      → scan known 0 background (b'<' ∷ (inner ++ b'>' ∷ rest)) ≡ ok (background, r.original ++ out)
  unfolding scan
  scan-token r inner rest e t k h =
      let skipped : scan known (suc (length inner)) background (inner ++ b'>' ∷ rest)
          ≡ scan known 0 background rest =
        skip_token inner rest in
      rw (token_at_token inner rest t) (rw (← e, k.found) (rw (skipped, h, k.original)))

  -- From any replacement on, the masked text is read back as the text.
  scan-render :
      (text : Bytes) (from : ℕ) (rs : List Replacement)
      → Layout text from rs
      → All (λ r. IsTokenText r.token) rs
      → All (Reads known) rs
      → NoToken (drop from text)
      → scan known 0 background (render text from rs (length text))
        ≡ ok (background, drop from text)
  unfolding render
  scan-render text from [] l t k n = rw (slice_end from text) (scan-plain (drop from text) n)
  scan-render text from (r ∷ rs) (h, placed, l) ((inner, e, ti), t) (kr, k) n =
      let a = pos_part r.start in
      let b = pos_part r.end in
      let rest = render text b rs (length text) in
      let front : slice text from a ++ drop a text ≡ drop from text = slice-drop from a text h in
      let behind : slice text a b ++ drop b text ≡ drop a text =
        slice-drop a b text (omega arith) in
      let clean : NoToken (slice text from a ++ drop a text) = rw front n in
      let clean' : NoToken (slice text a b ++ drop b text) =
        rw behind (NoToken-behind (slice text from a) (drop a text) clean) in
      let later =
        scan-render text b rs l t k (NoToken-behind (slice text a b) (drop b text) clean') in
      let whole : slice text from a ++ (r.original ++ drop b text) ≡ drop from text =
        rw (← placed.original, behind) front in
      let token : r.token ++ rest ≡ b'<' ∷ (inner ++ b'>' ∷ rest) =
        ap (λ t. t ++ rest) e ∙ ap (◌∷◌ b'<') (append_assoc inner (b'>' ∷ []) rest) in
      ap (λ t. scan known 0 background (slice text from a ++ t)) token
      ∙ scan-front (slice text from a) (drop a text) (inner ++ b'>' ∷ rest) clean
          (scan-token r inner rest e ti kr later)
      ∙ ap (λ t. ok (background, t)) whole

empty_agrees :
    (t : Bytes) → SameEntry (lookup {V = TokenMapping} t []) (lookup {V = TokenMapping} t [])
unfolding lookup
empty_agrees t = tt

-- Masking a text and detokenizing the masked text with the mappings that masking returned gives
-- the text back, whatever context was used for masking, if every replacement has a token of the
-- form `<KIND_N>` and no such token begins anywhere in the text itself.
pub detokenize-apply_replacements :
    (ctx : Ctx) (text : Bytes) (rs : List Replacement) {c : Ctx} {masked : Bytes}
    {mappings : List TokenMapping}
    → apply_replacements ctx text rs ≡ ok (c, masked, mappings)
    → All (λ r. IsTokenText r.token) rs
    → NoToken text
    → detokenize background masked mappings ≡ ok (background, text)
unfolding detokenize build_mappings
detokenize-apply_replacements ctx text rs {masked = masked} {mappings = mappings} h t n =
    let sorted = sort starts_before rs in
    let done = apply_replacements-Applied ctx text rs h in
    let filled = mappings_from-Filled done.before [] [] sorted (λ t. empty_agrees t) done.mapped in
    rw filled.runs (
      rw done.rendered (
        scan-render filled.known' text 0 sorted done.layout
          (All-sort starts_before (λ r. IsTokenText r.token) rs t) filled.reads n))
