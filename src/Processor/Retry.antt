-- ===== src/Processor/Retry.antt =====
-- The replacements that `handleExisting` rebuilds from the mappings of the session.
use alpha_proxy.Pii.{Ctx, background, ok, Replacement, TokenMapping, >>=-eq-ok, ctx_err}
use alpha_proxy.Prelude.{ℕ, Bytes, List, [], ◌∷◌, ◌++◌, map, ◌≡◌, refl, sym, ap, ◌∙◌, length}
use alpha_proxy.Prelude.Int.{pos_part}
use alpha_proxy.Prelude.Sort.{sort}
use alpha_proxy.Processor.{replacement_of}
use alpha_proxy.Tokenizer.Apply.{
  apply_replacements, starts_before, mapping_of, mappings_from, build_mappings, note_token,
}
use alpha_proxy.Tokenizer.Apply.Layout.{Layout, IsPlaced}
use alpha_proxy.Tokenizer.Apply.Render.{render}
use alpha_proxy.Tokenizer.Apply.Stages.{apply_replacements-Applied, apply_replacements-ok}
use alpha_proxy.Tokenizer.Span.{slice}

rebuild : List Replacement → List Replacement
rebuild rs = map replacement_of (map mapping_of rs)

mappings_from-map :
    (ctx : Ctx) (originals : List (Bytes × TokenMapping)) (rs : List Replacement) {c : Ctx}
    {ms : List TokenMapping}
    → mappings_from ctx originals rs ≡ ok (c, ms)
    → ms ≡ map mapping_of rs
unfolding mappings_from
mappings_from-map ctx originals [] h = cc
mappings_from-map ctx originals (r ∷ rs) {ms = ms} h =
    let (c₁, h₁, k₁) = >>=-eq-ok (ctx_err ctx) _ h in
    let (o, h₂, k₂) = >>=-eq-ok (note_token originals r) _ k₁ in
    let ((c₂, rest), h₃, k₃) = >>=-eq-ok (mappings_from c₁ o rs) _ k₂ in
    let tail : rest ≡ map mapping_of rs = mappings_from-map c₁ o rs h₃ in
    let e : mapping_of r ∷ rest ≡ ms = cc in sym e ∙ ap (◌∷◌ (mapping_of r)) tail

mappings_from-rebuild :
    (ctx : Ctx) (originals : List (Bytes × TokenMapping)) (rs : List Replacement) {c : Ctx}
    {ms : List TokenMapping}
    → mappings_from ctx originals rs ≡ ok (c, ms)
    → mappings_from background originals (rebuild rs) ≡ ok (background, ms)
unfolding mappings_from rebuild mapping_of replacement_of note_token
mappings_from-rebuild ctx originals [] {ms = ms} h =
    let e : [] ≡ ms = cc in ap (λ m. ok (background, m)) e
mappings_from-rebuild ctx originals (r ∷ rs) {ms = ms} h =
    let (c₁, h₁, k₁) = >>=-eq-ok (ctx_err ctx) _ h in
    let (o, h₂, k₂) = >>=-eq-ok (note_token originals r) _ k₁ in
    let ((c₂, rest), h₃, k₃) = >>=-eq-ok (mappings_from c₁ o rs) _ k₂ in
    let tail = mappings_from-rebuild c₁ o rs h₃ in
    let e : mapping_of r ∷ rest ≡ ms = cc in rw (h₂, tail) (ap (λ m. ok (background, m)) e)

placed :
    (text : Bytes) (r : Replacement)
    → IsPlaced text r
    → IsPlaced text (replacement_of (mapping_of r))
unfolding mapping_of replacement_of
placed text r p = record { span = p.span; original = p.original; token = p.token }

Layout-rebuild :
    (text : Bytes) (from : ℕ) (rs : List Replacement)
    → Layout text from rs
    → Layout text from (rebuild rs)
unfolding rebuild mapping_of replacement_of
Layout-rebuild text from [] h = h
Layout-rebuild text from (r ∷ rs) (h, p, l) =
    (h, placed text r p, Layout-rebuild text (pos_part r.end) rs l)

render-rebuild :
    (text : Bytes) (from : ℕ) (rs : List Replacement) (end : ℕ)
    → render text from (rebuild rs) end ≡ render text from rs end
unfolding rebuild mapping_of replacement_of render
render-rebuild text from [] end = refl
render-rebuild text from (r ∷ rs) end =
    ap (λ t. slice text from (pos_part r.start) ++ (r.token ++ t))
      (render-rebuild text (pos_part r.end) rs end)

-- Applying the replacements that are rebuilt from the mappings of a masked text to the original
-- text again gives the same masked text and mappings.
pub apply_replacements-replay :
    (ctx : Ctx) (text : Bytes) (rs : List Replacement) {c : Ctx} {masked : Bytes}
    {mappings : List TokenMapping}
    → apply_replacements ctx text rs ≡ ok (c, masked, mappings)
    → apply_replacements background text (map replacement_of mappings)
      ≡ ok (background, masked, mappings)
unfolding build_mappings rebuild
apply_replacements-replay ctx text rs {masked = masked} {mappings = mappings} h =
    let sorted = sort starts_before rs in
    let done = apply_replacements-Applied ctx text rs h in
    let e : mappings ≡ map mapping_of sorted =
      mappings_from-map done.before [] sorted done.mapped in
    let again =
      apply_replacements-ok text (rebuild sorted) (Layout-rebuild text 0 sorted done.layout)
        (mappings_from-rebuild done.before [] sorted done.mapped) in
    let same : render text 0 (rebuild sorted) (length text) ≡ masked =
      render-rebuild text 0 sorted (length text) ∙ sym done.rendered in
    ap (λ ms. apply_replacements background text (map replacement_of ms)) e
    ∙ again
    ∙ ap (λ t. ok (background, t, mappings)) same
