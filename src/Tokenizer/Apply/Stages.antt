-- ===== src/Tokenizer/Apply/Stages.antt =====
-- `ApplyReplacements` taken apart: what holds where it returns a masked text, and what it takes.
use alpha_proxy.Pii.{Ctx, background, ok, Replacement, TokenMapping, >>=-eq-ok}
use alpha_proxy.Prelude.{Bytes, List, ◌≡◌, sym, ap, ◌∙◌, length}
use alpha_proxy.Prelude.Sort.{sort}
use alpha_proxy.Prelude.Sort.Sorted.{sort-IsSorted, sort_sorted}
use alpha_proxy.Tokenizer.Apply.{
  apply_replacements, validate_replacements, build_mappings, build_masked_text, starts_before,
}
use alpha_proxy.Tokenizer.Apply.Layout.{
  Layout, validate-Layout, Layout-validate, Layout-IsSorted, starts_before_asym,
}
use alpha_proxy.Tokenizer.Apply.Render.{render, build_masked_text-render, build_masked_text-ok}

pub record Applied (text : Bytes) (rs : List Replacement) (masked : Bytes)
    (mappings : List TokenMapping) : Type 0 where
  pub layout : Layout text 0 (sort starts_before rs)
  pub before : Ctx
  pub after : Ctx
  pub mapped : build_mappings before (sort starts_before rs) ≡ ok (after, mappings)
  pub rendered : masked ≡ render text 0 (sort starts_before rs) (length text)

-- Where a masked text is returned, the sorted replacements are laid out in the text, their
-- mappings do not conflict, and the text is the rendering.
pub apply_replacements-Applied :
    (ctx : Ctx) (text : Bytes) (rs : List Replacement) {c : Ctx} {masked : Bytes}
    {mappings : List TokenMapping}
    → apply_replacements ctx text rs ≡ ok (c, masked, mappings)
    → Applied text rs masked mappings
unfolding apply_replacements
apply_replacements-Applied ctx text rs {masked = masked} {mappings = mappings} h =
    let sorted = sort starts_before rs in
    let (c₁, h₁, k₁) = >>=-eq-ok (validate_replacements ctx text sorted) _ h in
    let (p, h₂, k₂) = >>=-eq-ok (build_mappings c₁ sorted) _ k₁ in
    let (q, h₃, k₃) = >>=-eq-ok (build_masked_text p.0 text sorted) _ k₂ in
    let e : p.1 ≡ mappings = cc in
    let e' : q.1 ≡ masked = cc in
    record {
      layout =
          validate-Layout text ctx sorted (sort-IsSorted starts_before starts_before_asym rs) h₁;
      before = c₁;
      after = p.0;
      mapped = h₂ ∙ ap (λ m. ok (p.0, m)) e;
      rendered = sym e' ∙ build_masked_text-render p.0 text sorted h₃;
    }

-- Replacements that are laid out in the text one behind the other and whose mappings do not conflict
-- are applied, where the context does not end: the result is the rendering of the text with the
-- tokens in place of the spans, and the mappings.
pub apply_replacements-ok :
    (text : Bytes) (rs : List Replacement) {mappings : List TokenMapping}
    → Layout text 0 rs
    → build_mappings background rs ≡ ok (background, mappings)
    → apply_replacements background text rs
      ≡ ok (background, render text 0 rs (length text), mappings)
unfolding apply_replacements
apply_replacements-ok text rs l h =
    rw (sort_sorted starts_before rs (Layout-IsSorted text 0 rs l))
      (rw (Layout-validate text rs l) (rw h (rw (build_masked_text-ok text rs))))
