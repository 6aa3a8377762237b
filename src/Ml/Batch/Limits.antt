-- ===== src/Ml/Batch/Limits.antt =====
-- How `TakeBatch` (internal/ml/batch.go) divides the items, and the limits of a batch.
use alpha_proxy.Ml.Batch.{RequestItem, BatchConfig, validate_batch_config, take_from, take_batch}
use alpha_proxy.Pii.{Ctx, ok, payload_too_large, ctx_err, guard, >>=-eq-ok}
use alpha_proxy.Prelude.{
  ℕ, suc, ◌+◌, ◌<◌, Bytes, List, [], ◌∷◌, ◌++◌, Bool, true, false, not, ◌&&◌, ◌||◌, ◌≡◌, refl, ap,
  sym, ◌∙◌, arith, length, drop, drop-length, Bool-cases, inl, inr,
}
use alpha_proxy.Prelude.Int.{pos, ◌≤ℤ◌, ◌<ℤ◌, ltb_ℤ, leb_ℤ}

module _ (rune_count : Bytes → ℕ) where
  unfoldable pub code_points : List RequestItem → ℕ
  code_points [] = 0
  code_points (item ∷ items) = rune_count item.text + code_points items

  -- What is selected and what is left make up the items, within the limits.
  pub record Fits (cfg : BatchConfig) (count total : ℕ) (items selected : List RequestItem)
      : Type 0 where
    pub rest : List RequestItem
    pub whole : selected ++ rest ≡ items
    pub at_most : pos (count + length selected) ≤ℤ cfg.max_items
    pub size : pos (total + code_points selected) ≤ℤ cfg.max_code_points

  take_from-Fits :
      (cfg : BatchConfig) (first : Bool) (count total : ℕ) (ctx : Ctx) (items : List RequestItem)
      {c : Ctx} {selected : List RequestItem}
      → pos count ≤ℤ cfg.max_items
      → pos total ≤ℤ cfg.max_code_points
      → take_from rune_count cfg first count total ctx items ≡ ok (c, selected)
      → Fits cfg count total items selected
  unfolding take_from code_points
  take_from-Fits cfg first count total ctx [] {selected = selected} h h' e =
      let none_more : [] ≡ selected = cc in
      rw (← none_more)
        (record { rest = []; whole = refl; at_most = omega arith; size = omega arith })
  take_from-Fits cfg first count total ctx (item ∷ items) {selected = selected} h h' e =
      let n = rune_count item.text in
      let (c₁, h₁, k₁) = >>=-eq-ok (ctx_err ctx) _ e in
      let (u, h₂, k₂) =
        >>=-eq-ok (guard (not (first && ltb_ℤ cfg.max_code_points (pos n))) payload_too_large) _
          k₁ in
      elim (Bool-cases
        (leb_ℤ cfg.max_items (pos count) || ltb_ℤ cfg.max_code_points (pos (total + n)))) [
          | inl y ↦
              let none_more : [] ≡ selected = ground arith in
              rw (← none_more) (record {
                rest = item ∷ items;
                whole = refl;
                at_most = omega arith;
                size = omega arith;
              })
          | inr space ↦
              let k = rw space at k₂ in
              let (r, h₃, k₃) =
                >>=-eq-ok (take_from rune_count cfg false (suc count) (total + n) c₁ items) _ k in
              let more =
                take_from-Fits cfg false (suc count) (total + n) c₁ items (ground arith)
                  (ground arith) h₃ in
              let one : item ∷ r.1 ≡ selected = cc in
              let most = more.at_most in
              let room = more.size in
              rw (← one) (record {
                rest = more.rest;
                whole = ap (◌∷◌ item) more.whole;
                at_most = omega (arith, most);
                size = omega (arith, room);
              })
        ]

  -- The first item always fits, or the loop fails.
  take_from-progress :
      (cfg : BatchConfig) (ctx : Ctx) (item : RequestItem) (items : List RequestItem) {c : Ctx}
      {selected : List RequestItem}
      → pos 0 <ℤ cfg.max_items
      → take_from rune_count cfg true 0 0 ctx (item ∷ items) ≡ ok (c, selected)
      → 0 < length selected
  unfolding take_from
  take_from-progress cfg ctx item items {selected = selected} h e =
      let n = rune_count item.text in
      let (c₁, h₁, k₁) = >>=-eq-ok (ctx_err ctx) _ e in
      let (u, h₂, k₂) =
        >>=-eq-ok (guard (not (ltb_ℤ cfg.max_code_points (pos n))) payload_too_large) _ k₁ in
      let space : (leb_ℤ cfg.max_items (pos 0) || ltb_ℤ cfg.max_code_points (pos (0 + n))) ≡ false =
        ground arith in
      let k = rw space at k₂ in
      let (r, h₃, k₃) = >>=-eq-ok (take_from rune_count cfg false 1 (0 + n) c₁ items) _ k in
      let one : item ∷ r.1 ≡ selected = cc in rw (← one) (omega arith)

  validate-positive :
      (cfg : BatchConfig)
      → validate_batch_config cfg ≡ ok tt
      → (pos 0 <ℤ cfg.max_items) × (pos 0 <ℤ cfg.max_code_points)
  unfolding validate_batch_config
  validate-positive cfg h = ground arith

  -- What `TakeBatch` returns is the items in two parts, the first of them within both limits, and
  -- not empty unless there are no items.
  pub take_batch-Fits :
      (ctx : Ctx) (items : List RequestItem) (cfg : BatchConfig) {c : Ctx}
      {selected left : List RequestItem}
      → take_batch rune_count ctx items cfg ≡ ok (c, selected, left)
      → (selected ++ left ≡ items)
        × (pos (length selected) ≤ℤ cfg.max_items)
        × (pos (code_points selected) ≤ℤ cfg.max_code_points)
        × (0 < length items → 0 < length selected)
  unfolding take_batch code_points
  take_batch-Fits ctx [] cfg {selected = selected} {left = left} e =
      let (u, h₁, k₁) = >>=-eq-ok (validate_batch_config cfg) _ e in
      let none_taken : [] ≡ selected = cc in
      let none_left : [] ≡ left = cc in
      let positive = validate-positive cfg h₁ in
      rw (← none_taken, ← none_left)
        (refl, omega (arith, positive.0), omega (arith, positive.1), λ h. absurd (omega arith))
  take_batch-Fits ctx (item ∷ items) cfg {selected = selected} {left = left} e =
      let (u, h₁, k₁) = >>=-eq-ok (validate_batch_config cfg) _ e in
      let positive = validate-positive cfg h₁ in
      let (r, h₂, k₂) = >>=-eq-ok (take_from rune_count cfg true 0 0 ctx (item ∷ items)) _ k₁ in
      let fits =
        take_from-Fits cfg true 0 0 ctx (item ∷ items) (omega (arith, positive.0))
          (omega (arith, positive.1)) h₂ in
      let same : r.1 ≡ selected = cc in
      let other_part : drop (length r.1) (item ∷ items) ≡ left = cc in
      let cut : fits.rest ≡ left =
        sym (drop-length r.1 fits.rest) ∙ ap (drop (length r.1)) fits.whole ∙ other_part in
      let most = fits.at_most in
      let room = fits.size in
      rw (← same, ← cut)
        (
          fits.whole,
          omega (arith, most),
          omega (arith, room),
          λ _. take_from-progress cfg ctx item items positive.0 h₂,
        )
