-- ===== src/Masking/Rule.antt =====
-- internal/masking/rule.go: masking by the rule engine alone. The detector is a parameter.
use alpha_proxy.Pii.{Ctx, Result, ◌>>=◌, ctx_err, Entity, Policy, TokenMapping}
use alpha_proxy.Prelude.{Bytes, List}
use alpha_proxy.Tokenizer.Apply.{apply_replacements}
use alpha_proxy.Tokenizer.Plan.{build_replacement_plan}

unfoldable pub mask_by_rules :
    (Ctx → Bytes → Result (Ctx × List Entity))
    → Ctx
    → Bytes
    → Policy
    → Result (Ctx × Bytes × List TokenMapping)
mask_by_rules detect ctx text policy = do
  ctx₁ ← ctx_err ctx
  (ctx₂, entities) ← detect ctx₁ text
  (ctx₃, plan) ← build_replacement_plan ctx₂ text entities policy
  apply_replacements ctx₃ text plan
