-- ===== src/Masking/RoundTrip.antt =====
-- Masking and detokenizing: `Mask` (internal/masking/cascade.go) up to the plans, the plans
-- (internal/tokenizer) and `Detokenize`.
use alpha_proxy.Masking.Cascade.{mask_entities}
use alpha_proxy.Masking.Cascade.Checks.{IsFound}
use alpha_proxy.Pii.{background, ok, Entity, Policy, Replacement, TokenMapping}
use alpha_proxy.Prelude.{
  Bytes, List, [], ◌∷◌, true, not, ◌||◌, ◌≡◌, refl, All, length, Bool-cases, inl, inr,
}
use alpha_proxy.Prelude.Int.{ltb_ℤ}
use alpha_proxy.Prelude.Sort.{sort}
use alpha_proxy.Prelude.Sort.Sorted.{All-sort}
use alpha_proxy.Tokenizer.Allocator.{Allocator, allocate, new_allocator}
use alpha_proxy.Tokenizer.Apply.Layout.{IsSpan-validate_span}
use alpha_proxy.Tokenizer.Apply.Render.{render}
use alpha_proxy.Tokenizer.Apply.Stages.{apply_replacements-ok}
use alpha_proxy.Tokenizer.Detokenizer.{detokenize}
use alpha_proxy.Tokenizer.Detokenizer.Tokens.{NoToken}
use alpha_proxy.Tokenizer.Merge.Cuts.{IsGood}
use alpha_proxy.Tokenizer.Merge.Total.{combine_plans-IsReady}
use alpha_proxy.Tokenizer.Plan.{plan_from, build_replacement_plan, entity_before}
use alpha_proxy.Tokenizer.RoundTrip.{detokenize-apply_replacements}
use alpha_proxy.Tokenizer.Span.{slice_ℤ}
use alpha_proxy.Utf8.{valid_string}

-- A plan of replacements of spans of whole characters.
record Planned (text : Bytes) (policy : Policy) (a : Allocator) (es : List Entity) : Type 0 where
  plan : List Replacement
  runs : plan_from text policy background a es ≡ ok (background, plan)
  good : All (IsGood text) plan

plan_from-Planned :
    (text : Bytes) (policy : Policy) (a : Allocator) (es : List Entity)
    → All (IsFound text) es
    → Planned text policy a es
unfolding plan_from
plan_from-Planned text policy a [] h = record { plan = []; runs = refl; good = tt }
plan_from-Planned text policy a (e ∷ es) (h, hs) =
    let span = IsSpan-validate_span text e.start e.end h.span in
    elim (Bool-cases
      (not (policy.allowed_kinds e.kind) || ltb_ℤ e.confidence policy.min_confidence)) [
        | inl y ↦
            let rest = plan_from-Planned text policy a es hs in
            record { plan = rest.plan; runs = rw (span, y, rest.runs) refl; good = rest.good }
        | inr n ↦
            let next = allocate a e.kind (slice_ℤ text e.start e.end) in
            let rest = plan_from-Planned text policy next.0 es hs in
            let first : Replacement = record {
              start = e.start;
              end = e.end;
              token = next.1;
              original = slice_ℤ text e.start e.end;
              kind = e.kind;
              source = e.source;
              confidence = e.confidence;
            } in
            record {
              plan = first ∷ rest.plan;
              runs = rw (span, n, rest.runs) refl;
              good = (record { span = h.span; original = refl; kind = h.kind }, rest.good);
            }
      ]

build-Planned :
    (text : Bytes) (policy : Policy) (es : List Entity)
    → All (IsFound text) es
    → (plan : List Replacement) × (build_replacement_plan background text es policy
        ≡ ok (background, plan))
      × All (IsGood text) plan
unfolding build_replacement_plan
build-Planned text policy es h =
    let planned =
      plan_from-Planned text policy (new_allocator text) (sort entity_before es)
        (All-sort entity_before (IsFound text) es h) in
    (planned.plan, planned.runs, planned.good)

-- What masking gives, and what detokenizing it gives.
pub record IsMasked (text : Bytes) (policy : Policy) (ml backend : List Entity) : Type 0 where
  pub output : Bytes
  pub mappings : List TokenMapping
  pub runs : mask_entities background text policy ml backend ≡ ok (background, output, mappings)
  pub undone : NoToken text → detokenize background output mappings ≡ ok (background, text)

pub mask_entities-IsMasked :
    (text : Bytes) (policy : Policy) (ml backend : List Entity)
    → valid_string text ≡ true
    → All (IsFound text) ml
    → All (IsFound text) backend
    → IsMasked text policy ml backend
unfolding mask_entities
mask_entities-IsMasked text policy ml backend v h k =
    let (ml_plan, r₁, g₁) = build-Planned text policy ml h in
    let (backend_plan, r₂, g₂) = build-Planned text policy backend k in
    let (plan, r₃, ready) = combine_plans-IsReady text ml_plan backend_plan policy v g₁ g₂ in
    let applied = apply_replacements-ok text plan ready.layout ready.mapped in
    record {
      output = render text 0 plan (length text);
      mappings = ready.mappings;
      runs = rw (r₁, r₂, r₃) applied;
      undone = λ n. detokenize-apply_replacements background text plan applied ready.tokens n;
    }
