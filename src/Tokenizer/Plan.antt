-- ===== src/Tokenizer/Plan.antt =====
-- internal/tokenizer/plan.go: `BuildReplacementPlan`.
use alpha_proxy.Pii.{Ctx, Result, ok, ◌>>=◌, ◌>>◌, ctx_err, Entity, Replacement, Policy}
use alpha_proxy.Prelude.{Bytes, List, [], ◌∷◌, Bool, not, ◌||◌, if◌then◌else◌}
use alpha_proxy.Prelude.Int.{ltb_ℤ, eqb_ℤ}
use alpha_proxy.Prelude.Sort.{sort}
use alpha_proxy.Tokenizer.Allocator.{Allocator, allocate, new_allocator}
use alpha_proxy.Tokenizer.Span.{slice_ℤ, validate_span}

-- By start, and at one start the longer entity first.
unfoldable pub entity_before : Entity → Entity → Bool
entity_before a b = if not (eqb_ℤ a.start b.start) then ltb_ℤ a.start b.start else ltb_ℤ b.end a.end

unfoldable pub plan_from :
    Bytes → Policy → Ctx → Allocator → List Entity → Result (Ctx × List Replacement)
plan_from text policy ctx allocator [] = ok (ctx, [])
plan_from text policy ctx allocator (e ∷ es) = do
  ctx' ← ctx_err ctx
  validate_span text e.start e.end
  let skip = plan_from text policy ctx' allocator es
  let original = slice_ℤ text e.start e.end
  let next = allocate allocator e.kind original
  let keep = do
    (ctx'', rest) ← plan_from text policy ctx' next.0 es
    ok (
      ctx'',
      record {
        start = e.start;
        end = e.end;
        token = next.1;
        original = original;
        kind = e.kind;
        source = e.source;
        confidence = e.confidence;
      }
          ∷ rest,
    )
  if not (policy.allowed_kinds e.kind) || ltb_ℤ e.confidence policy.min_confidence
      then skip
      else keep

unfoldable pub build_replacement_plan :
    Ctx → Bytes → List Entity → Policy → Result (Ctx × List Replacement)
unfolding plan_from entity_before
build_replacement_plan ctx text entities policy =
    plan_from text policy ctx (new_allocator text) (sort entity_before entities)
