-- ===== src/Tokenizer/Merge/Combined.antt =====
-- `CombinePlans` as a whole: which offsets of the text its plan covers.
use alpha_proxy.Pii.{Ctx, ok, Replacement, Policy, ctx_err, guard, invalid_span, >>=-eq-ok}
use alpha_proxy.Prelude.{
  ◌≤◌, Bytes, List, [], ◌∷◌, ◌++◌, ◌≡◌, refl, sym, ap, ◌∙◌, arith, not, ◌&&◌, ◌||◌, bytes_eq,
  if◌then◌else◌, ◌==◌,
}
use alpha_proxy.Prelude.Int.{ℤ, ltb_ℤ, leb_ℤ}
use alpha_proxy.Prelude.Sort.{sort}
use alpha_proxy.Tokenizer.Allocator.{Allocator, allocate, new_allocator}
use alpha_proxy.Tokenizer.Merge.{
  accepted, dedupe, resolve_overlaps, plan_before, normalize_from, normalize_tokens, combine_plans,
}
use alpha_proxy.Tokenizer.Merge.Coverage.{
  count, covers, covers-count, count-sort, select_from-count,
}
use alpha_proxy.Tokenizer.Merge.Dedupe.{dedupe-covers}
use alpha_proxy.Tokenizer.Priority.{candidate_less}
use alpha_proxy.Tokenizer.Span.{slice_ℤ, validate_span}

-- The replacements of the kinds and the confidence that the policy asks for.
unfoldable pub permitted : Policy → List Replacement → List Replacement
permitted policy [] = []
permitted policy (r ∷ rs) =
    if policy.allowed_kinds r.kind && leb_ℤ policy.min_confidence r.confidence
    then r ∷ permitted policy rs
    else permitted policy rs

-- The first loop keeps just those.
pub accepted-permitted :
    (text : Bytes) (policy : Policy) (ctx : Ctx) (rs : List Replacement) {c : Ctx}
    {kept : List Replacement}
    → accepted text policy ctx rs ≡ ok (c, kept)
    → kept ≡ permitted policy rs
unfolding accepted permitted
accepted-permitted text policy ctx [] h = cc
accepted-permitted text policy ctx (r ∷ rs) {kept = kept} h =
    let (c, hc, h₁) = >>=-eq-ok (ctx_err ctx) _ h in
    let (u, hu, h₂) = >>=-eq-ok (validate_span text r.start r.end) _ h₁ in
    let (v, hv, h₃) =
      >>=-eq-ok (guard (bytes_eq (slice_ℤ text r.start r.end) r.original) invalid_span) _ h₂ in
    let (p, hp, h₄) = >>=-eq-ok (accepted text policy c rs) _ h₃ in
    let rest = accepted-permitted text policy c rs hp in
    let e : kept ≡ (
        if not (policy.allowed_kinds r.kind) || ltb_ℤ r.confidence policy.min_confidence
        then p.1
        else r ∷ p.1) =
      cc in
    e ∙ ground (arith, rest)

normalize_from-count :
    (x : ℤ) (a : Allocator) (rs : List Replacement) → count x (normalize_from a rs) ≡ count x rs
unfolding count normalize_from
normalize_from-count x a [] = refl
normalize_from-count x a (r ∷ rs) =
    omega (arith, normalize_from-count x (allocate a r.kind r.original).0 rs)

normalize_tokens-count :
    (x : ℤ) (text : Bytes) (rs : List Replacement) → count x (normalize_tokens text rs) ≡ count x rs
unfolding normalize_tokens
normalize_tokens-count x text rs = normalize_from-count x (new_allocator text) rs

-- Lists with one count cover alike.
covers_of_count :
    (x : ℤ) (rs qs : List Replacement) → count x rs ≡ count x qs → covers x rs ≡ covers x qs
covers_of_count x rs qs e = covers-count x rs ∙ ap (λ n. not (n == 0)) e ∙ sym (covers-count x qs)

-- Where `resolveOverlaps` succeeds, no offset lies in two spans of its result, and an offset lies in
-- one exactly if it lies in a span of its input.
pub resolve_overlaps-covers :
    (ctx : Ctx) (text : Bytes) (rs : List Replacement) {c : Ctx} {res : List Replacement}
    → resolve_overlaps ctx text rs ≡ ok (c, res)
    → (x : ℤ) → (count x res ≤ 1) × (covers x res ≡ covers x rs)
unfolding resolve_overlaps count covers
resolve_overlaps-covers ctx text rs h x =
    let (once, same) =
      select_from-count x text ctx [] (sort candidate_less rs) h tt (omega arith) in
    (once, same ∙ covers_of_count x (sort candidate_less rs) rs (count-sort candidate_less x rs))

-- In the plan that `CombinePlans` returns no offset of the text lies in two spans, and an offset
-- lies in a span exactly if it lies in the span of some replacement of the two plans that the
-- policy permits by its kind and confidence.
pub combine_plans-covers :
    (ctx : Ctx) (text : Bytes) (ml backend : List Replacement) (policy : Policy) {c : Ctx}
    {plan : List Replacement}
    → combine_plans ctx text ml backend policy ≡ ok (c, plan)
    → (x : ℤ) → (count x plan ≤ 1) × (covers x plan ≡ covers x (permitted policy (ml ++ backend)))
unfolding combine_plans
combine_plans-covers ctx text ml backend policy {plan = plan} h x =
    let (p, hp, h₁) = >>=-eq-ok (accepted text policy ctx (ml ++ backend)) _ h in
    let (q, hq, h₂) = >>=-eq-ok (resolve_overlaps p.0 text (dedupe p.1)) _ h₁ in
    let e : normalize_tokens text (sort plan_before q.1) ≡ plan = cc in
    let (once, same) = resolve_overlaps-covers p.0 text (dedupe p.1) hq x in
    let counts : count x plan ≡ count x q.1 =
      ap (count x) (sym e)
      ∙ normalize_tokens-count x text (sort plan_before q.1)
      ∙ count-sort plan_before x q.1 in
    (
      omega (arith, counts, once),
      covers_of_count x plan q.1 counts
          ∙ same
          ∙ dedupe-covers x p.1
          ∙ ap (covers x) (accepted-permitted text policy ctx (ml ++ backend) hp),
    )
