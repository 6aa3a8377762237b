-- ===== src/Tokenizer/Merge.antt =====
-- internal/tokenizer/merge.go: `CombinePlans` and its helpers.
pub mod Gaps
pub mod Coverage
pub mod Dedupe
pub mod Cuts
pub mod Tokens
pub mod Total
pub mod Combined
use alpha_proxy.Pii.{
  Ctx, Result, ok, err, invalid_span, ◌>>=◌, ◌>>◌, guard, ctx_err, Replacement, Policy, PiiKind,
  Source, kind_phone, kind_email, kind_inn, kind_bank_card, kind_passport, kind_passport_division,
  kind_date, kind_driver_license, kind_cvv, kind_pin, kind_postal_code, kind_full_name,
  kind_address, kind_first_name, kind_last_name, kind_middle_name, kind_city, kind_street,
  kind_house, kind_apartment, kind_birth_place, kind_citizenship, kind_passport_issuer,
  kind_card_holder_name, source_reg, source_ml,
}
use alpha_proxy.Prelude.{
  ℕ, zero, suc, Bytes, List, [], ◌∷◌, ◌++◌, map, Bool, true, false, not, ◌&&◌, ◌||◌, Option, none,
  some, if◌then◌else◌, bytes_eq, bytes_lt, ltb, ◌==◌,
}
use alpha_proxy.Prelude.Dict.{lookup, insert}
use alpha_proxy.Prelude.Int.{ℤ, pos, negsuc, ltb_ℤ, leb_ℤ, eqb_ℤ, min_ℤ, max_ℤ, ◌-ℤ◌}
use alpha_proxy.Prelude.Sort.{sort}
use alpha_proxy.Tokenizer.Allocator.{Allocator, allocate, new_allocator, format_decimal}
use alpha_proxy.Tokenizer.Priority.{pick_winner, candidate_less}
use alpha_proxy.Tokenizer.Span.{slice_ℤ, validate_span}

-- `%d` of an int.
unfoldable pub format_int : ℤ → Bytes
format_int (pos n) = format_decimal n
format_int (negsuc n) = b'-' ∷ format_decimal (suc n)

-- `fmt.Sprintf("%d:%d:%s:%s", …)`.
unfoldable pub dedupe_key : Replacement → Bytes
unfolding format_int
dedupe_key r =
    format_int r.start ++ b':' ∷ (format_int r.end ++ b':' ∷ (r.kind ++ b':' ∷ r.original))

-- `byKey` and `order` in one: the entries stand in the order in which their keys were first met.
unfoldable pub dedupe_from : List (Bytes × Replacement) → List Replacement → List Replacement
unfolding dedupe_key pick_winner
dedupe_from by_key [] = map (λ e. e.1) by_key
dedupe_from by_key (r ∷ rs) =
    dedupe_from
      (insert (dedupe_key r)
        (elim (lookup (dedupe_key r) by_key) [ none ↦ r | some existing ↦ pick_winner existing r ])
        by_key)
      rs

unfoldable pub dedupe : List Replacement → List Replacement
unfolding dedupe_from
dedupe rs = dedupe_from [] rs

-- By start, then by end.
unfoldable pub span_before : Replacement → Replacement → Bool
span_before a b = if not (eqb_ℤ a.start b.start) then ltb_ℤ a.start b.start else ltb_ℤ a.end b.end

-- `if cursor < c.End { out = append(out, [2]int{cursor, c.End}) }`
unfoldable pub last_gap : ℤ → ℤ → List (ℤ × ℤ)
last_gap end cursor = if ltb_ℤ cursor end then (cursor, end) ∷ [] else []

-- The loop of `uncoveredSpans`, over the sorted spans, with what follows it.
unfoldable pub uncovered_from : ℤ → ℤ → List Replacement → List (ℤ × ℤ)
unfolding last_gap
uncovered_from end cursor [] = last_gap end cursor
uncovered_from end cursor (s ∷ rest) =
    let cursor' = if ltb_ℤ cursor s.end then max_ℤ cursor s.end else cursor in
    let gap : List (ℤ × ℤ) =
      if ltb_ℤ cursor s.start then (cursor, min_ℤ s.start end) ∷ [] else [] in
    let skip = uncovered_from end cursor rest in
    let next = uncovered_from end cursor' rest in
    if leb_ℤ s.end cursor
    then skip
    else if leb_ℤ end s.start
    then last_gap end cursor
    else gap ++ (if leb_ℤ end cursor' then last_gap end cursor' else next)

unfoldable pub uncovered_spans : Replacement → List Replacement → List (ℤ × ℤ)
unfolding uncovered_from span_before
uncovered_spans c selected = uncovered_from c.end c.start (sort span_before selected)

-- `r := c; r.Start = u[0]; r.End = u[1]; r.Original = text[u[0]:u[1]]`
unfoldable pub fragment : Bytes → Replacement → ℤ × ℤ → Replacement
fragment text c u = record c { start = u.0; end = u.1; original = slice_ℤ text u.0 u.1 }

unfoldable pub select_from :
    Bytes → Ctx → List Replacement → List Replacement → Result (Ctx × List Replacement)
unfolding uncovered_spans fragment
select_from text ctx selected [] = ok (ctx, selected)
select_from text ctx selected (c ∷ cs) = do
  ctx' ← ctx_err ctx
  select_from text ctx' (selected ++ map (fragment text c) (uncovered_spans c selected)) cs

unfoldable pub resolve_overlaps : Ctx → Bytes → List Replacement → Result (Ctx × List Replacement)
unfolding select_from candidate_less
resolve_overlaps ctx text rs = select_from text ctx [] (sort candidate_less rs)

-- By start, then the longer first, then by kind.
unfoldable pub plan_before : Replacement → Replacement → Bool
plan_before a b =
    if not (eqb_ℤ a.start b.start)
    then ltb_ℤ a.start b.start
    else if not (eqb_ℤ a.end b.end)
    then ltb_ℤ b.end a.end
    else bytes_lt a.kind b.kind

unfoldable pub normalize_from : Allocator → List Replacement → List Replacement
normalize_from allocator [] = []
normalize_from allocator (r ∷ rs) =
    let next = allocate allocator r.kind r.original in
    record r { token = next.1 } ∷ normalize_from next.0 rs

unfoldable pub normalize_tokens : Bytes → List Replacement → List Replacement
unfolding normalize_from
normalize_tokens text rs = normalize_from (new_allocator text) rs

-- The first loop of `CombinePlans`: the replacements that the policy accepts.
unfoldable pub accepted : Bytes → Policy → Ctx → List Replacement → Result (Ctx × List Replacement)
accepted text policy ctx [] = ok (ctx, [])
accepted text policy ctx (r ∷ rs) = do
  ctx' ← ctx_err ctx
  validate_span text r.start r.end
  guard (bytes_eq (slice_ℤ text r.start r.end) r.original) invalid_span
  (ctx'', rest) ← accepted text policy ctx' rs
  ok (
    ctx'',
    if not (policy.allowed_kinds r.kind) || ltb_ℤ r.confidence policy.min_confidence
        then rest
        else r ∷ rest,
  )

unfoldable pub combine_plans :
    Ctx → Bytes → List Replacement → List Replacement → Policy → Result (Ctx × List Replacement)
unfolding accepted dedupe resolve_overlaps plan_before normalize_tokens
combine_plans ctx text ml_plan backend_plan policy = do
  (ctx₁, validated) ← accepted text policy ctx (ml_plan ++ backend_plan)
  (ctx₂, selected) ← resolve_overlaps ctx₁ text (dedupe validated)
  ok (ctx₂, normalize_tokens text (sort plan_before selected))
