-- ===== src/Tokenizer/Apply.antt =====
-- internal/tokenizer/apply.go: `ApplyReplacements` and its three loops.
pub mod Layout
pub mod Render
pub mod Stages
use mathlib.Core.List.{reverse}
use alpha_proxy.Pii.{
  Ctx, Result, ok, err, invalid_span, ◌>>=◌, ◌>>◌, guard, ctx_err, Replacement, TokenMapping,
}
use alpha_proxy.Prelude.{
  ℕ, Bytes, List, [], ◌∷◌, ◌++◌, Bool, true, false, not, ◌&&◌, ◌||◌, Option, none, some, length,
  bytes_eq, if◌then◌else◌,
}
use alpha_proxy.Prelude.Dict.{lookup, insert}
use alpha_proxy.Prelude.Int.{ℤ, pos, ltb_ℤ}
use alpha_proxy.Prelude.Sort.{sort}
use alpha_proxy.Tokenizer.Span.{slice_ℤ, validate_span}

-- merge.go
unfoldable pub spans_overlap : Replacement → Replacement → Bool
spans_overlap a b = ltb_ℤ a.start b.end && ltb_ℤ b.start a.end

-- `i > 0 && spansOverlap(replacements[i-1], r)`.
unfoldable pub overlaps_previous : Option Replacement → Replacement → Bool
unfolding spans_overlap
overlaps_previous none r = false
overlaps_previous (some p) r = spans_overlap p r

-- One round of `validateReplacements`, behind the test of the context.
unfoldable pub validate_one : Bytes → Option Replacement → Replacement → Result (Unit {0})
unfolding overlaps_previous
validate_one text previous r = do
  validate_span text r.start r.end
  guard (bytes_eq (slice_ℤ text r.start r.end) r.original) invalid_span
  guard (not (bytes_eq r.token [])) invalid_span
  guard (not (overlaps_previous previous r)) invalid_span

unfoldable pub validate_from : Bytes → Ctx → Option Replacement → List Replacement → Result Ctx
validate_from text ctx previous [] = ok ctx
validate_from text ctx previous (r ∷ rs) = do
  ctx' ← ctx_err ctx
  validate_one text previous r
  validate_from text ctx' (some r) rs

unfoldable pub validate_replacements : Ctx → Bytes → List Replacement → Result Ctx
unfolding validate_from
validate_replacements ctx text rs = validate_from text ctx none rs

unfoldable pub mapping_of : Replacement → TokenMapping
mapping_of r = record {
  token = r.token;
  original = r.original;
  kind = r.kind;
  source = r.source;
  start = r.start;
  end = r.end;
}

-- The entry that `tokenOriginals` gets, with no offsets.
unfoldable pub token_entry : Replacement → TokenMapping
token_entry r = record {
  token = r.token;
  original = r.original;
  kind = r.kind;
  source = r.source;
  start = pos 0;
  end = pos 0;
}

-- The test of a token that was met before: the map with its entry, or the conflict.
unfoldable pub note_token :
    List (Bytes × TokenMapping) → Replacement → Result (List (Bytes × TokenMapping))
unfolding token_entry
note_token originals r = elim (lookup r.token originals) [
  | some existing ↦
      if not (bytes_eq existing.original r.original) || not (bytes_eq existing.kind r.kind)
      then err invalid_span
      else ok originals
  | none ↦ ok (insert r.token (token_entry r) originals)
]

unfoldable pub mappings_from :
    Ctx → List (Bytes × TokenMapping) → List Replacement → Result (Ctx × List TokenMapping)
unfolding mapping_of
mappings_from ctx originals [] = ok (ctx, [])
mappings_from ctx originals (r ∷ rs) = do
  ctx' ← ctx_err ctx
  originals' ← note_token originals r
  (ctx'', rest) ← mappings_from ctx' originals' rs
  ok (ctx'', mapping_of r ∷ rest)

unfoldable pub build_mappings : Ctx → List Replacement → Result (Ctx × List TokenMapping)
unfolding mappings_from
build_mappings ctx rs = mappings_from ctx [] rs

-- The first loop of `buildMaskedText`, over the replacements from the last to the first: `parts`
-- so far, and `prev`.
unfoldable pub collect_parts :
    Bytes → Ctx → List Replacement → List Bytes → ℤ → Result (Ctx × List Bytes)
collect_parts text ctx [] parts prev = ok (ctx, parts ++ slice_ℤ text (pos 0) prev ∷ [])
collect_parts text ctx (r ∷ rs) parts prev = do
  ctx' ← ctx_err ctx
  collect_parts text ctx' rs (parts ++ slice_ℤ text r.end prev ∷ r.token ∷ []) r.start

-- The second loop, over the parts from the last to the first.
unfoldable pub write_parts : Ctx → List Bytes → Bytes → Result (Ctx × Bytes)
write_parts ctx [] out = ok (ctx, out)
write_parts ctx (p ∷ ps) out = do ctx' ← ctx_err ctx; write_parts ctx' ps (out ++ p)

unfoldable pub build_masked_text : Ctx → Bytes → List Replacement → Result (Ctx × Bytes)
unfolding collect_parts write_parts
build_masked_text ctx text rs = do
  (ctx', parts) ← collect_parts text ctx (reverse rs) [] (pos (length text))
  write_parts ctx' (reverse parts) []

unfoldable pub starts_before : Replacement → Replacement → Bool
starts_before a b = ltb_ℤ a.start b.start

unfoldable pub apply_replacements :
    Ctx → Bytes → List Replacement → Result (Ctx × Bytes × List TokenMapping)
unfolding starts_before
apply_replacements ctx text rs = do
  let sorted = sort starts_before rs
  ctx₁ ← validate_replacements ctx text sorted
  (ctx₂, mappings) ← build_mappings ctx₁ sorted
  (ctx₃, masked) ← build_masked_text ctx₂ text sorted
  ok (ctx₃, masked, mappings)
