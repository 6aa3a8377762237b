-- ===== src/Rules/Residual.antt =====
-- internal/residual/residual.go: the text with the found spans blanked out, byte for byte.
pub mod Blanks
use alpha_proxy.Prelude.{
  ℕ, zero, suc, ◌+◌, ◌-◌, Bytes, List, [], ◌∷◌, map, Bool, true, false, not, length, bytes_eq, ◌==◌,
  if◌then◌else◌,
}
use alpha_proxy.Prelude.Int.{ℤ, pos, pos_part, ltb_ℤ, leb_ℤ}
use alpha_proxy.Rules.Spans.{CandidateSpan, ResolvedEntity}

-- `for i := start; i < end; i++ { b[i] = ' ' }`, where the end is within the text.
unfoldable pub blank : ℕ → ℕ → Bytes → Bytes
blank start count [] = []
blank zero zero (c ∷ b) = c ∷ b
blank zero (suc count) (c ∷ b) = b' ' ∷ blank zero count b
blank (suc start) count (c ∷ b) = c ∷ blank start count b

-- One round of the loop over the spans, with both ends cut to the text.
unfoldable pub blank_span : ResolvedEntity → Bytes → Bytes
unfolding blank
blank_span s b =
    let start = if ltb_ℤ s.start (pos 0) then pos 0 else s.start in
    let end = if ltb_ℤ (pos (length b)) s.end then pos (length b) else s.end in
    if leb_ℤ end start then b else blank (pos_part start) (pos_part end - pos_part start) b

unfoldable pub blank_spans : List ResolvedEntity → Bytes → Bytes
unfolding blank_span
blank_spans [] b = b
blank_spans (s ∷ spans) b = blank_spans spans (blank_span s b)

unfoldable pub build : Bytes → List ResolvedEntity → Bytes
unfolding blank_spans
build original spans = blank_spans spans original

unfoldable pub build_from_candidates : Bytes → List CandidateSpan → Bytes
unfolding build
build_from_candidates original spans = build original (
    map
      (λ s. record {
        type = s.type;
        text = s.text;
        start = s.start;
        end = s.end;
        score = pos 0;
        reason = [];
      })
      spans)

unfoldable pub masked : Bytes → Bytes → Bool
masked original residual = not (bytes_eq original residual)

unfoldable pub count_changed : Bytes → Bytes → ℕ
count_changed [] residual = 0
count_changed (c ∷ original) [] = 0
count_changed (c ∷ original) (d ∷ residual) =
    (if c == d then 0 else 1) + count_changed original residual

unfoldable pub count_masked_bytes : Bytes → Bytes → ℕ
unfolding count_changed
count_masked_bytes original residual =
    if not (length original == length residual) then 0 else count_changed original residual
