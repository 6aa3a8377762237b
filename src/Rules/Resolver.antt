-- ===== src/Rules/Resolver.antt =====
-- internal/resolver/resolver.go: the choice among the spans that the recognizers found.
pub mod Pointer
pub mod Disjoint
use alpha_proxy.Prelude.{
  ℕ, zero, suc, ◌+◌, List, [], ◌∷◌, ◌++◌, map, Bool, not, ◌&&◌, ◌||◌, take, drop, ltb, ◌==◌,
  if◌then◌else◌,
}
use alpha_proxy.Prelude.Int.{ℤ, ltb_ℤ, leb_ℤ, eqb_ℤ}
use alpha_proxy.Prelude.Sort.{sort}
use alpha_proxy.Rules.Spans.{CandidateSpan, ResolvedEntity, evidence_strength}

unfoldable pub above_threshold : ℤ → List CandidateSpan → List CandidateSpan
above_threshold min_score [] = []
above_threshold min_score (s ∷ spans) =
    if leb_ℤ min_score s.score
    then s ∷ above_threshold min_score spans
    else above_threshold min_score spans

-- By the start, the strength of the evidence and the score.
unfoldable pub span_first : CandidateSpan → CandidateSpan → Bool
span_first a b =
    let sa = evidence_strength a in
    let sb = evidence_strength b in
    if not (eqb_ℤ a.start b.start)
    then ltb_ℤ a.start b.start
    else if not (sa == sb)
    then ltb sb sa
    else ltb_ℤ b.score a.score

unfoldable pub candidates_overlap : CandidateSpan → CandidateSpan → Bool
candidates_overlap a b = ltb_ℤ a.start b.end && ltb_ℤ b.start a.end

unfoldable pub is_stronger : CandidateSpan → CandidateSpan → Bool
is_stronger s keep =
    ltb (evidence_strength keep) (evidence_strength s)
    || (evidence_strength s == evidence_strength keep) && ltb_ℤ keep.score s.score

-- How far `activeStart` moves: over the spans that end at or before the start.
unfoldable pub passed : ℤ → List CandidateSpan → ℕ
passed start [] = 0
passed start (keep ∷ ks) = if leb_ℤ keep.end start then suc (passed start ks) else 0

-- The inner loop: the first span that overlaps is replaced or kept, or the span is appended.
unfoldable pub settle : CandidateSpan → List CandidateSpan → List CandidateSpan
unfolding candidates_overlap is_stronger
settle s [] = s ∷ []
settle s (keep ∷ ks) =
    if candidates_overlap s keep
    then (if is_stronger s keep then s else keep) ∷ ks
    else keep ∷ settle s ks

-- The outer loop, with `activeStart` and the spans resolved so far.
unfoldable pub resolve_from : ℕ → List CandidateSpan → List CandidateSpan → List CandidateSpan
unfolding passed settle
resolve_from active resolved [] = resolved
resolve_from active resolved (s ∷ spans) =
    let active' = active + passed s.start (drop active resolved) in
    resolve_from active' (take active' resolved ++ settle s (drop active' resolved)) spans

unfoldable pub entity_of : CandidateSpan → ResolvedEntity
entity_of s = record {
  type = s.type;
  text = s.text;
  start = s.start;
  end = s.end;
  score = s.score;
  reason = s.reason;
}

unfoldable pub entity_first : ResolvedEntity → ResolvedEntity → Bool
entity_first a b = ltb_ℤ a.start b.start

unfoldable pub resolve : ℤ → List CandidateSpan → List ResolvedEntity
unfolding above_threshold span_first resolve_from entity_of entity_first
resolve min_score spans =
    sort entity_first
      (map entity_of (resolve_from 0 [] (sort span_first (above_threshold min_score spans))))
