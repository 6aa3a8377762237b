-- ===== src/Rules/Engine.antt =====
-- internal/engine: `Detect` of the rule engine, and the second pass of `Analyze`, which raises the
-- score of a code near a card number. The recognizers and the context scorer are parameters, and so
-- is `utf8.RuneCountInString`. A score is a number of hundredths.
pub mod Kinds
pub mod Boost
use Kinds.{map_kind}
use alpha_proxy.Pii.{
  Ctx, Result, ok, err, other, invalid_span, ◌>>=◌, ctx_err, Entity, PiiKind, source_reg,
}
use alpha_proxy.Prelude.{
  ℕ, ◌+◌, Bytes, List, [], ◌∷◌, ◌++◌, map, Bool, true, false, not, ◌&&◌, ◌||◌, none, some, length,
  leb, bytes_eq, if◌then◌else◌,
}
use alpha_proxy.Prelude.Int.{ℤ, pos, ltb_ℤ, leb_ℤ, pos_part, neg_part, ◌-ℤ◌}
use alpha_proxy.Rules.Resolver.{resolve}
use alpha_proxy.Rules.Spans.{CandidateSpan, ResolvedEntity, source_context}
use alpha_proxy.Rules.Types.{type_card_number, type_cvv, type_pin}
use alpha_proxy.Tokenizer.Span.{slice_ℤ}

unfoldable pub check_rule_entity : Bytes → ResolvedEntity → Result PiiKind
unfolding map_kind
check_rule_entity text re = elim (map_kind re.type) [
  | none ↦ err other
  | some kind ↦
      if ltb_ℤ re.start (pos 0) || ltb_ℤ (pos (length text)) re.end || leb_ℤ re.end re.start
      then err invalid_span
      else if not (bytes_eq (slice_ℤ text re.start re.end) re.text)
      then err invalid_span
      else ok kind
]

unfoldable pub rule_entities : Bytes → List ResolvedEntity → Result (List Entity)
unfolding check_rule_entity
rule_entities text [] = ok []
rule_entities text (re ∷ res) = do
  kind ← check_rule_entity text re
  rest ← rule_entities text res
  ok (
      record {
        kind = kind;
        start = re.start;
        end = re.end;
        confidence = re.score;
        source = source_reg;
      }
      ∷ rest)

-- `Detect`.
unfoldable pub detect_by_rules :
    (Bytes → List ResolvedEntity) → Ctx → Bytes → Result (Ctx × List Entity)
unfolding rule_entities
detect_by_rules analyze ctx text = do
  ctx₁ ← ctx_err ctx
  ctx₂ ← ctx_err ctx₁
  result ← rule_entities text (analyze text)
  ok (ctx₂, result)

-- The card numbers among the spans.
unfoldable pub card_spans : List CandidateSpan → List CandidateSpan
card_spans [] = []
card_spans (s ∷ spans) =
    if bytes_eq s.type type_card_number && leb_ℤ (pos 50) s.score
    then s ∷ card_spans spans
    else card_spans spans

-- `out[i].Score += 0.4`, not above 1, and one source more.
unfoldable pub boost : CandidateSpan → CandidateSpan
unfolding ◌-ℤ◌
boost s =
    let raised = pos (pos_part s.score + 40) -ℤ pos (neg_part s.score) in
    record s {
      score = if ltb_ℤ (pos 100) raised then pos 100 else raised;
      sources = s.sources ++ source_context ∷ [];
    }

module _ (rune_count : Bytes → ℕ) where
  unfoldable pub spans_close_runes : Bytes → CandidateSpan → CandidateSpan → ℕ → Bool
  spans_close_runes text a b max_gap =
      if ltb_ℤ a.end b.start
      then leb (rune_count (slice_ℤ text a.end b.start)) max_gap
      else if ltb_ℤ b.end a.start
      then leb (rune_count (slice_ℤ text b.end a.start)) max_gap
      else true

  -- Some card number is close: the inner loop, which stops at the first.
  unfoldable pub near_card : Bytes → CandidateSpan → List CandidateSpan → Bool
  unfolding spans_close_runes
  near_card text s [] = false
  near_card text s (c ∷ cards) = spans_close_runes text s c 60 || near_card text s cards

  unfoldable pub boost_one : Bytes → List CandidateSpan → CandidateSpan → CandidateSpan
  unfolding near_card boost
  boost_one text cards s =
      if not (bytes_eq s.type type_cvv) && not (bytes_eq s.type type_pin)
      then s
      else if not s.contextual
      then s
      else if near_card text s cards
      then boost s
      else s

  unfoldable pub boost_near_card : Bytes → List CandidateSpan → List CandidateSpan
  unfolding card_spans boost_one
  boost_near_card text spans = elim (card_spans spans) [
    | [] ↦ spans
    | c ∷ cards ↦ map (boost_one text (c ∷ cards)) spans
  ]

  -- `Analyze`: the recognizers' spans, each scored by its context, raised near cards, and resolved.
  unfoldable pub analyze :
      (Bytes → List CandidateSpan)
      → (Bytes → CandidateSpan → CandidateSpan × Bool)
      → ℤ
      → Bytes
      → List ResolvedEntity
  unfolding boost_near_card
  analyze recognize score min_score text = resolve min_score (
      boost_near_card text
        (map (λ s. record (score text s).0 { contextual = (score text s).1 }) (recognize text)))
