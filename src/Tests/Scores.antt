-- ===== src/Tests/Scores.antt =====
-- The normalized view of a text, and the scores near a card number.
use alpha_proxy.Prelude.{
  ◌≤◌, refl, ◌<◌, Bytes, codes, [], ◌∷◌, Bool, true, false, ◌≡◌, arith, length, bytes_eq,
}
use alpha_proxy.Prelude.Int.{pos}
use alpha_proxy.Rules.Engine.{boost_near_card}
use alpha_proxy.Rules.Engine.Boost.{AllRaised, boost_near_card-AllRaised}
use alpha_proxy.Rules.Normalize.{new_text, map_span, original_to_norm, text_len, search_offset}
use alpha_proxy.Rules.Normalize.Search.{IsFirst, search_offset-IsFirst}
use alpha_proxy.Rules.Normalize.Spans.{map_span-IsSpan}
use alpha_proxy.Rules.Spans.{CandidateSpan}
use alpha_proxy.Rules.Types.{type_card_number, type_cvv}

-- Two blanks, which become one.
abbrev is_blank : Bytes → Bool
is_blank r = bytes_eq r (b' ' ∷ [])

abbrev blanks : Bytes
blanks = codes "a  b"

long_enough : 3 ≤ text_len (new_text is_blank (λ r. r) blanks)
unfolding text_len new_text bytes_eq
long_enough = omega arith

map_span-IsSpan_example :
    let t = new_text is_blank (λ r. r) blanks in
    let span = map_span t (pos 1) (pos 3) in
    (span.0 < span.1) × (span.1 ≤ length blanks) × (original_to_norm t (pos span.0) ≡ 1)
unfolding alpha_proxy.Utf8.valid_string alpha_proxy.Utf8.following
map_span-IsSpan_example =
    map_span-IsSpan is_blank (λ r. r) blanks 1 3 refl (omega arith) long_enough

search_offset-IsFirst_example :
    IsFirst (0 ∷ 1 ∷ 3 ∷ []) (pos 2) (search_offset (0 ∷ 1 ∷ 3 ∷ []) (pos 2) 3 0 3)
unfolding alpha_proxy.Rules.Normalize.Search.Rising
search_offset-IsFirst_example =
    search_offset-IsFirst (0 ∷ 1 ∷ 3 ∷ []) (pos 2) 3 0 3 0
      (omega arith, (omega arith, (omega arith, tt))) (omega arith) (omega arith) (omega arith)
      (λ i l. absurd (omega (arith, l))) (λ i l u. absurd (omega (arith, l, u)))

abbrev card : CandidateSpan
card = record {
  type = type_card_number;
  text = codes "4111";
  start = pos 0;
  end = pos 4;
  score = pos 80;
  sources = [];
  reason = [];
  contextual = false;
}

abbrev code : CandidateSpan
code = record {
  type = type_cvv;
  text = codes "123";
  start = pos 5;
  end = pos 8;
  score = pos 70;
  sources = [];
  reason = [];
  contextual = true;
}

boost_near_card-AllRaised_example :
    AllRaised (card ∷ code ∷ []) (boost_near_card length (codes "4111 123") (card ∷ code ∷ []))
boost_near_card-AllRaised_example =
    boost_near_card-AllRaised length (codes "4111 123") (card ∷ code ∷ [])
      (omega arith, (omega arith, tt))
