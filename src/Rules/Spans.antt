-- ===== src/Rules/Spans.antt =====
-- internal/entity/entity.go: what the recognizers find and what the engine returns. A score is a
-- rank, since the resolver only compares scores.
use alpha_proxy.Prelude.{ℕ, Bytes, codes, List, Bool, ◌&&◌, if◌then◌else◌}
use alpha_proxy.Prelude.Int.{ℤ}
use alpha_proxy.Tokenizer.Priority.{one_of}

-- `entity.Source`.
abbrev pub source_checksum : Bytes
source_checksum = codes "checksum"

abbrev pub source_dictionary : Bytes
source_dictionary = codes "dictionary"

abbrev pub source_context : Bytes
source_context = codes "context"

pub record CandidateSpan : Type 0 where
  pub type : Bytes
  pub text : Bytes
  pub start : ℤ
  pub end : ℤ
  pub score : ℤ
  pub sources : List Bytes
  pub reason : Bytes
  pub contextual : Bool

unfoldable pub evidence_strength : CandidateSpan → ℕ
evidence_strength c =
    let has_checksum = one_of c.sources source_checksum in
    let has_context = one_of c.sources source_context in
    let has_dict = one_of c.sources source_dictionary in
    if has_checksum && has_context
    then 5
    else if has_checksum
    then 4
    else if has_dict && has_context
    then 3
    else if has_dict
    then 2
    else if has_context
    then 2
    else 1

-- `entity.Entity`, the resolved entity.
pub record ResolvedEntity : Type 0 where
  pub type : Bytes
  pub text : Bytes
  pub start : ℤ
  pub end : ℤ
  pub score : ℤ
  pub reason : Bytes
