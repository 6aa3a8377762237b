-- ===== src/Tests/Pipeline.antt =====
-- Masking at a concrete input: in a text with an address and a name, the rules find the address and
-- the model finds the name, in the second of two chunks, which ends first.
use mathlib.Core.List.{Permᴰ}
use mathlib.Core.List.Permᴰ
use alpha_proxy.Masking.Cascade.{
  ChunkJob, chunk_jobs, mask, mask_entities, rule_entities_to_pii, chunk_entities,
}
use alpha_proxy.Masking.Cascade.Parallel.{Finds}
use alpha_proxy.Masking.Whole.{mask-any-order}
use alpha_proxy.Ml.Chunker.{ChunkConfig, TextChunk, split_text}
use alpha_proxy.Pii.{
  background, ok, Entity, Policy, Result, TokenMapping, kind_email, kind_full_name, source_ml,
  source_reg,
}
use alpha_proxy.Prelude.{
  ℕ, Bytes, codes, List, [], ◌∷◌, Bool, true, false, All, ◌≡◌, refl, sym, ap, bytes_eq, none, subst,
  if◌then◌else◌, ◌==◌, length, arith, inl, inr,
}
use alpha_proxy.Prelude.Int.{pos}
use alpha_proxy.Rules.Residual.{build}
use alpha_proxy.Rules.Spans.{ResolvedEntity}
use alpha_proxy.Rules.Types.{type_email, type_full_name}
use alpha_proxy.Tokenizer.Detokenizer.{detokenize}
use alpha_proxy.Tokenizer.Detokenizer.Tokens.{NoToken}
use alpha_proxy.Utf8.{valid_string}

abbrev pub text : Bytes
text = codes "a@b Al"

abbrev pub address : ResolvedEntity
address = record {
  type = type_email;
  text = codes "a@b";
  start = pos 0;
  end = pos 3;
  score = pos 9;
  reason = [];
}

-- The name in the second chunk, which begins with the blank.
abbrev pub name : ResolvedEntity
name = record {
  type = type_full_name;
  text = codes "Al";
  start = pos 1;
  end = pos 3;
  score = pos 8;
  reason = codes "ml";
}

abbrev pub engine : Bytes → List ResolvedEntity
engine t = address ∷ []

abbrev pub model : ℕ → Bytes → Bytes → Result (List ResolvedEntity)
model i original gate = if i == 1 then ok (name ∷ []) else ok []

abbrev pub found_address : Entity
found_address = record {
  kind = kind_email;
  start = pos 0;
  end = pos 3;
  confidence = pos 9;
  source = source_reg;
}

abbrev pub found_name : Entity
found_name = record {
  kind = kind_full_name;
  start = pos 4;
  end = pos 6;
  confidence = pos 8;
  source = source_ml;
}

abbrev pub found : ℕ → List Entity
found i = if i == 1 then found_name ∷ [] else []

abbrev pub cfg : ChunkConfig
cfg = record { target_code_points = pos 3; max_code_points = pos 4; overlap_code_points = pos 1 }

abbrev pub policy : Policy
policy = record {
  allowed_kinds = λ k. true;
  detokenization_allowed = true;
  min_confidence = pos 5;
  masking_strategy = [];
  allow_partial_result = false;
}

abbrev first_chunk : TextChunk
first_chunk = record {
  text = codes "a@b ";
  start_code_point = 0;
  end_code_point = 4;
  start_byte = 0;
  end_byte = 4;
}

abbrev pub second_chunk : TextChunk
second_chunk = record {
  text = codes " Al";
  start_code_point = 3;
  end_code_point = 6;
  start_byte = 3;
  end_byte = 6;
}

abbrev pub chunks : List TextChunk
chunks = first_chunk ∷ second_chunk ∷ []

-- The second job ends first.
abbrev pub schedule : List ChunkJob → List ChunkJob
schedule [] = []
schedule (a ∷ []) = a ∷ []
schedule (a ∷ b ∷ jobs) = b ∷ a ∷ jobs

pub permutes : (jobs : List ChunkJob) → Permᴰ jobs (schedule jobs)
permutes [] = Permᴰ.refl []
permutes (a ∷ []) = Permᴰ.refl (a ∷ [])
permutes (a ∷ b ∷ jobs) = Permᴰ.swap refl refl

pub valid : valid_string text ≡ true
unfolding valid_string alpha_proxy.Utf8.following
valid = refl

pub splits : split_text background text cfg ≡ ok (background, chunks)
unfolding split_text alpha_proxy.Prelude.bytes_eq valid_string alpha_proxy.Utf8.following
splits = refl

pub rules_find : rule_entities_to_pii text (engine text) ≡ ok (found_address ∷ [])
unfolding rule_entities_to_pii alpha_proxy.Prelude.bytes_eq valid_string alpha_proxy.Utf8.following
rules_find = refl

abbrev jobs : List ChunkJob
jobs =
    record { index = 0; chunk = first_chunk; original = codes "a@b "; gate = codes "    " }
    ∷ record { index = 1; chunk = second_chunk; original = codes " Al"; gate = codes " Al" }
    ∷ []

same_jobs : chunk_jobs text (build text (engine text)) 0 chunks ≡ jobs
unfolding chunk_jobs build
same_jobs = refl

jobs_find : All (Finds engine model found) jobs
unfolding alpha_proxy.Masking.Cascade.process_chunk alpha_proxy.Prelude.bytes_eq valid_string
    alpha_proxy.Utf8.following
jobs_find = (refl, (refl, tt))

pub chunk_jobs-Finds :
    All (Finds engine model found) (chunk_jobs text (build text (engine text)) 0 chunks)
chunk_jobs-Finds = subst (All (Finds engine model found)) (sym same_jobs) jobs_find

mask-any-order_example :
    (masked : Bytes) × (mappings : List TokenMapping) × (mask engine model cfg schedule background
        text policy
      ≡ ok (background, masked, mappings))
    × (mask engine model cfg (λ jobs'. jobs') background text policy
        ≡ ok (background, masked, mappings))
    × (NoToken text → detokenize background masked mappings ≡ ok (background, text))
mask-any-order_example =
    mask-any-order engine model found text cfg schedule policy chunks (found_address ∷ []) valid
      rules_find splits chunk_jobs-Finds permutes
