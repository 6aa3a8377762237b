-- ===== src/Masking/Cascade.antt =====
-- internal/masking/cascade.go and internal/cascade/cascade.go: the rules on the whole text, the
-- model on its chunks by parallel workers, and the plans of both combined. The rule engine is a
-- parameter, and so is what the model returns for a chunk: `detect` takes the chunk's index too,
-- as the call may depend on when it is made.
pub mod Parallel
pub mod Checks
use alpha_proxy.Masking.Kinds.{map_entity_type}
use alpha_proxy.Ml.Chunker.{ChunkConfig, TextChunk, split_text}
use alpha_proxy.Pii.{
  Ctx, Error, Result, ok, err, other, invalid_span, context_done, ◌>>=◌, ◌>>◌, guard, ctx_err,
  Entity, Policy, TokenMapping, PiiKind, Source, source_ml, source_reg,
}
use alpha_proxy.Prelude.{
  ℕ, zero, suc, ◌+◌, Bytes, List, [], ◌∷◌, ◌++◌, Bool, true, false, not, ◌||◌, Option, none, some,
  length, bytes_eq, ltb, ◌==◌, if◌then◌else◌,
}
use alpha_proxy.Prelude.Int.{ℤ, pos, pos_part, neg_part, ltb_ℤ, leb_ℤ, ◌-ℤ◌}
use alpha_proxy.Rules.Residual.{build}
use alpha_proxy.Rules.Spans.{ResolvedEntity}
use alpha_proxy.Tokenizer.Apply.{apply_replacements}
use alpha_proxy.Tokenizer.Merge.{combine_plans}
use alpha_proxy.Tokenizer.Plan.{build_replacement_plan}
use alpha_proxy.Tokenizer.Span.{slice, slice_ℤ}
use alpha_proxy.Utf8.{valid_string}

-- The tests of an entity against its text, and its kind.
unfoldable pub check_entity : Bytes → ResolvedEntity → Result PiiKind
unfolding map_entity_type
check_entity text en = elim (map_entity_type en.type) [
  | none ↦ err other
  | some kind ↦
      if ltb_ℤ en.start (pos 0) || ltb_ℤ (pos (length text)) en.end || leb_ℤ en.end en.start
      then err invalid_span
      else if not (valid_string (slice_ℤ text en.start en.end))
      then err invalid_span
      else if not (bytes_eq (slice_ℤ text en.start en.end) en.text)
      then err invalid_span
      else ok kind
]

-- `ruleEntitiesToPII`.
unfoldable pub rule_entities_to_pii : Bytes → List ResolvedEntity → Result (List Entity)
unfolding check_entity
rule_entities_to_pii text [] = ok []
rule_entities_to_pii text (en ∷ entities) = do
  kind ← check_entity text en
  rest ← rule_entities_to_pii text entities
  ok (
      record {
        kind = kind;
        start = en.start;
        end = en.end;
        confidence = en.score;
        source = source_reg;
      }
      ∷ rest)

pub record ChunkJob : Type 0 where
  pub index : ℕ
  pub chunk : TextChunk
  pub original : Bytes
  pub gate : Bytes

-- The jobs that the send loop makes, in their order.
unfoldable pub chunk_jobs : Bytes → Bytes → ℕ → List TextChunk → List ChunkJob
chunk_jobs text residual i [] = []
chunk_jobs text residual i (chunk ∷ chunks) =
    record {
      index = i;
      chunk = chunk;
      original = slice text chunk.start_byte chunk.end_byte;
      gate = slice residual chunk.start_byte chunk.end_byte;
    }
    ∷ chunk_jobs text residual (suc i) chunks

-- `job.chunk.StartByte + x`.
unfoldable pub shift : ℕ → ℤ → ℤ
unfolding ◌-ℤ◌
shift n x = pos (n + pos_part x) -ℤ pos (neg_part x)

-- The loop of `processChunk`.
unfoldable pub chunk_entities : ChunkJob → List ResolvedEntity → Result (List Entity)
unfolding check_entity shift
chunk_entities job [] = ok []
chunk_entities job (en ∷ entities) = do
  kind ← check_entity job.original en
  rest ← chunk_entities job entities
  ok (
      record {
        kind = kind;
        start = shift job.chunk.start_byte en.start;
        end = shift job.chunk.start_byte en.end;
        confidence = en.score;
        source = source_ml;
      }
      ∷ rest)

-- `AnalyzeRules` of the cascade: the entities of the rules, and the residual text.
unfoldable pub analyze_rules : (Bytes → List ResolvedEntity) → Bytes → List ResolvedEntity × Bytes
unfolding build
analyze_rules engine text = let entities = engine text in (entities, build text entities)

-- `DetectChunk` of the cascade, which fails where there is no extractor.
unfoldable pub detect_chunk :
    Option (Bytes → Bytes → Result (List ResolvedEntity))
    → Ctx
    → Bytes
    → Bytes
    → Result (List ResolvedEntity)
detect_chunk expensive ctx original gate = do
  _ ← ctx_err ctx
  elim expensive [ none ↦ err other | some detect ↦ detect original gate ]

-- `results` and `firstErr`, which the workers share.
pub record Progress : Type 0 where
  pub results : ℕ → List Entity
  pub first_err : Option Error
  pub finished : ℕ

unfoldable pub no_progress : Progress
no_progress = record { results = λ _. []; first_err = none; finished = 0 }

-- `for _, r := range results { mlEntities = append(mlEntities, r...) }`
unfoldable pub gather : (ℕ → List Entity) → ℕ → ℕ → List Entity
gather results i zero = []
gather results i (suc count) = results i ++ gather results (suc i) count

-- The plans of both kinds of entities combined, and applied: the last part of `Mask`.
unfoldable pub mask_entities :
    Ctx → Bytes → Policy → List Entity → List Entity → Result (Ctx × Bytes × List TokenMapping)
mask_entities ctx text policy ml_entities backend_entities = do
  (ctx₁, ml_plan) ← build_replacement_plan ctx text ml_entities policy
  (ctx₂, backend_plan) ← build_replacement_plan ctx₁ text backend_entities policy
  (ctx₃, combined) ← combine_plans ctx₂ text ml_plan backend_plan policy
  apply_replacements ctx₃ text combined

module _ (engine : Bytes → List ResolvedEntity)
    (detect : ℕ → Bytes → Bytes → Result (List ResolvedEntity)) where
  unfoldable pub process_chunk : ChunkJob → Result (List Entity)
  unfolding chunk_entities
  process_chunk job =
      detect job.index job.original job.gate >>= λ entities. chunk_entities job entities

  -- A worker ends a job.
  unfoldable pub finish_job : Progress → ChunkJob → Progress
  unfolding process_chunk
  finish_job p job = elim (process_chunk job) [
    | err e ↦ record p { first_err = elim p.first_err [ none ↦ some e | some first ↦ some first ] }
    | ok entities ↦ record p {
      results = λ i. if i == job.index then entities else p.results i;
      finished = suc p.finished;
    }
  ]

  unfoldable pub run_jobs : Progress → List ChunkJob → Progress
  unfolding finish_job
  run_jobs p [] = p
  run_jobs p (job ∷ order) = run_jobs (finish_job p job) order

  -- The workers, where `order` is the order in which they end the jobs. The send loop leaves jobs
  -- out only where a job failed or the context is done.
  unfoldable pub detect_all : Ctx → List ChunkJob → List ChunkJob → Result (Ctx × List Entity)
  unfolding run_jobs gather no_progress
  detect_all ctx jobs order =
      let p = run_jobs no_progress order in
      elim p.first_err [
        | some e ↦ err e
        | none ↦
            if ltb p.finished (length jobs)
            then err context_done
            else (do ctx' ← ctx_err ctx; ok (ctx', gather p.results 0 (length jobs)))
      ]

  -- `Mask`; the schedule says in which order the workers end the jobs.
  unfoldable pub mask :
      ChunkConfig
      → (List ChunkJob → List ChunkJob)
      → Ctx
      → Bytes
      → Policy
      → Result (Ctx × Bytes × List TokenMapping)
  unfolding analyze_rules rule_entities_to_pii chunk_jobs detect_all mask_entities
  mask cfg schedule ctx text policy = do
    ctx₁ ← ctx_err ctx
    let (rule_entities, residual) = analyze_rules engine text
    backend_entities ← rule_entities_to_pii text rule_entities
    (ctx₂, chunks) ← split_text ctx₁ text cfg
    let jobs = chunk_jobs text residual 0 chunks
    (ctx₃, ml_entities) ←
        (if length chunks == 0 then ok (ctx₂, []) else detect_all ctx₂ jobs (schedule jobs))
    mask_entities ctx₃ text policy ml_entities backend_entities
