-- ===== src/Tests/Service.antt =====
-- The model's service at concrete inputs.
use mathlib.Core.List.{Permᴰ}
use alpha_proxy.Ml.Batch.{BatchConfig}
use alpha_proxy.Ml.Batcher.{process_batch, batch_id_of, items_from}
use alpha_proxy.Ml.Batcher.Own.{process_batch-own, own_result, result_of}
use alpha_proxy.Ml.Client.{GrpcResponse}
use alpha_proxy.Ml.Collector.{Wake, job_ready, timer_fired, batch_of, next_batch}
use alpha_proxy.Ml.Collector.Order.{Fifo, with_pending, next_batch-Fifo}
use alpha_proxy.Ml.Queue.{BatchJob}
use alpha_proxy.Ml.Types.{
  BatchRequest, BatchResponse, ChunkResult, MlEntity, offsets_unicode_code_points,
}
use alpha_proxy.Pii.{ok, context_done}
use alpha_proxy.Prelude.{
  ℕ, ◌+◌, ◌*◌, ◌≤◌, ◌<◌, Bytes, codes, List, [], ◌∷◌, map, Bool, false, Option, none, some, ◌≡◌,
  refl, arith, length, if◌then◌else◌,
}
use alpha_proxy.Prelude.Int.{ℤ, pos}

-- Two callers chose the same chunk id.
abbrev first_job : BatchJob
first_job = record {
  id = 1;
  item = record { chunk_id = codes "chunk-1"; text = codes "Al"; gate_text = codes "Al" };
}

abbrev second_job : BatchJob
second_job = record {
  id = 2;
  item = record { chunk_id = codes "chunk-1"; text = codes "to Bo"; gate_text = codes "to Bo" };
}

-- The model takes the whole text for a name.
abbrev whole_name : Bytes → MlEntity
whole_name text = record {
  type = codes "full_name";
  start = pos 0;
  end = pos (length text);
  confidence = pos 8;
}

abbrev reply : Bytes → Bytes → List MlEntity
reply text gate = whole_name text ∷ []

abbrev first_result : ChunkResult
first_result = record {
  chunk_id = codes "batch-1-0";
  entities = whole_name (codes "Al") ∷ [];
  error_code = [];
}

abbrev second_result : ChunkResult
second_result = record {
  chunk_id = codes "batch-1-1";
  entities = whole_name (codes "to Bo") ∷ [];
  error_code = [];
}

abbrev swapped : BatchResponse
swapped = record {
  batch_id = codes "batch-1";
  model_version = codes "v1";
  offset_unit = offsets_unicode_code_points;
  results = second_result ∷ first_result ∷ [];
}

same_results :
    map (result_of reply) (items_from (batch_id_of 1) 0 (first_job ∷ second_job ∷ []))
    ≡ first_result ∷ second_result ∷ []
unfolding items_from result_of batch_id_of alpha_proxy.Tokenizer.Allocator.format_decimal
same_results = refl

results_swapped :
    Permᴰ
      (map (result_of reply) (items_from (batch_id_of 1) 0 (first_job ∷ second_job ∷ [])))
      swapped.results
results_swapped = rw same_results (Permᴰ.swap refl refl)

process_batch-own_example :
    process_batch (λ req. ok swapped) 0 (first_job ∷ second_job ∷ [])
    ≡ (1, own_result reply first_job ∷ own_result reply second_job ∷ [])
process_batch-own_example =
    process_batch-own reply (λ req. ok swapped) 0 (first_job ∷ second_job ∷ []) swapped refl
      results_swapped

-- At most two jobs and five characters.
abbrev limits : BatchConfig
limits = record {
  max_items = pos 2;
  max_code_points = pos 5;
  max_wait = pos 1;
  queue_capacity = pos 4;
  workers = pos 1;
  rpc_timeout = pos 1;
}

abbrev ended_job : BatchJob
ended_job = record {
  id = 3;
  item = record { chunk_id = codes "chunk-2"; text = codes "x"; gate_text = codes "x" };
}

-- A job whose caller is gone, a job that fits, and a job that does not fit behind it.
abbrev events : List Wake
events =
    job_ready (record { job = ended_job; cause = some context_done })
    ∷ job_ready (record { job = first_job; cause = none })
    ∷ job_ready (record { job = second_job; cause = none })
    ∷ timer_fired
    ∷ []

collects : (next_batch length limits false none events).taken ≡ batch_of (first_job ∷ [])
unfolding next_batch
collects = refl

next_batch-Fifo_example :
    Fifo length limits [] []
      (with_pending length limits none events)
      (next_batch length limits false none events)
      (first_job ∷ [])
next_batch-Fifo_example =
    next_batch-Fifo length limits none events (first_job ∷ []) (omega arith) collects

abbrev request : BatchRequest
request = record {
  batch_id = codes "batch-1";
  offset_unit = offsets_unicode_code_points;
  items = record { chunk_id = codes "batch-1-0"; text = codes "Al"; gate_text = codes "Al" } ∷ [];
}

abbrev response : GrpcResponse
response = record {
  batch_id = codes "batch-1";
  model_version = codes "v1";
  offset_unit = pos 1;
  results =
      some (record {
        chunk_id = codes "batch-1-0";
        entities =
            some (record { type = pos 1; start = pos 0; end = pos 2; confidence = some (pos 8) })
            ∷ [];
        error_code = pos 1;
      })
      ∷ [];
}

abbrev type_name : ℤ → Option Bytes
type_name n = some (codes "ENTITY_TYPE_FULL_NAME")

abbrev error_name : ℤ → Option Bytes
error_name n = some (codes "CHUNK_ERROR_CODE_NONE")

abbrev checked : BatchResponse
checked = record {
  batch_id = codes "batch-1";
  model_version = codes "v1";
  offset_unit = offsets_unicode_code_points;
  results = first_result ∷ [];
}
