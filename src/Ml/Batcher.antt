-- ===== src/Ml/Batcher.antt =====
-- internal/ml/batcher.go: the entry of a caller, and the batch that a worker sends to the model. The
-- client is a parameter, and so is whether the batcher is closed.
pub mod Own
use alpha_proxy.Ml.Batch.{RequestItem}
use alpha_proxy.Ml.Queue.{BatchJob, ItemQueue, enqueue}
use alpha_proxy.Ml.Types.{BatchRequest, BatchResponse, ChunkResult, offsets_unicode_code_points}
use alpha_proxy.Pii.{Ctx, Result, ok, err, other, detector_unavailable, ctx_err, ◌>>=◌}
use alpha_proxy.Prelude.{
  ℕ, suc, Bytes, codes, List, [], ◌∷◌, ◌++◌, map, Bool, true, false, not, none, some, bytes_eq,
  if◌then◌else◌,
}
use alpha_proxy.Prelude.Dict.{lookup, insert}
use alpha_proxy.Tokenizer.Allocator.{format_decimal}
use alpha_proxy.Utf8.{valid_string}

-- `Process` up to the wait for the result.
unfoldable pub submit : Bool → Ctx → BatchJob → ItemQueue → Result (Ctx × ItemQueue)
unfolding enqueue
submit closed ctx job q = do
  ctx' ← ctx_err ctx
  (if closed
      then err detector_unavailable
      else if bytes_eq job.item.chunk_id []
      then err other
      else if not (valid_string job.item.text)
      then err other
      else enqueue ctx' job q)

-- The n-th batch has the id `batch-n`.
unfoldable pub batch_id_of : ℕ → Bytes
batch_id_of n = codes "batch-" ++ format_decimal n

unfoldable pub transport_id : Bytes → ℕ → Bytes
transport_id batch_id i = batch_id ++ b'-' ∷ format_decimal i

unfoldable pub items_from : Bytes → ℕ → List BatchJob → List RequestItem
unfolding transport_id
items_from batch_id i [] = []
items_from batch_id i (job ∷ batch) =
    record {
      chunk_id = transport_id batch_id i;
      text = job.item.text;
      gate_text = job.item.gate_text;
    }
    ∷ items_from batch_id (suc i) batch

unfoldable pub request_of : Bytes → List BatchJob → BatchRequest
unfolding items_from
request_of batch_id batch = record {
  batch_id = batch_id;
  offset_unit = offsets_unicode_code_points;
  items = items_from batch_id 0 batch;
}

-- `byChunk`, of which a later result overwrites an earlier one.
unfoldable pub by_chunk : List (Bytes × ChunkResult) → List ChunkResult → List (Bytes × ChunkResult)
by_chunk m [] = m
by_chunk m (r ∷ results) = by_chunk (insert r.chunk_id r m) results

-- What a job is sent.
unfoldable pub answer_job : List (Bytes × ChunkResult) → Bytes → BatchJob → Result ChunkResult
answer_job found id job = elim (lookup id found) [
  | none ↦ err detector_unavailable
  | some r ↦
      if not (bytes_eq r.error_code [])
      then err detector_unavailable
      else ok (record r { chunk_id = job.item.chunk_id })
]

unfoldable pub answers_from :
    List (Bytes × ChunkResult) → Bytes → ℕ → List BatchJob → List (Result ChunkResult)
unfolding answer_job transport_id
answers_from found batch_id i [] = []
answers_from found batch_id i (job ∷ batch) =
    answer_job found (transport_id batch_id i) job ∷ answers_from found batch_id (suc i) batch

-- `processBatch`: the counter behind it, and what each job of the batch is sent, in their order.
unfoldable pub process_batch :
    (BatchRequest → Result BatchResponse) → ℕ → List BatchJob → ℕ × List (Result ChunkResult)
unfolding request_of by_chunk answers_from batch_id_of
process_batch client seq batch =
    let batch_id = batch_id_of (suc seq) in
    (
      suc seq,
      elim (client (request_of batch_id batch)) [
        | err e ↦ map (λ job. err e) batch
        | ok resp ↦ answers_from (by_chunk [] resp.results) batch_id 0 batch
      ],
    )
