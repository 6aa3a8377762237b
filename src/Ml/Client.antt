-- ===== src/Ml/Client.antt =====
-- internal/ml/grpc_client.go: the request to the model server and the tests of its answer. The
-- generated client and its tables of names are parameters, and so is `utf8.RuneCountInString`. A
-- pointer that may be nil is an option. A confidence is a rank, or `none` for NaN; `top` is the rank
-- of 1.0.
pub mod Checked
use alpha_proxy.Ml.Batch.{RequestItem}
use alpha_proxy.Ml.Types.{
  BatchRequest, BatchResponse, ChunkResult, MlEntity, offsets_unicode_code_points,
}
use alpha_proxy.Pii.{
  Error, Result, ok, err, invalid_ml_response, unavailable, deadline_exceeded, guard, ◌>>=◌, ◌>>◌,
}
use alpha_proxy.Prelude.{
  ℕ, ◌+◌, ◌-◌, Bytes, codes, List, [], ◌∷◌, map, Bool, true, false, not, ◌&&◌, ◌||◌, Option, none,
  some, ◌⊎◌, inl, inr, length, drop, leb, ◌==◌, bytes_eq, has_prefix, if◌then◌else◌,
}
use alpha_proxy.Prelude.Dict.{lookup, insert}
use alpha_proxy.Prelude.Int.{ℤ, pos, ltb_ℤ, leb_ℤ, eqb_ℤ}
use alpha_proxy.Tokenizer.Priority.{one_of}

pub record GrpcChunk : Type 0 where
  pub chunk_id : Bytes
  pub original_text : Bytes
  pub gate_text : Bytes

pub record GrpcRequest : Type 0 where
  pub batch_id : Bytes
  pub offset_unit : ℤ
  pub chunks : List GrpcChunk

pub record GrpcEntity : Type 0 where
  pub type : ℤ
  pub start : ℤ
  pub end : ℤ
  pub confidence : Option ℤ

pub record GrpcResult : Type 0 where
  pub chunk_id : Bytes
  pub entities : List (Option GrpcEntity)
  pub error_code : ℤ

pub record GrpcResponse : Type 0 where
  pub batch_id : Bytes
  pub model_version : Bytes
  pub offset_unit : ℤ
  pub results : List (Option GrpcResult)

-- `OFFSET_UNIT_UNICODE_CODE_POINTS`; of each enumeration the value 0 is unspecified.
abbrev code_point_unit : ℤ
code_point_unit = pos 1

-- `CHUNK_ERROR_CODE_NONE`.
abbrev no_error : ℤ
no_error = pos 1

unfoldable pub to_offset_unit : Bytes → Result ℤ
to_offset_unit unit =
    if bytes_eq unit offsets_unicode_code_points
    then ok code_point_unit
    else err invalid_ml_response

-- What a failed call returns, by its status code.
pub data StatusCode : Type 0 where
  resource_exhausted code_unavailable code_deadline_exceeded code_other : StatusCode

unfoldable pub call_error : StatusCode → Error → Error
call_error resource_exhausted reason = unavailable
call_error code_unavailable reason = unavailable
call_error code_deadline_exceeded reason = deadline_exceeded
call_error code_other reason = reason

-- `strings.TrimPrefix`.
unfoldable pub trim_prefix : Bytes → Bytes → Bytes
trim_prefix s prefix = if has_prefix s prefix then drop (length prefix) s else s

-- `strings.ToLower`, of the names of the table, which are ASCII.
unfoldable pub to_lower : Bytes → Bytes
to_lower s = map (λ c. if leb b'A' c && leb c b'Z' then c + 32 else c) s

unfoldable pub all_seen : List Bytes → List RequestItem → Bool
all_seen seen [] = true
all_seen seen (item ∷ items) = one_of seen item.chunk_id && all_seen seen items

module _ (rune_count : Bytes → ℕ) where
  -- The length of the text of each chunk.
  unfoldable pub chunk_lens : List (Bytes × ℕ) → List RequestItem → List (Bytes × ℕ)
  chunk_lens m [] = m
  chunk_lens m (item ∷ items) = chunk_lens (insert item.chunk_id (rune_count item.text) m) items

module _ (rune_count : Bytes → ℕ) (type_name error_name : ℤ → Option Bytes) (top : ℤ) where
  unfoldable pub entity_of_grpc : ℕ → Option GrpcEntity → Result MlEntity
  unfolding trim_prefix to_lower
  entity_of_grpc len none = err invalid_ml_response
  entity_of_grpc len (some e) =
      if eqb_ℤ e.type (pos 0) then err invalid_ml_response else elim (type_name e.type) [
        | none ↦ err invalid_ml_response
        | some name ↦ elim e.confidence [
          | none ↦ err invalid_ml_response
          | some confidence ↦
              if ltb_ℤ confidence (pos 0) || ltb_ℤ top confidence
              then err invalid_ml_response
              else if ltb_ℤ e.start (pos 0) || leb_ℤ e.end e.start || ltb_ℤ (pos len) e.end
              then err invalid_ml_response
              else ok (record {
                type = to_lower (trim_prefix name (codes "ENTITY_TYPE_"));
                start = e.start;
                end = e.end;
                confidence = confidence;
              })
        ]
      ]

  unfoldable pub entities_of_grpc : ℕ → List (Option GrpcEntity) → Result (List MlEntity)
  unfolding entity_of_grpc
  entities_of_grpc len [] = ok []
  entities_of_grpc len (e ∷ es) = do
    first ← entity_of_grpc len e
    rest ← entities_of_grpc len es
    ok (first ∷ rest)

  -- The tests of a result behind those of its id.
  unfoldable pub result_of_grpc : ℕ → GrpcResult → Result ChunkResult
  unfolding entities_of_grpc trim_prefix
  result_of_grpc len r =
      if eqb_ℤ r.error_code (pos 0)
      then err invalid_ml_response
      else elim (error_name r.error_code) [
        | none ↦ err invalid_ml_response
        | some name ↦
            if not (eqb_ℤ r.error_code no_error)
            then (if not (length r.entities == 0)
                then err invalid_ml_response
                else ok (record {
                  chunk_id = r.chunk_id;
                  entities = [];
                  error_code = trim_prefix name (codes "CHUNK_ERROR_CODE_");
                }))
            else (entities_of_grpc len r.entities >>= λ es.
                ok (record { chunk_id = r.chunk_id; entities = es; error_code = [] }))
      ]

  -- The loop over the results, with the ids seen so far, which it returns too.
  unfoldable pub results_of_grpc :
      List (Bytes × ℕ)
      → List Bytes
      → List (Option GrpcResult)
      → Result (List Bytes × List ChunkResult)
  unfolding result_of_grpc
  results_of_grpc lens seen [] = ok (seen, [])
  results_of_grpc lens seen (none ∷ rs) = err invalid_ml_response
  results_of_grpc lens seen (some r ∷ rs) = do
    guard (not (one_of seen r.chunk_id)) invalid_ml_response
    first ← elim (lookup r.chunk_id lens) [
      | none ↦ err invalid_ml_response
      | some len ↦ result_of_grpc len r
    ]
    (seen', rest) ← results_of_grpc lens (r.chunk_id ∷ seen) rs
    ok (seen', first ∷ rest)

  unfoldable pub from_grpc_response : BatchRequest → Option GrpcResponse → Result BatchResponse
  unfolding results_of_grpc chunk_lens all_seen
  from_grpc_response req none = err invalid_ml_response
  from_grpc_response req (some resp) = do
    guard (bytes_eq resp.batch_id req.batch_id) invalid_ml_response
    guard (not (bytes_eq resp.model_version [])) invalid_ml_response
    guard (eqb_ℤ resp.offset_unit code_point_unit) invalid_ml_response
    guard (length resp.results == length req.items) invalid_ml_response
    (seen, results) ← results_of_grpc (chunk_lens rune_count [] req.items) [] resp.results
    guard (all_seen seen req.items) invalid_ml_response
    ok (record {
      batch_id = resp.batch_id;
      model_version = resp.model_version;
      offset_unit = offsets_unicode_code_points;
      results = results;
    })

  -- `ProcessBatchV2`; the call fails with a status code and an error.
  unfoldable pub process_batch_v2 :
      (GrpcRequest → (StatusCode × Error) ⊎ Option GrpcResponse)
      → BatchRequest
      → Result BatchResponse
  unfolding to_offset_unit call_error from_grpc_response
  process_batch_v2 call req = do
    unit ← to_offset_unit req.offset_unit
    let sent : GrpcRequest = record {
      batch_id = req.batch_id;
      offset_unit = unit;
      chunks =
          map
            (λ (item : RequestItem). record {
              chunk_id = item.chunk_id;
              original_text = item.text;
              gate_text = item.gate_text;
            })
            req.items;
    }
    elim (call sent) [
      | inl (code, reason) ↦ err (call_error code reason)
      | inr resp ↦ from_grpc_response req resp
    ]
