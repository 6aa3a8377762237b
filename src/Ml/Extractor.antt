-- ===== src/Ml/Extractor.antt =====
-- internal/ml/extractor.go: the entities of the model as spans of bytes. The batcher is a
-- parameter; it refuses text that is not valid UTF-8, so offsets are counted in valid text only.
pub mod Types
pub mod Spans
use Types.{map_ml_type}
use alpha_proxy.Ml.Batch.{RequestItem}
use alpha_proxy.Ml.Chunker.{to_runes, byte_offsets, offset}
use alpha_proxy.Ml.Types.{MlEntity, ChunkResult}
use alpha_proxy.Pii.{Result, ok, err, invalid_ml_response, ◌>>=◌}
use alpha_proxy.Prelude.{
  ℕ, suc, Bytes, codes, List, [], ◌∷◌, ◌++◌, ◌||◌, none, some, length, bytes_eq, if◌then◌else◌,
}
use alpha_proxy.Prelude.Int.{pos, pos_part, ltb_ℤ, leb_ℤ}
use alpha_proxy.Rules.Spans.{ResolvedEntity}
use alpha_proxy.Tokenizer.Allocator.{format_decimal}
use alpha_proxy.Tokenizer.Span.{slice}

-- `buildByteOffsets`.
unfoldable pub build_byte_offsets : Bytes → List ℕ
unfolding to_runes byte_offsets
build_byte_offsets text = byte_offsets 0 (to_runes text)

-- One round of the loop over the entities.
unfoldable pub extract_one : Bytes → MlEntity → Result ResolvedEntity
unfolding map_ml_type build_byte_offsets offset
extract_one original me = elim (map_ml_type me.type) [
  | none ↦ err invalid_ml_response
  | some type ↦
      if ltb_ℤ me.start (pos 0)
        || ltb_ℤ (pos (length (to_runes original))) me.end
        || leb_ℤ me.end me.start
      then err invalid_ml_response
      else (let start_byte = offset (build_byte_offsets original) (pos_part me.start) in
          let end_byte = offset (build_byte_offsets original) (pos_part me.end) in
          ok (record {
            type = type;
            text = slice original start_byte end_byte;
            start = pos start_byte;
            end = pos end_byte;
            score = me.confidence;
            reason = codes "ml";
          }))
]

unfoldable pub extract_from : Bytes → List MlEntity → Result (List ResolvedEntity)
unfolding extract_one
extract_from original [] = ok []
extract_from original (me ∷ mes) = do
  en ← extract_one original me
  rest ← extract_from original mes
  ok (en ∷ rest)

-- `Detect`, with the counter of the chunk ids before and after.
unfoldable pub detect :
    (RequestItem → Result ChunkResult) → ℕ → Bytes → Bytes → ℕ × Result (List ResolvedEntity)
unfolding extract_from
detect process seq original gate =
    if bytes_eq original []
    then (seq, ok [])
    else (let item : RequestItem = record {
      chunk_id = codes "chunk-" ++ format_decimal (suc seq);
      text = original;
      gate_text = gate;
    } in
        (suc seq, process item >>= λ result. extract_from original result.entities))
