-- ===== src/Ml/Types.antt =====
-- internal/ml/types.go: what is sent to the model and what comes back. A confidence is a rank.
use alpha_proxy.Ml.Batch.{RequestItem}
use alpha_proxy.Prelude.{Bytes, codes, List}
use alpha_proxy.Prelude.Int.{ℤ}

abbrev pub offsets_unicode_code_points : Bytes
offsets_unicode_code_points = codes "unicode_code_points"

pub record BatchRequest : Type 0 where
  pub batch_id : Bytes
  pub offset_unit : Bytes
  pub items : List RequestItem

pub record MlEntity : Type 0 where
  pub type : Bytes
  pub start : ℤ
  pub end : ℤ
  pub confidence : ℤ

pub record ChunkResult : Type 0 where
  pub chunk_id : Bytes
  pub entities : List MlEntity
  pub error_code : Bytes

pub record BatchResponse : Type 0 where
  pub batch_id : Bytes
  pub model_version : Bytes
  pub offset_unit : Bytes
  pub results : List ChunkResult
