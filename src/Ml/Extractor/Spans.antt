-- ===== src/Ml/Extractor/Spans.antt =====
-- Entities that the client's tests let through, as spans of the text's bytes.
use alpha_proxy.Ml.Extractor.{extract_one}
use alpha_proxy.Ml.Types.{MlEntity}
use alpha_proxy.Pii.{ok}
use alpha_proxy.Prelude.{◌≤◌, ◌<◌, Bytes, ◌≡◌, length}
use alpha_proxy.Prelude.Int.{pos_part}
use alpha_proxy.Rules.Spans.{ResolvedEntity}
use alpha_proxy.Rules.Types.{EntityType}
use alpha_proxy.Tokenizer.Span.{slice_ℤ}

-- What an entity becomes.
pub record Extracted (original : Bytes) (me : MlEntity) (type : EntityType) : Type 0 where
  pub entity : ResolvedEntity
  pub runs : extract_one original me ≡ ok entity
  pub kind : entity.type ≡ type
  pub own_text : slice_ℤ original entity.start entity.end ≡ entity.text
  pub nonempty : pos_part entity.start < pos_part entity.end
  pub within : pos_part entity.end ≤ length original
