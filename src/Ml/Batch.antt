-- ===== src/Ml/Batch.antt =====
-- internal/ml/batch.go: the batch that is taken from the front of the waiting items. How many code
-- points a text has is `utf8.RuneCountInString`, a parameter. A duration is in nanoseconds.
pub mod Limits
use alpha_proxy.Pii.{Ctx, Result, ok, err, other, payload_too_large, ctx_err, guard, ◌>>=◌, ◌>>◌}
use alpha_proxy.Prelude.{
  ℕ, suc, ◌+◌, Bytes, List, [], ◌∷◌, Bool, true, false, not, ◌&&◌, ◌||◌, length, drop,
  if◌then◌else◌,
}
use alpha_proxy.Prelude.Int.{ℤ, pos, ltb_ℤ, leb_ℤ}

pub record RequestItem : Type 0 where
  pub chunk_id : Bytes
  pub text : Bytes
  pub gate_text : Bytes

pub record BatchConfig : Type 0 where
  pub max_items : ℤ
  pub max_code_points : ℤ
  pub max_wait : ℤ
  pub queue_capacity : ℤ
  pub workers : ℤ
  pub rpc_timeout : ℤ

unfoldable pub default_batch_config : BatchConfig
default_batch_config = record {
  max_items = pos 32;
  max_code_points = pos 11200;
  max_wait = pos 5000000;
  queue_capacity = pos 1024;
  workers = pos 4;
  rpc_timeout = pos 2000000000;
}

unfoldable pub validate_batch_config : BatchConfig → Result (Unit {0})
validate_batch_config c =
    if leb_ℤ c.max_items (pos 0)
    then err other
    else if leb_ℤ c.max_code_points (pos 0)
    then err other
    else if leb_ℤ c.max_wait (pos 0)
    then err other
    else if leb_ℤ c.queue_capacity (pos 0)
    then err other
    else if leb_ℤ c.workers (pos 0)
    then err other
    else if leb_ℤ c.rpc_timeout (pos 0)
    then err other
    else ok tt

module _ (rune_count : Bytes → ℕ) where
  -- The loop of `TakeBatch`: whether the item is the first, `len(selected)` and `total`.
  unfoldable pub take_from :
      BatchConfig → Bool → ℕ → ℕ → Ctx → List RequestItem → Result (Ctx × List RequestItem)
  take_from cfg first count total ctx [] = ok (ctx, [])
  take_from cfg first count total ctx (item ∷ items) = do
    ctx' ← ctx_err ctx
    guard (not (first && ltb_ℤ cfg.max_code_points (pos (rune_count item.text)))) payload_too_large
    let is_full =
        leb_ℤ cfg.max_items (pos count)
        || ltb_ℤ cfg.max_code_points (pos (total + rune_count item.text))
    let rest = take_from cfg false (suc count) (total + rune_count item.text) ctx' items
    if is_full then ok (ctx', []) else (rest >>= λ r. ok (r.0, item ∷ r.1))

  unfoldable pub take_batch :
      Ctx → List RequestItem → BatchConfig → Result (Ctx × List RequestItem × List RequestItem)
  unfolding take_from validate_batch_config
  take_batch ctx [] cfg = do validate_batch_config cfg; ok (ctx, [], [])
  take_batch ctx (item ∷ items) cfg = do
    validate_batch_config cfg
    (ctx', selected) ← take_from cfg true 0 0 ctx (item ∷ items)
    ok (ctx', selected, drop (length selected) (item ∷ items))
