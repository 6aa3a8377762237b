-- ===== src/Tests/Splitting.antt =====
-- The chunks of a text, a batch of items, the spans of the rules, and a card number.
use alpha_proxy.Pii.{background, ok, err, panicked}
use alpha_proxy.Prelude.{
  ℕ, Bytes, codes, List, [], ◌∷◌, ◌++◌, true, false, ◌≡◌, ◌<◌, refl, arith, length, bytes_eq,
}
use alpha_proxy.Prelude.Int.{pos, ◌≤ℤ◌}
use alpha_proxy.Ml.Chunker.{ChunkConfig, TextChunk, validate, split_text, to_runes}
use alpha_proxy.Ml.Chunker.Bounds.{Covering, split_text-Covering}
use alpha_proxy.Ml.Batch.{RequestItem, BatchConfig, take_batch}
use alpha_proxy.Ml.Batch.Limits.{code_points, take_batch-Fits}
use alpha_proxy.Rules.Checksum.{luhn}
use alpha_proxy.Rules.Checksum.Luhn.{luhn_one_byte}
use alpha_proxy.Rules.Spans.{CandidateSpan, source_context}
use alpha_proxy.Rules.Resolver.{resolve, resolve_from}
use alpha_proxy.Rules.Resolver.Pointer.{settle_all, resolve_from-eq-settle_all}
use alpha_proxy.Rules.Resolver.Disjoint.{NoOverlap, resolve-NoOverlap}

abbrev short_chunks : ChunkConfig
short_chunks = record {
  target_code_points = pos 3;
  max_code_points = pos 4;
  overlap_code_points = pos 1;
}

split_text-Covering_example :
    (chunks : List TextChunk) × (split_text background (codes "ab. cdefgh") short_chunks
      ≡ ok (background, chunks))
    × Covering 4 (length (to_runes (codes "ab. cdefgh"))) 0 chunks
unfolding validate bytes_eq alpha_proxy.Utf8.valid_string alpha_proxy.Utf8.following to_runes
split_text-Covering_example =
    split_text-Covering (codes "ab. cdefgh") short_chunks refl refl refl (omega arith)

-- A sum that wraps around: `validate` accepts the configuration, and the second chunk has no end.
abbrev huge_chunks : ChunkConfig
huge_chunks = record {
  target_code_points = pos 1;
  max_code_points = pos 9223372036854775807;
  overlap_code_points = pos 0;
}

panics :
    (validate huge_chunks ≡ ok tt)
    × (split_text background (b'a' ∷ b'\n' ∷ codes "bcd") huge_chunks ≡ err panicked)
unfolding validate split_text bytes_eq alpha_proxy.Utf8.valid_string alpha_proxy.Utf8.following
panics = (refl, refl)

abbrev candidate : ℕ → ℕ → ℕ → CandidateSpan
candidate start end score = record {
  type = codes "INN";
  text = [];
  start = pos start;
  end = pos end;
  score = pos score;
  sources = source_context ∷ [];
  reason = [];
  contextual = true;
}

resolve-NoOverlap_example :
    NoOverlap (resolve (pos 1) (candidate 4 9 2 ∷ candidate 0 5 3 ∷ candidate 8 12 4 ∷ []))
resolve-NoOverlap_example =
    resolve-NoOverlap (pos 1) (candidate 4 9 2 ∷ candidate 0 5 3 ∷ candidate 8 12 4 ∷ [])
      (omega arith, (omega arith, (omega arith, tt)))

resolve_from-eq-settle_all_example :
    resolve_from 1 (candidate 0 2 1 ∷ candidate 2 5 1 ∷ []) (candidate 4 6 2 ∷ candidate 7 8 1 ∷ [])
    ≡ settle_all (candidate 0 2 1 ∷ candidate 2 5 1 ∷ []) (candidate 4 6 2 ∷ candidate 7 8 1 ∷ [])
resolve_from-eq-settle_all_example =
    resolve_from-eq-settle_all 1 (pos 3) (candidate 0 2 1 ∷ candidate 2 5 1 ∷ [])
      (candidate 4 6 2 ∷ candidate 7 8 1 ∷ []) (omega arith) (omega arith, tt)
      (omega arith, (omega arith, tt))

abbrev small_batches : BatchConfig
small_batches = record {
  max_items = pos 2;
  max_code_points = pos 5;
  max_wait = pos 1;
  queue_capacity = pos 1;
  workers = pos 1;
  rpc_timeout = pos 1;
}

abbrev item : Bytes → RequestItem
item text = record { chunk_id = codes "c"; text = text; gate_text = [] }

takes :
    take_batch length background (item (codes "abc") ∷ item (codes "def") ∷ []) small_batches
    ≡ ok (background, item (codes "abc") ∷ [], item (codes "def") ∷ [])
unfolding take_batch
takes = refl

take_batch-Fits_example :
    (item (codes "abc") ∷ item (codes "def") ∷ [] ≡ item (codes "abc") ∷ item (codes "def") ∷ [])
    × (pos 1 ≤ℤ pos 2)
    × (pos (code_points length (item (codes "abc") ∷ [])) ≤ℤ pos 5)
    × (0 < 2 → 0 < 1)
take_batch-Fits_example =
    take_batch-Fits length background (item (codes "abc") ∷ item (codes "def") ∷ []) small_batches
      takes

card_number : luhn (codes "799273987" ++ b'1' ∷ codes "3") ≡ true
unfolding luhn alpha_proxy.Rules.Checksum.atoi
card_number = refl

luhn_one_byte_example : luhn (codes "799273987" ++ b'2' ∷ codes "3") ≡ false
luhn_one_byte_example =
    luhn_one_byte (codes "799273987") (codes "3") b'1' b'2' card_number (λ e. ground arith)
