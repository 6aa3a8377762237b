-- ===== src/Ml/Chunker/Bounds.antt =====
-- Where the chunks of a text begin and end, where no sum of `int` wraps around.
use alpha_proxy.Ml.Chunker.Ends.{IsConfig, validate-IsConfig, IsEnd, find_chunk_end-IsEnd}
use alpha_proxy.Ml.Chunker.{
  ChunkConfig, TextChunk, validate, find_chunk_end, next_start, chunk_of, split_from, split_text,
  to_runes, byte_offsets, join_rune,
}
use alpha_proxy.Pii.{background, ok}
use alpha_proxy.Prelude.{
  ℕ, zero, suc, ◌+◌, ◌^◌, ◌≤◌, ◌<◌, Bytes, List, [], ◌∷◌, Bool, true, false, ◌≡◌, inl, inr, refl,
  arith, length, leb, bytes_eq, Bool-cases,
}
use alpha_proxy.Prelude.Int.{pos_part}
use alpha_proxy.Utf8.{valid_string}

next_start-advances :
    (cfg : ChunkConfig) (len start : ℕ) (found : ℕ × Bool)
    → IsConfig cfg
    → IsEnd cfg len start found
    → found.0 < len
    → (start < next_start cfg found) × (next_start cfg found ≤ found.0)
unfolding next_start
next_start-advances cfg len start (end, true) c e h = (e.behind, omega arith)
next_start-advances cfg len start (end, false) c e h =
    let at_limit = e.cut refl h in let c₃ = c.overlap in (omega (arith, at_limit, c₃), omega arith)

-- Chunks that begin at `start`, each within the limit and behind its start, the next one never
-- behind the end of the one before and always behind its start, up to the end of the text.
abbrev pub Covering : ℕ → ℕ → ℕ → List TextChunk → Type 0
Covering limit len start [] = len ≤ start
Covering limit len start (c ∷ cs) =
    (c.start_code_point ≡ start)
    × (start < c.end_code_point)
    × (c.end_code_point ≤ start + limit)
    × (c.end_code_point ≤ len)
    × ((next : ℕ) × (start < next) × (next ≤ c.end_code_point) × Covering limit len next cs)

module _ (cfg : ChunkConfig) (text : Bytes) (runes : List Bytes) (offsets : List ℕ) where
  split_from_last :
      (fuel start : ℕ) {found : ℕ × Bool}
      → leb (length runes) start ≡ false
      → find_chunk_end runes start cfg ≡ ok found
      → leb (length runes) found.0 ≡ true
      → split_from cfg text runes offsets (suc fuel) background start
        ≡ ok (background, chunk_of text offsets start found.0 ∷ [])
  unfolding split_from chunk_of
  split_from_last fuel start h f e = rw (h, split_from) (rw f (rw e refl))

  split_from_more :
      (fuel start : ℕ) {found : ℕ × Bool} {chunks : List TextChunk}
      → leb (length runes) start ≡ false
      → find_chunk_end runes start cfg ≡ ok found
      → leb (length runes) found.0 ≡ false
      → split_from cfg text runes offsets fuel background (next_start cfg found)
        ≡ ok (background, chunks)
      → split_from cfg text runes offsets (suc fuel) background start
        ≡ ok (background, chunk_of text offsets start found.0 ∷ chunks)
  unfolding split_from chunk_of
  split_from_more fuel start h f e k = rw (h, split_from) (rw f (rw (e, k) refl))

  split_from-Covering :
      (fuel start : ℕ)
      → IsConfig cfg
      → length runes + pos_part cfg.max_code_points < 2 ^ 63
      → start < length runes
      → length runes ≤ start + fuel
      → (chunks : List TextChunk) × (split_from cfg text runes offsets fuel background start
          ≡ ok (background, chunks))
        × Covering (pos_part cfg.max_code_points) (length runes) start chunks
  unfolding chunk_of
  split_from-Covering zero start c w h f = absurd (omega arith)
  split_from-Covering (suc fuel) start c w h f =
      let (found, ends, e) = find_chunk_end-IsEnd cfg runes start c h (omega arith) in
      let begun : leb (length runes) start ≡ false = ground arith in
      elim (Bool-cases (leb (length runes) found.0)) [
        | inl y ↦ (
          chunk_of text offsets start found.0 ∷ [],
          split_from_last fuel start begun ends y,
          (refl, e.behind, e.limit, e.within, (found.0, e.behind, omega arith, ground arith)),
        )
        | inr n ↦
            let (ahead, near) =
              next_start-advances cfg (length runes) start found c e (ground arith) in
            let inside = e.within in
            let (chunks, run, cover) =
              split_from-Covering fuel (next_start cfg found) c w (ground arith)
                (omega (arith, ahead)) in
            (
              chunk_of text offsets start found.0 ∷ chunks,
              split_from_more fuel start begun ends n run,
              (refl, e.behind, e.limit, e.within, (next_start cfg found, ahead, near, cover)),
            )
      ]

byte_of_rune : (c : ℕ) (gs : List Bytes) → 0 < length (join_rune c gs)
unfolding join_rune
byte_of_rune c [] = omega arith
byte_of_rune c ([] ∷ gs) = omega arith
byte_of_rune c ((d ∷ g) ∷ gs) = ground arith

some_rune : (text : Bytes) → bytes_eq text [] ≡ false → 0 < length (to_runes text)
unfolding to_runes bytes_eq
some_rune [] h = absurd cc
some_rune (c ∷ s) h = byte_of_rune c (to_runes s)

-- With a configuration that `validate` accepts, `SplitText` returns for every valid text that is
-- not empty chunks that cover its code points from the first to the last without a gap, none of
-- more than `MaxCodePoints` code points, if the text's code points and `MaxCodePoints` together are
-- less than 2^63, so that the sums of `int` do not wrap around.
pub split_text-Covering :
    (text : Bytes) (cfg : ChunkConfig)
    → validate cfg ≡ ok tt
    → bytes_eq text [] ≡ false
    → valid_string text ≡ true
    → length (to_runes text) + pos_part cfg.max_code_points < 2 ^ 63
    → (chunks : List TextChunk) × (split_text background text cfg ≡ ok (background, chunks))
      × Covering (pos_part cfg.max_code_points) (length (to_runes text)) 0 chunks
unfolding split_text
split_text-Covering text cfg v t u w =
    let (chunks, run, cover) =
      split_from-Covering cfg text (to_runes text) (byte_offsets 0 (to_runes text))
        (length (to_runes text)) 0 (validate-IsConfig cfg v) w (some_rune text t) (omega arith) in
    (chunks, rw (v, t, u) run, cover)
