-- ===== src/Ml/Chunker/Starts.antt =====
-- Where the chunks of a text begin in bytes.
use alpha_proxy.Ml.Chunker.{
  ChunkConfig, TextChunk, split_text, split_from, to_runes, join_rune, byte_offsets, offset,
  find_chunk_end, next_start, chunk_of, validate,
}
use alpha_proxy.Pii.{Ctx, ok, ctx_err, >>=-eq-ok, Result-cases}
use alpha_proxy.Prelude.{
  ℕ, zero, suc, ◌+◌, ◌≤◌, ◌<◌, ltb, ◌&&◌, Bytes, List, [], ◌∷◌, ◌≡◌, refl, arith, All, length, leb,
  bytes_eq, if◌then◌else◌, Bool-cases, inl, inr,
}
use alpha_proxy.Utf8.{valid_string}

-- How many bytes the runes have.
abbrev pub total : List Bytes → ℕ
total [] = 0
total (r ∷ rs) = length r + total rs

total-join_rune : (c : ℕ) (rs : List Bytes) → total (join_rune c rs) ≡ suc (total rs)
unfolding join_rune
total-join_rune c [] = refl
total-join_rune c ([] ∷ rs) = omega arith
total-join_rune c ((d ∷ r) ∷ rs) = ground arith

pub total-to_runes : (s : Bytes) → total (to_runes s) ≡ length s
unfolding to_runes
total-to_runes [] = refl
total-to_runes (c ∷ s) = omega (arith, total-join_rune c (to_runes s), total-to_runes s)

join_rune-All :
    (c : ℕ) (rs : List Bytes)
    → All (λ r. 0 < length r) rs
    → All (λ r. 0 < length r) (join_rune c rs)
unfolding join_rune
join_rune-All c [] h = (omega arith, tt)
join_rune-All c ([] ∷ rs) (h, hs) = (omega arith, hs)
join_rune-All c ((d ∷ r) ∷ rs) (h, hs) = elim (Bool-cases (leb 0x80 d && ltb d 0xC0)) [
  | inl y ↦ rw y (omega arith, hs)
  | inr n ↦ rw n (omega arith, (omega arith, hs))
]

-- No rune is empty.
pub to_runes-All : (s : Bytes) → All (λ r. 0 < length r) (to_runes s)
unfolding to_runes
to_runes-All [] = tt
to_runes-All (c ∷ s) = join_rune-All c (to_runes s) (to_runes-All s)

pub offset-byte_offsets :
    (at : ℕ) (rs : List Bytes) (i : ℕ) → offset (byte_offsets at rs) i ≤ at + total rs
unfolding offset byte_offsets
offset-byte_offsets at [] zero = omega arith
offset-byte_offsets at [] (suc i) = omega arith
offset-byte_offsets at (r ∷ rs) zero = omega arith
offset-byte_offsets at (r ∷ rs) (suc i) = omega (arith, offset-byte_offsets (at + length r) rs i)

module _ (cfg : ChunkConfig) (text : Bytes) (runes : List Bytes) (offsets : List ℕ) (limit : ℕ)
    (bound : (i : ℕ) → offset offsets i ≤ limit) where
  split_from-within :
      (fuel : ℕ) (ctx : Ctx) (start : ℕ) {c : Ctx} {chunks : List TextChunk}
      → split_from cfg text runes offsets fuel ctx start ≡ ok (c, chunks)
      → All (λ t. t.start_byte ≤ limit) chunks
  unfolding split_from chunk_of
  split_from-within zero ctx start {chunks = chunks} h =
      let none_left : [] ≡ chunks = cc in rw (← none_left) tt
  split_from-within (suc fuel) ctx start {chunks = chunks} h =
      elim (Bool-cases (leb (length runes) start)) [
        | inl y ↦
            let stopped = rw (y, split_from) at h in
            let none_left : [] ≡ chunks = cc in rw (← none_left) tt
        | inr n ↦
            let run = rw (n, split_from) at h in
            let (ctx', h₁, k₁) = >>=-eq-ok (ctx_err ctx) _ run in
            elim (Result-cases (find_chunk_end runes start cfg)) [
              | inr (reason, e) ↦ let bad = rw e at k₁ in cc
              | inl (found, e) ↦
                  let first = chunk_of text offsets start found.0 in
                  let (rest, h₂, k₂) =
                    >>=-eq-ok
                      (if leb (length runes) found.0
                        then ok (ctx', [])
                        else split_from cfg text runes offsets fuel ctx' (next_start cfg found))
                      _ (rw e at k₁) in
                  let same : first ∷ rest.1 ≡ chunks = cc in
                  rw (← same) (
                    bound start,
                    elim (Bool-cases (leb (length runes) found.0)) [
                      | inl y ↦
                          let stopped = rw y at h₂ in
                          let none_left : [] ≡ rest.1 = cc in rw (← none_left) tt
                      | inr m ↦ split_from-within fuel ctx' (next_start cfg found) (rw m at h₂)
                    ],
                  )
            ]
      ]

-- Every chunk that `SplitText` returns begins in the text.
pub split_text-within :
    (text : Bytes) (cfg : ChunkConfig) (ctx : Ctx) {c : Ctx} {chunks : List TextChunk}
    → split_text ctx text cfg ≡ ok (c, chunks)
    → All (λ t. t.start_byte ≤ length text) chunks
unfolding split_text
split_text-within text cfg ctx {chunks = chunks} h =
    let (u, h₁, k₁) = >>=-eq-ok (validate cfg) _ h in
    elim (Bool-cases (bytes_eq text [])) [
      | inl y ↦ let stopped = rw y at k₁ in let none_left : [] ≡ chunks = cc in rw (← none_left) tt
      | inr n ↦
          let run = rw n at k₁ in
          elim (Bool-cases (valid_string text)) [
            | inr v ↦ let bad = rw v at run in cc
            | inl v ↦
                let total_eq = total-to_runes text in
                split_from-within cfg text (to_runes text) (byte_offsets 0 (to_runes text))
                  (length text)
                  (λ i. omega (arith, offset-byte_offsets 0 (to_runes text) i, total_eq))
                  (length (to_runes text)) ctx 0 (rw v at run)
          ]
    ]
