-- ===== src/Ml/Chunker.antt =====
-- internal/ml/chunker.go: the chunks of a text that are sent to the model. A rune is the list of
-- its bytes, which for valid text says the same as the code point; the code only compares runes
-- with ASCII characters and counts them.
pub mod Ends
pub mod Bounds
pub mod Starts
use alpha_proxy.Pii.{Ctx, Result, ok, err, other, panicked, ctx_err, guard, ◌>>=◌, ◌>>◌}
use alpha_proxy.Prelude.{
  ℕ, zero, suc, ◌+◌, ◌-◌, Bytes, List, [], ◌∷◌, Bool, true, false, not, ◌&&◌, ◌||◌, Option, none,
  some, length, drop, leb, ltb, ◌==◌, bytes_eq, if◌then◌else◌,
}
use alpha_proxy.Prelude.Int.{ℤ, pos, pos_part, ◌-ℤ◌, ltb_ℤ, leb_ℤ, wrap_int}
use alpha_proxy.Tokenizer.Span.{slice}
use alpha_proxy.Utf8.{valid_string}

pub record ChunkConfig : Type 0 where
  pub target_code_points : ℤ
  pub max_code_points : ℤ
  pub overlap_code_points : ℤ

unfoldable pub default_chunk_config : ChunkConfig
default_chunk_config = record {
  target_code_points = pos 300;
  max_code_points = pos 350;
  overlap_code_points = pos 50;
}

pub record TextChunk : Type 0 where
  pub text : Bytes
  pub start_code_point : ℕ
  pub end_code_point : ℕ
  pub start_byte : ℕ
  pub end_byte : ℕ

unfoldable pub validate : ChunkConfig → Result (Unit {0})
validate c =
    if leb_ℤ c.target_code_points (pos 0)
    then err other
    else if leb_ℤ c.max_code_points (pos 0)
    then err other
    else if ltb_ℤ c.max_code_points c.target_code_points
    then err other
    else if ltb_ℤ c.overlap_code_points (pos 0) || leb_ℤ c.max_code_points c.overlap_code_points
    then err other
    else ok tt

-- A byte joins the rune behind it where that begins with a continuation byte.
unfoldable pub join_rune : ℕ → List Bytes → List Bytes
join_rune c [] = (c ∷ []) ∷ []
join_rune c ([] ∷ gs) = (c ∷ []) ∷ gs
join_rune c ((d ∷ g) ∷ gs) =
    if leb 0x80 d && ltb d 0xC0 then (c ∷ d ∷ g) ∷ gs else (c ∷ []) ∷ (d ∷ g) ∷ gs

-- `[]rune(text)`.
unfoldable pub to_runes : Bytes → List Bytes
unfolding join_rune
to_runes [] = []
to_runes (c ∷ s) = join_rune c (to_runes s)

-- Where each rune begins, and the end of the text.
unfoldable pub byte_offsets : ℕ → List Bytes → List ℕ
byte_offsets at [] = at ∷ []
byte_offsets at (r ∷ rs) = at ∷ byte_offsets (at + length r) rs

-- `byteOffsets[i]`, where `i` is in range.
unfoldable pub offset : List ℕ → ℕ → ℕ
offset [] i = 0
offset (n ∷ ns) zero = n
offset (n ∷ ns) (suc i) = offset ns i

-- `runes[i]`, where `i` is in range.
unfoldable pub rune_at : List Bytes → ℕ → Bytes
rune_at [] i = []
rune_at (r ∷ rs) zero = r
rune_at (r ∷ rs) (suc i) = rune_at rs i

unfoldable pub is_boundary : List Bytes → ℕ → Bool
unfolding rune_at
is_boundary runes cp =
    let prev = rune_at runes (cp - 1) in
    let next = rune_at runes cp in
    if cp == 0 || leb (length runes) cp
    then false
    else if bytes_eq prev (b'\n' ∷ [])
    then true
    else if bytes_eq prev (b'.' ∷ []) || bytes_eq prev (b'?' ∷ []) || bytes_eq prev (b'!' ∷ [])
    then bytes_eq next (b' ' ∷ []) || bytes_eq next (b'\n' ∷ [])
    else false

unfoldable pub distance : ℕ → ℕ → ℕ
distance a b = (a - b) + (b - a)

-- `dist < bestDist`: with no best yet, `bestDist` is the greatest int.
unfoldable pub is_closer : ℕ → ℕ → Option ℕ → Bool
unfolding distance
is_closer goal cp none = true
is_closer goal cp (some best) = ltb (distance cp goal) (distance best goal)

-- The search loop, for the `count` positions from `cp` on.
unfoldable pub nearest : List Bytes → ℕ → ℕ → ℕ → Option ℕ → Option ℕ
unfolding is_boundary is_closer
nearest runes goal zero cp best = best
nearest runes goal (suc count) cp best =
    let best' = if is_boundary runes cp && is_closer goal cp best then some cp else best in
    nearest runes goal count (suc cp) best'

-- The search for the end of the chunk, and whether it is a safe boundary, up to `maxEnd` and from
-- `low` on, which is at least one behind the start. `byteOffsets[maxEnd]` may be out of range.
unfoldable pub search_end : List Bytes → ℕ → ℤ → ℤ → ℤ → Result (ℕ × Bool)
unfolding nearest
search_end runes start goal max_end from =
    let low = if ltb_ℤ from (pos (start + 1)) then start + 1 else pos_part from in
    let behind = if ltb_ℤ max_end (pos 0) then 0 else suc (pos_part max_end) in
    elim (nearest runes (pos_part goal) (behind - low) low none) [
      | some best ↦ ok (best, true)
      | none ↦ if ltb_ℤ max_end (pos 0) then err panicked else ok (pos_part max_end, false)
    ]

-- The end of the chunk; the end in bytes is its offset. The sums are those of `int`, and the numbers
-- of the configuration are those that `validate` accepts.
unfoldable pub find_chunk_end : List Bytes → ℕ → ChunkConfig → Result (ℕ × Bool)
unfolding search_end ◌-ℤ◌ wrap_int
find_chunk_end runes start cfg =
    let len = length runes in
    let goal = wrap_int (pos (start + pos_part cfg.target_code_points)) in
    let reach = wrap_int (pos (start + pos_part cfg.max_code_points)) in
    let max_end = if ltb_ℤ (pos len) reach then pos len else reach in
    let from = wrap_int (goal -ℤ pos (pos_part cfg.overlap_code_points)) in
    if leb_ℤ (pos len) goal then ok (len, true) else search_end runes start goal max_end from

-- Where the next chunk begins.
unfoldable pub next_start : ChunkConfig → ℕ × Bool → ℕ
next_start cfg (end, true) = end
next_start cfg (end, false) = end - pos_part cfg.overlap_code_points

unfoldable pub chunk_of : Bytes → List ℕ → ℕ → ℕ → TextChunk
unfolding offset
chunk_of text offsets start end = record {
  text = slice text (offset offsets start) (offset offsets end);
  start_code_point = start;
  end_code_point = end;
  start_byte = offset offsets start;
  end_byte = offset offsets end;
}

-- The loop of `SplitText`, for at most as many chunks as the fuel says.
unfoldable pub split_from :
    ChunkConfig → Bytes → List Bytes → List ℕ → ℕ → Ctx → ℕ → Result (Ctx × List TextChunk)
unfolding find_chunk_end next_start chunk_of
split_from cfg text runes offsets zero ctx start = ok (ctx, [])
split_from cfg text runes offsets (suc fuel) ctx start =
    let rest = λ (ctx' : Ctx) (next : ℕ). split_from cfg text runes offsets fuel ctx' next in
    if leb (length runes) start then ok (ctx, []) else (do
      ctx' ← ctx_err ctx
      found ← find_chunk_end runes start cfg
      (ctx'', chunks) ←
          (if leb (length runes) found.0 then ok (ctx', []) else rest ctx' (next_start cfg found))
      ok (ctx'', chunk_of text offsets start found.0 ∷ chunks))

unfoldable pub split_text : Ctx → Bytes → ChunkConfig → Result (Ctx × List TextChunk)
unfolding split_from to_runes byte_offsets validate
split_text ctx text cfg = do
  validate cfg
  (if bytes_eq text []
      then ok (ctx, [])
      else if not (valid_string text)
      then err other
      else split_from cfg text (to_runes text) (byte_offsets 0 (to_runes text))
          (length (to_runes text)) ctx 0)
