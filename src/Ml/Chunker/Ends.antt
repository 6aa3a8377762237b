-- ===== src/Ml/Chunker/Ends.antt =====
-- The end of one chunk, as `findChunkEnd` (internal/ml/chunker.go) finds it.
use alpha_proxy.Ml.Chunker.{
  ChunkConfig, validate, is_boundary, is_closer, nearest, find_chunk_end, search_end,
}
use alpha_proxy.Pii.{ok}
use alpha_proxy.Prelude.{
  ℕ, zero, suc, ◌+◌, ◌-◌, ◌^◌, ◌≤◌, ◌<◌, Bytes, List, Bool, true, false, ◌&&◌, Option, none, some,
  ◌≡◌, inl, inr, refl, arith, length, ltb, if◌then◌else◌, Bool-cases, Option-cases,
}
use alpha_proxy.Prelude.Int.{ℤ, pos, pos_part, ◌-ℤ◌, ltb_ℤ, leb_ℤ, wrap_int, wrap_int_pos}

-- What `validate` accepts, as natural numbers.
pub record IsConfig (cfg : ChunkConfig) : Type 0 where
  pub target : 0 < pos_part cfg.target_code_points
  pub reach : pos_part cfg.target_code_points ≤ pos_part cfg.max_code_points
  pub overlap : pos_part cfg.overlap_code_points < pos_part cfg.max_code_points

pub validate-IsConfig : (cfg : ChunkConfig) → validate cfg ≡ ok tt → IsConfig cfg
unfolding validate
validate-IsConfig cfg h = ground arith

-- The search ends within the positions that it looks at.
nearest-within :
    (runes : List Bytes) (goal count cp low high : ℕ) (best : Option ℕ) {b : ℕ}
    → ((b : ℕ) → best ≡ some b → (low ≤ b) × (b < high))
    → low ≤ cp
    → cp + count ≤ high
    → nearest runes goal count cp best ≡ some b
    → (low ≤ b) × (b < high)
unfolding nearest
nearest-within runes goal zero cp low high best {b} old l h e = old b e
nearest-within runes goal (suc count) cp low high best {b} old l h e =
    nearest-within runes goal count (suc cp) low high
      (if is_boundary runes cp && is_closer goal cp best then some cp else best)
      (λ b' e'. elim (Bool-cases (is_boundary runes cp && is_closer goal cp best)) [
        | inl y ↦ let same : some cp ≡ some b' = ground arith in ground arith
        | inr n ↦ let same : best ≡ some b' = ground arith in old b' same
      ])
      (omega arith) (omega arith) e

-- A chunk ends behind its start, within the text and the limit, and is not safe only at the limit.
pub record IsEnd (cfg : ChunkConfig) (len start : ℕ) (found : ℕ × Bool) : Type 0 where
  pub behind : start < found.0
  pub within : found.0 ≤ len
  pub limit : found.0 ≤ start + pos_part cfg.max_code_points
  pub cut : found.1 ≡ false → found.0 < len → found.0 ≡ start + pos_part cfg.max_code_points

sub_fits : (low high : ℕ) → low ≤ high → low + (high - low) ≤ high
sub_fits low high h = omega arith

-- A boundary that the search found.
boundary-IsEnd :
    (cfg : ChunkConfig) (len start b max_end low : ℕ)
    → start < low
    → max_end ≤ len
    → max_end ≤ start + pos_part cfg.max_code_points
    → (low ≤ b) × (b < suc max_end)
    → IsEnd cfg len start (b, true)
boundary-IsEnd cfg len start b max_end low h h' h'' w = record {
  behind = omega (arith, w.0);
  within = omega (arith, w.1);
  limit = omega (arith, w.1);
  cut = λ unsafe. cc;
}

-- The search, between positions that did not wrap around.
search_end-IsEnd :
    (cfg : ChunkConfig) (runes : List Bytes) (start goal max_end : ℕ) (from : ℤ)
    → start < max_end
    → max_end ≤ length runes
    → max_end ≤ start + pos_part cfg.max_code_points
    → (max_end < length runes → max_end ≡ start + pos_part cfg.max_code_points)
    → pos_part from ≤ max_end
    → (found : ℕ × Bool) × (search_end runes start (pos goal) (pos max_end) from ≡ ok found)
      × IsEnd cfg (length runes) start found
unfolding search_end
search_end-IsEnd cfg runes start goal max_end from h l r t f =
    let low = if ltb_ℤ from (pos (start + 1)) then start + 1 else pos_part from in
    let bottom : (start < low) × (low ≤ suc max_end) = ground arith in
    let up : ltb_ℤ (pos max_end) (pos 0) ≡ false = ground arith in
    elim (Option-cases (nearest runes goal (suc max_end - low) low none)) [
      | inl e ↦ (
        (max_end, false),
        rw (search_end, up, e) (rw up refl),
        record { behind = h; within = l; limit = r; cut = λ _. t },
      )
      | inr (b, e) ↦
          let fits : low + (suc max_end - low) ≤ suc max_end =
            sub_fits low (suc max_end) bottom.1 in
          let w =
            nearest-within runes goal (suc max_end - low) low low (suc max_end) none (λ b' e'. cc)
              (omega arith) fits e in
          (
            (b, true),
            rw (search_end, up, e) refl,
            boundary-IsEnd cfg (length runes) start b max_end low bottom.0 l r w,
          )
    ]

-- The first position of the search does not pass the goal.
wrapped_from :
    (goal overlap : ℕ)
    → goal < 2 ^ 63
    → overlap < 2 ^ 63
    → pos_part (wrap_int (pos goal -ℤ pos overlap)) ≤ goal
unfolding ◌-ℤ◌ wrap_int
wrapped_from goal overlap h h' = ground arith

pub find_chunk_end-IsEnd :
    (cfg : ChunkConfig) (runes : List Bytes) (start : ℕ)
    → IsConfig cfg
    → start < length runes
    → start + pos_part cfg.max_code_points < 2 ^ 63
    → (found : ℕ × Bool) × (find_chunk_end runes start cfg ≡ ok found)
      × IsEnd cfg (length runes) start found
unfolding find_chunk_end
find_chunk_end-IsEnd cfg runes start c h fits =
    let len = length runes in
    let c₁ = c.target in
    let c₂ = c.reach in
    let c₃ = c.overlap in
    let goal = start + pos_part cfg.target_code_points in
    let reach = start + pos_part cfg.max_code_points in
    let max_end = if ltb len reach then len else reach in
    let from = wrap_int (pos goal -ℤ pos (pos_part cfg.overlap_code_points)) in
    let whole_goal : wrap_int (pos goal) ≡ pos goal = wrap_int_pos goal (omega arith) in
    let whole_reach : wrap_int (pos reach) ≡ pos reach = wrap_int_pos reach fits in
    let near = wrapped_from goal (pos_part cfg.overlap_code_points) (omega arith) (omega arith) in
    let upper : (if ltb_ℤ (pos len) (pos reach) then pos len else pos reach) ≡ pos max_end =
      ground arith in
    elim (Bool-cases (leb_ℤ (pos len) (pos goal))) [
      | inl y ↦ (
        (len, true),
        rw (find_chunk_end, whole_goal, y) refl,
        record { behind = h; within = omega arith; limit = ground arith; cut = λ unsafe. cc },
      )
      | inr n ↦
          let top : (start < max_end)
              × (max_end ≤ len)
              × (max_end ≤ reach)
              × (max_end < len → max_end ≡ reach)
              × (goal ≤ max_end) =
            ground arith in
          let (found, run, e) =
            search_end-IsEnd cfg runes start goal max_end from top.0 top.1 top.2 top.3
              (omega (arith, near, top.4)) in
          (found, rw (find_chunk_end, whole_goal, whole_reach, n, upper) run, e)
    ]
