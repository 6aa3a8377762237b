-- ===== src/Rules/Normalize.antt =====
-- internal/normalize/normalize.go: the normalized view of a text and the ways back to the text. A
-- rune is the list of its bytes, so `new_text` is the code on valid text only: it counts an invalid
-- byte as one, where the code counts the three of U+FFFD. `unicode.IsSpace` and `unicode.ToLower`
-- are parameters.
pub mod Search
pub mod Spans
use alpha_proxy.Ml.Chunker.{to_runes, offset}
use alpha_proxy.Prelude.{
  ℕ, zero, suc, ◌+◌, ◌-◌, ◌/◌, Bytes, List, [], ◌∷◌, ◌++◌, map, Bool, true, false, not, ◌&&◌, ◌||◌,
  length, leb, ltb, ◌==◌, bytes_eq, if◌then◌else◌,
}
use alpha_proxy.Prelude.Int.{ℤ, pos, pos_part, ltb_ℤ, leb_ℤ}
use alpha_proxy.Tokenizer.Priority.{one_of}
use alpha_proxy.Tokenizer.Span.{slice}

-- The characters of `isDash`: `-`, U+2010 to U+2015, U+2212, U+FE58, U+FE63, U+FF0D, U+00AD.
abbrev pub dashes : List Bytes
dashes =
    (b'-' ∷ [])
    ∷ (0xE2 ∷ 0x80 ∷ 0x90 ∷ [])
    ∷ (0xE2 ∷ 0x80 ∷ 0x91 ∷ [])
    ∷ (0xE2 ∷ 0x80 ∷ 0x92 ∷ [])
    ∷ (0xE2 ∷ 0x80 ∷ 0x93 ∷ [])
    ∷ (0xE2 ∷ 0x80 ∷ 0x94 ∷ [])
    ∷ (0xE2 ∷ 0x80 ∷ 0x95 ∷ [])
    ∷ (0xE2 ∷ 0x88 ∷ 0x92 ∷ [])
    ∷ (0xEF ∷ 0xB9 ∷ 0x98 ∷ [])
    ∷ (0xEF ∷ 0xB9 ∷ 0xA3 ∷ [])
    ∷ (0xEF ∷ 0xBC ∷ 0x8D ∷ [])
    ∷ (0xC2 ∷ 0xAD ∷ [])
    ∷ []

unfoldable pub is_dash : Bytes → Bool
unfolding one_of
is_dash r = one_of dashes r

-- What one round of the loop appends.
pub record Entry : Type 0 where
  pub written : Bytes
  pub orig_offset : ℕ
  pub orig_end : ℕ
  pub norm_offset : ℕ

pub record NormText : Type 0 where
  pub original : Bytes
  pub normalized : Bytes
  pub orig_offsets : List ℕ
  pub orig_ends : List ℕ
  pub norm_byte_offsets : List ℕ

-- `strings.Builder`.
unfoldable pub write_all : List Entry → Bytes
write_all [] = []
write_all (e ∷ es) = e.written ++ write_all es

module _ (is_space : Bytes → Bool) (rune_lower : Bytes → Bytes) where
  -- The `switch`, for a rune that is written.
  unfoldable pub written_rune : Bytes → Bytes
  unfolding is_dash
  written_rune r = if is_dash r then b'-' ∷ [] else if is_space r then b' ' ∷ [] else rune_lower r

  -- The loop, with the two offsets and whether the rune before was a space.
  unfoldable pub entries_from : ℕ → ℕ → Bool → List Bytes → List Entry
  unfolding written_rune is_dash
  entries_from at norm prev_space [] = []
  entries_from at norm prev_space (r ∷ rs) =
      let skipped = entries_from (at + length r) norm prev_space rs in
      let rest = entries_from (at + length r) (norm + length (written_rune r)) (is_space r) rs in
      if not (is_dash r) && is_space r && prev_space
      then skipped
      else record {
        written = written_rune r;
        orig_offset = at;
        orig_end = at + length r;
        norm_offset = norm;
      }
        ∷ rest

  unfoldable pub new_text : Bytes → NormText
  unfolding entries_from write_all to_runes
  new_text original =
      let entries = entries_from 0 0 false (to_runes original) in
      record {
        original = original;
        normalized = write_all entries;
        orig_offsets = map (λ (e : Entry). e.orig_offset) entries;
        orig_ends = map (λ (e : Entry). e.orig_end) entries;
        norm_byte_offsets = map (λ (e : Entry). e.norm_offset) entries;
      }

unfoldable pub map_span : NormText → ℤ → ℤ → ℕ × ℕ
unfolding offset
map_span t norm_start norm_end =
    let len = length t.orig_offsets in
    let first = pos_part norm_start in
    let last = if ltb_ℤ (pos len) norm_end then pos len else norm_end in
    if len == 0 then (0, 0) else if leb len first then (length t.original, length t.original) else (
      offset t.orig_offsets first,
      if ltb_ℤ (pos 0) last && leb_ℤ last (pos (length t.orig_ends))
          then offset t.orig_ends (pos_part last - 1)
          else length t.original,
    )

unfoldable pub original_slice : NormText → ℤ → ℤ → Bytes
unfolding map_span
original_slice t norm_start norm_end =
    let span = map_span t norm_start norm_end in slice t.original span.0 span.1

unfoldable pub text_len : NormText → ℕ
text_len t = length t.orig_offsets

-- The binary search of `ByteToRune` and `OriginalToNorm` between `lo` and `hi`, for as many rounds as
-- the fuel says.
unfoldable pub search_offset : List ℕ → ℤ → ℕ → ℕ → ℕ → ℕ
unfolding offset
search_offset xs goal zero lo hi = lo
search_offset xs goal (suc fuel) lo hi =
    let mid = (lo + hi) / 2 in
    let above = search_offset xs goal fuel (mid + 1) hi in
    let below = search_offset xs goal fuel lo mid in
    if ltb lo hi then (if ltb_ℤ (pos (offset xs mid)) goal then above else below) else lo

unfoldable pub byte_to_rune : NormText → ℤ → ℕ
unfolding search_offset
byte_to_rune t byte_off =
    if length t.norm_byte_offsets == 0
    then 0
    else search_offset t.norm_byte_offsets byte_off (length t.norm_byte_offsets) 0
        (length t.norm_byte_offsets)

unfoldable pub rune_to_byte : NormText → ℤ → ℕ
unfolding offset
rune_to_byte t rune_idx =
    if ltb_ℤ rune_idx (pos 0)
    then 0
    else if leb_ℤ (pos (length t.norm_byte_offsets)) rune_idx
    then length t.normalized
    else offset t.norm_byte_offsets (pos_part rune_idx)

unfoldable pub original_to_norm : NormText → ℤ → ℕ
unfolding search_offset
original_to_norm t orig_offset =
    search_offset t.orig_offsets orig_offset (length t.orig_offsets) 0 (length t.orig_offsets)
