-- ===== src/Ml/Client/Checked.antt =====
-- What an answer of the model server that passes the tests is like.
use alpha_proxy.Ml.Batcher.Own.{has}
use alpha_proxy.Ml.Types.{ChunkResult, MlEntity}
use alpha_proxy.Prelude.{ℕ, Bytes, List, [], ◌∷◌, false, ◌||◌, Option, some, ◌≡◌, All}
use alpha_proxy.Prelude.Dict.{lookup}
use alpha_proxy.Prelude.Int.{ℤ, pos, ◌≤ℤ◌, ◌<ℤ◌}
use alpha_proxy.Tokenizer.Priority.{one_of}

-- A span in a text of so many code points that is not empty.
pub record InText (len : ℕ) (e : MlEntity) : Type 0 where
  pub nonneg : pos 0 ≤ℤ e.start
  pub nonempty : e.start <ℤ e.end
  pub within : e.end ≤ℤ pos len

-- No result has the id of a later one.
unfoldable pub Distinct : List ChunkResult → Type 0
Distinct [] = Unit
Distinct (r ∷ rs) = (has r.chunk_id rs ≡ false) × Distinct rs

module _ (rune_count : Bytes → ℕ) (type_name error_name : ℤ → Option Bytes) (top : ℤ) where
  -- A result for a known chunk, with its entities in the text of the chunk.
  pub record IsKnown (lens : List (Bytes × ℕ)) (r : ChunkResult) : Type 0 where
    pub len : ℕ
    pub known : lookup r.chunk_id lens ≡ some len
    pub inside : All (InText len) r.entities

  -- The results of the loop, with the ids seen before and behind it.
  record Read (lens : List (Bytes × ℕ)) (seen seen' : List Bytes) (rs : List ChunkResult)
      : Type 0 where
    results : All (IsKnown lens) rs
    fresh : All (λ r. one_of seen r.chunk_id ≡ false) rs
    distinct : Distinct rs
    ids : (id : Bytes) → one_of seen' id ≡ (one_of seen id || has id rs)
