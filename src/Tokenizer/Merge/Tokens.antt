-- ===== src/Tokenizer/Merge/Tokens.antt =====
-- The tokens that `normalizeTokens` hands out, and the mappings that they lead to.
use alpha_proxy.Pii.{background, ok, Replacement, TokenMapping, PiiKind}
use alpha_proxy.Prelude.{
  Bytes, List, [], ◌∷◌, Option, none, some, ◌≡◌, refl, sym, ◌∙◌, All, bytes_eq, bytes_eq_iff,
  bytes_eq_refl, Option-cases, Bool-cases, inl, inr,
}
use alpha_proxy.Prelude.Dict.{lookup, insert, lookup-insert}
use alpha_proxy.Tokenizer.Allocator.{Allocator, allocate, find_token}
use alpha_proxy.Tokenizer.Allocator.Format.{IsKindText}
use alpha_proxy.Tokenizer.Allocator.Owners.{
  Entries, Distinct, Grows, IsSound, allocate-Allocated, owner, owner_of_find_token, found-IsEntry,
}
use alpha_proxy.Tokenizer.Apply.{note_token, token_entry, mappings_from, mapping_of, build_mappings}
use alpha_proxy.Tokenizer.Detokenizer.Tokens.{IsTokenText}
use alpha_proxy.Tokenizer.Merge.{normalize_from}

-- The token of a replacement is on record for its kind and text.
abbrev pub IsNamed : Entries → Replacement → Type 0
IsNamed m r = find_token r.kind r.original m ≡ some r.token

pub record Normalized (a : Allocator) (rs : List Replacement) : Type 0 where
  pub last : Allocator
  pub sound : IsSound last
  pub grows : Grows a.mappings last.mappings
  pub named : All (IsNamed last.mappings) rs

pub normalize_from-Normalized :
    (a : Allocator) (rs : List Replacement)
    → IsSound a
    → All (λ r. IsKindText r.kind) rs
    → Normalized a (normalize_from a rs)
unfolding normalize_from
normalize_from-Normalized a [] s k = record {
  last = a;
  sound = s;
  grows = λ k v t f. f;
  named = tt;
}
normalize_from-Normalized a (r ∷ rs) s (k, ks) =
    let one = allocate-Allocated a r.kind r.original s k in
    let rest = normalize_from-Normalized (allocate a r.kind r.original).0 rs one.sound ks in
    record {
      last = rest.last;
      sound = rest.sound;
      grows = λ k v t f. rest.grows k v t (one.grows k v t f);
      named = (rest.grows r.kind r.original (allocate a r.kind r.original).1 one.found, rest.named);
    }

-- Each token has the form that the detokenizer looks for.
pub named-IsTokenText :
    (a : Allocator) (rs : List Replacement)
    → IsSound a
    → All (IsNamed a.mappings) rs
    → All (λ r. IsTokenText r.token) rs
named-IsTokenText a [] s h = tt
named-IsTokenText a (r ∷ rs) s (h, hs) = (
  (found-IsEntry a.text a.counters r.kind r.original r.token a.mappings s.entries h).0,
  named-IsTokenText a rs s hs,
)

some_pair :
    (k j : PiiKind) (v w : Bytes)
    → ◌≡◌ {A = Option (PiiKind × Bytes)} (some (k, v)) (some (j, w))
    → (k ≡ j) × (v ≡ w)
some_pair k j v w h = (cc, cc)

module _ (m : Entries) where
  -- Each entry of `tokenOriginals` says whose token it is.
  abbrev IsOwned : List (Bytes × TokenMapping) → Type 0
  IsOwned originals =
      (t : Bytes) (e : TokenMapping)
      → lookup t originals ≡ some e
      → owner t m ≡ some (e.kind, e.original)

  IsOwned-insert :
      (originals : List (Bytes × TokenMapping)) (r : Replacement)
      → IsOwned originals
      → owner r.token m ≡ some (r.kind, r.original)
      → IsOwned (insert r.token (token_entry r) originals)
  unfolding token_entry
  IsOwned-insert originals r o h t n k =
      let k' = sym (lookup-insert r.token t (token_entry r) originals) ∙ k in
      elim (Bool-cases (bytes_eq r.token t)) [
        | inl y ↦
            let made = rw y at k' in
            let entry : token_entry r ≡ n = cc in
            let same : r.token ≡ t = (bytes_eq_iff r.token t).0 y in rw (← same, ← entry) h
        | inr d ↦ o t n (rw d at k')
      ]

  note_token_new :
      (originals : List (Bytes × TokenMapping)) (r : Replacement)
      → lookup r.token originals ≡ none
      → note_token originals r ≡ ok (insert r.token (token_entry r) originals)
  unfolding note_token
  note_token_new originals r e = rw (note_token, e)

  note_token_known :
      (originals : List (Bytes × TokenMapping)) (r : Replacement) (n : TokenMapping)
      → lookup r.token originals ≡ some n
      → n.original ≡ r.original
      → n.kind ≡ r.kind
      → note_token originals r ≡ ok originals
  unfolding note_token
  note_token_known originals r n e o k =
      rw (note_token, e, o, k, bytes_eq_refl r.original, bytes_eq_refl r.kind)

  note_token-ok :
      (originals : List (Bytes × TokenMapping)) (r : Replacement)
      → IsOwned originals
      → owner r.token m ≡ some (r.kind, r.original)
      → (originals' : List (Bytes × TokenMapping)) × (note_token originals r ≡ ok originals')
        × IsOwned originals'
  note_token-ok originals r o h = elim (Option-cases (lookup r.token originals)) [
    | inl e ↦ (
      insert r.token (token_entry r) originals,
      note_token_new originals r e,
      IsOwned-insert originals r o h,
    )
    | inr (n, e) ↦
        let (kind, text) =
          some_pair n.kind r.kind n.original r.original (sym (o r.token n e) ∙ h) in
        (originals, note_token_known originals r n e text kind, o)
  ]

  -- Replacements whose tokens are owned never conflict.
  pub mappings_from-ok :
      (originals : List (Bytes × TokenMapping)) (rs : List Replacement)
      → IsOwned originals
      → All (λ r. owner r.token m ≡ some (r.kind, r.original)) rs
      → (mappings : List TokenMapping) × (mappings_from background originals rs
          ≡ ok (background, mappings))
  unfolding mappings_from
  mappings_from-ok originals [] o h = ([], refl)
  mappings_from-ok originals (r ∷ rs) o (h, hs) =
      let (originals', run, o') = note_token-ok originals r o h in
      let (rest, run') = mappings_from-ok originals' rs o' hs in
      (mapping_of r ∷ rest, rw (run, run') refl)

named-owned :
    (m : Entries) (rs : List Replacement)
    → Distinct m
    → All (IsNamed m) rs
    → All (λ r. owner r.token m ≡ some (r.kind, r.original)) rs
named-owned m [] d h = tt
named-owned m (r ∷ rs) d (h, hs) =
    (owner_of_find_token r.kind r.original r.token m d h, named-owned m rs d hs)

-- Replacements that are named in a sound state have mappings.
pub named-mappings :
    (a : Allocator) (rs : List Replacement)
    → IsSound a
    → All (IsNamed a.mappings) rs
    → (mappings : List TokenMapping) × (build_mappings background rs ≡ ok (background, mappings))
unfolding build_mappings
named-mappings a rs s h =
    mappings_from-ok a.mappings [] rs (λ t e k. unfold lookup in cc)
      (named-owned a.mappings rs s.distinct h)
