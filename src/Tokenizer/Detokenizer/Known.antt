-- ===== src/Tokenizer/Detokenizer/Known.antt =====
-- The table of known tokens, filled from the mappings that `buildMappings` returned.
use alpha_proxy.Pii.{Ctx, background, ok, Replacement, TokenMapping, ctx_err, >>=-eq-ok}
use alpha_proxy.Prelude.{
  Bytes, List, [], ◌∷◌, Option, none, some, ◌≡◌, refl, ◌∙◌, arith, All, bytes_eq, bytes_eq_iff,
  bytes_eq_refl, Option-cases, Bool-cases, inl, inr,
}
use alpha_proxy.Prelude.Dict.{lookup, insert, lookup-insert}
use alpha_proxy.Tokenizer.Apply.{note_token, mappings_from, mapping_of, token_entry}
use alpha_proxy.Tokenizer.Detokenizer.{token_map}

abbrev pub Table : Type 0
Table = List (Bytes × TokenMapping)

-- The table gives the token of a replacement its original and kind.
pub record Reads (known : Table) (r : Replacement) : Type 0 where
  pub entry : TokenMapping
  pub found : lookup r.token known ≡ some entry
  pub original : entry.original ≡ r.original
  pub kind : entry.kind ≡ r.kind

-- Two entries for a token say the same.
abbrev pub SameEntry : Option TokenMapping → Option TokenMapping → Type 0
SameEntry none none = Unit
SameEntry none (some b) = ⊥
SameEntry (some a) none = ⊥
SameEntry (some a) (some b) = (a.original ≡ b.original) × (a.kind ≡ b.kind)

abbrev pub Agree : Table → Table → Type 0
Agree originals known = (t : Bytes) → SameEntry (lookup t originals) (lookup t known)

abbrev pub Extends : Table → Table → Type 0
Extends known known' =
    (t : Bytes) (m : TokenMapping) → lookup t known ≡ some m → lookup t known' ≡ some m

Agree-insert :
    (originals known : Table) (r : Replacement)
    → Agree originals known
    → Agree (insert r.token (token_entry r) originals) (insert r.token (mapping_of r) known)
unfolding token_entry mapping_of
Agree-insert originals known r h t =
    rw
      (
        lookup-insert r.token t (token_entry r) originals,
        lookup-insert r.token t (mapping_of r) known,
      )
      (elim (Bool-cases (bytes_eq r.token t)) [ inl e ↦ rw e (refl, refl) | inr e ↦ rw e (h t) ])

lookup-insert_self :
    (t : Bytes) (m : TokenMapping) (known : Table) → lookup t (insert t m known) ≡ some m
lookup-insert_self t m known = rw (lookup-insert t t m known, bytes_eq_refl t)

Extends-insert :
    (t : Bytes) (m : TokenMapping) (known : Table)
    → lookup t known ≡ none
    → Extends known (insert t m known)
Extends-insert t m known h s n e =
    rw (lookup-insert t s m known) (elim (Bool-cases (bytes_eq t s)) [
      | inl eq ↦ ground (arith, bytes_eq_iff t s)
      | inr ne ↦ rw ne e
    ])

-- What is known after the mappings of `rs`, from what is known before.
pub record Filled (known : Table) (ms : List TokenMapping) (rs : List Replacement) : Type 0 where
  pub known' : Table
  pub runs : token_map background known ms ≡ ok (background, known')
  pub extends : Extends known known'
  pub reads : All (Reads known') rs

-- A token that is new to both tables.
new_token :
    (originals known : Table) (r : Replacement) {originals' : Table}
    → Agree originals known
    → lookup r.token originals ≡ none
    → note_token originals r ≡ ok originals'
    → (lookup r.token known ≡ none) × (originals' ≡ insert r.token (token_entry r) originals)
unfolding note_token
new_token originals known r {originals'} a e h =
    let same : SameEntry none (lookup r.token known) = rw e at (a r.token) in
    (
      elim (Option-cases (lookup r.token known)) [ inl n ↦ n | inr (m, n) ↦ absurd (rw n at same) ],
      ground arith,
    )

-- A token that both tables have.
old_token :
    (originals known : Table) (r : Replacement) {originals' : Table} {e : TokenMapping}
    → Agree originals known
    → lookup r.token originals ≡ some e
    → note_token originals r ≡ ok originals'
    → Reads known r × (originals' ≡ originals)
unfolding note_token
old_token originals known r {originals'} {e} a f h =
    let same : SameEntry (some e) (lookup r.token known) = rw f at (a r.token) in
    elim (Option-cases (lookup r.token known)) [
      | inl n ↦ absurd (rw n at same)
      | inr (m, n) ↦
          let both : SameEntry (some e) (some m) = rw n at same in
          (
            record {
              entry = m;
              found = n;
              original = ground (arith, bytes_eq_iff e.original r.original);
              kind = ground (arith, bytes_eq_iff e.original r.original, bytes_eq_iff e.kind r.kind);
            },
            ground arith,
          )
    ]

Reads-Extends :
    (known known' : Table) (r : Replacement) → Extends known known' → Reads known r → Reads known' r
Reads-Extends known known' r x h = record {
  entry = h.entry;
  found = x r.token h.entry h.found;
  original = h.original;
  kind = h.kind;
}

token_map_old :
    (known : Table) (r : Replacement) (ms : List TokenMapping)
    → Reads known r
    → token_map background known (mapping_of r ∷ ms) ≡ token_map background known ms
unfolding token_map mapping_of
token_map_old known r ms h =
    rw h.found (rw (h.original, h.kind) (rw (bytes_eq_refl r.original, bytes_eq_refl r.kind)))

token_map_new :
    (known : Table) (r : Replacement) (ms : List TokenMapping)
    → lookup r.token known ≡ none
    → token_map background known (mapping_of r ∷ ms)
      ≡ token_map background (insert r.token (mapping_of r) known) ms
unfolding token_map mapping_of
token_map_new known r ms h = rw h

Reads-insert : (known : Table) (r : Replacement) → Reads (insert r.token (mapping_of r) known) r
unfolding mapping_of
Reads-insert known r = record {
  entry = mapping_of r;
  found = lookup-insert_self r.token (mapping_of r) known;
  original = refl;
  kind = refl;
}

Filled-old :
    (known : Table) (ms : List TokenMapping) (r : Replacement) (rs : List Replacement)
    → Reads known r
    → Filled known ms rs
    → Filled known (mapping_of r ∷ ms) (r ∷ rs)
Filled-old known ms r rs h f = record {
  known' = f.known';
  runs = token_map_old known r ms h ∙ f.runs;
  extends = f.extends;
  reads = (Reads-Extends known f.known' r f.extends h, f.reads);
}

Filled-new :
    (known : Table) (ms : List TokenMapping) (r : Replacement) (rs : List Replacement)
    → lookup r.token known ≡ none
    → Filled (insert r.token (mapping_of r) known) ms rs
    → Filled known (mapping_of r ∷ ms) (r ∷ rs)
Filled-new known ms r rs h f = record {
  known' = f.known';
  runs = token_map_new known r ms h ∙ f.runs;
  extends = λ t m e. f.extends t m (Extends-insert r.token (mapping_of r) known h t m e);
  reads = (Reads-Extends _ f.known' r f.extends (Reads-insert known r), f.reads);
}

-- The mappings of a list that `buildMappings` accepted fill the table without a conflict, and
-- every token of the list is read back as its original.
pub mappings_from-Filled :
    (ctx : Ctx) (originals known : Table) (rs : List Replacement) {c : Ctx} {ms : List TokenMapping}
    → Agree originals known
    → mappings_from ctx originals rs ≡ ok (c, ms)
    → Filled known ms rs
unfolding mappings_from
mappings_from-Filled ctx originals known [] {ms = ms} a h =
    let e : ms ≡ [] = cc in
    rw e
      (record { known' = known; runs = unfold token_map in refl; extends = λ t m x. x; reads = tt })
mappings_from-Filled ctx originals known (r ∷ rs) {ms = ms} a h =
    let (c, hc, h₁) = >>=-eq-ok (ctx_err ctx) _ h in
    let (originals', ho, h₂) = >>=-eq-ok (note_token originals r) _ h₁ in
    let (p, hp, h₃) = >>=-eq-ok (mappings_from c originals' rs) _ h₂ in
    let e : ms ≡ mapping_of r ∷ p.1 = cc in
    rw e (elim (Option-cases (lookup r.token originals)) [
      | inl n ↦
          let (fresh, new) = new_token originals known r a n ho in
          Filled-new known p.1 r rs fresh (
            mappings_from-Filled c originals' (insert r.token (mapping_of r) known) rs
              (rw new (Agree-insert originals known r a)) hp)
      | inr (m, f) ↦
          let (reads, same) = old_token originals known r a f ho in
          Filled-old known p.1 r rs reads
            (mappings_from-Filled c originals' known rs (rw same a) hp)
    ])
