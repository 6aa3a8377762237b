-- ===== src/Masking/Cascade/Checks.antt =====
-- What the tests of the entities in `ruleEntitiesToPII` and `processChunk` establish.
use alpha_proxy.Masking.Cascade.{
  ChunkJob, check_entity, rule_entities_to_pii, chunk_entities, shift,
}
use alpha_proxy.Masking.Kinds.{map_entity_type}
use alpha_proxy.Pii.{ok, Entity, PiiKind, >>=-eq-ok, source_reg, source_ml}
use alpha_proxy.Pii.{
  kind_address, kind_apartment, kind_bank_card, kind_birth_place, kind_card_holder_name,
  kind_citizenship, kind_city, kind_country, kind_cvv, kind_date, kind_district,
  kind_driver_license, kind_email, kind_full_name, kind_house, kind_inn, kind_passport,
  kind_passport_division, kind_passport_issuer, kind_phone, kind_pin, kind_postal_code, kind_region,
  kind_street,
}
use alpha_proxy.Prelude.{
  ℕ, ◌+◌, ◌-◌, ◌≤◌, Bytes, List, [], ◌∷◌, Bool, true, false, ◌&&◌, ◌||◌, Option, some, ◌≡◌, refl,
  sym, ap, subst, ◌∙◌, arith, All, length, length-take, length-drop, drop, leb, ◌==◌, if◌then◌else◌,
  bytes_eq, Option-cases, inl, inr,
}
use alpha_proxy.Prelude.Int.{ℤ, pos_part, neg_part, ◌-ℤ◌, neg_part_of_pos}
use alpha_proxy.Rules.Spans.{ResolvedEntity}
use alpha_proxy.Rules.Types.{
  EntityType, type_address, type_apartment, type_birth_date, type_birth_place, type_card_number,
  type_cardholder_name, type_citizenship, type_city, type_country, type_cvv, type_department_code,
  type_district, type_driver_license, type_email, type_full_name, type_house, type_inn,
  type_passport, type_passport_issue_date, type_passport_issuer, type_phone, type_pin,
  type_postal_code, type_region, type_street,
}
use alpha_proxy.Tokenizer.Allocator.Format.{IsKindByte, IsKindText}
use alpha_proxy.Tokenizer.Apply.Layout.{IsSpan}
use alpha_proxy.Tokenizer.Span.{slice, slice-slice}
use alpha_proxy.Utf8.{valid_string}

-- The test of a kind.
abbrev kind_bytes : Bytes → Bool
kind_bytes [] = true
kind_bytes (c ∷ s) = ((leb b'a' c && leb c b'z') || c == b'_') && kind_bytes s

abbrev kind_text : Bytes → Bool
kind_text [] = false
kind_text (c ∷ s) = kind_bytes (c ∷ s)

kind_bytes-All : (s : Bytes) → kind_bytes s ≡ true → All IsKindByte s
kind_bytes-All [] h = tt
kind_bytes-All (c ∷ s) h = (ground arith, kind_bytes-All s (ground arith))

kind_text-IsKindText : (k : PiiKind) → kind_text k ≡ true → IsKindText k
kind_text-IsKindText [] h = cc
kind_text-IsKindText (c ∷ s) h = ((λ e. cc), kind_bytes-All (c ∷ s) h)

pick :
    (b : Bool) (k : PiiKind) (rest : Option PiiKind) {k' : PiiKind}
    → kind_text k ≡ true
    → (rest ≡ some k' → kind_text k' ≡ true)
    → (if b then some k else rest) ≡ some k'
    → kind_text k' ≡ true
pick true k rest {k' = k'} h f e = let same : k ≡ k' = cc in rw (← same) h
pick false k rest h f e = f e

pub map_entity_type-kind :
    (t : EntityType) {k : PiiKind} → map_entity_type t ≡ some k → kind_text k ≡ true
unfolding map_entity_type
map_entity_type-kind t e =
    pick (bytes_eq t type_full_name) kind_full_name _ refl
      (λ e0.
        pick (bytes_eq t type_birth_date || bytes_eq t type_passport_issue_date) kind_date _ refl
          (λ e1.
            pick (bytes_eq t type_birth_place) kind_birth_place _ refl
              (λ e2.
                pick (bytes_eq t type_passport) kind_passport _ refl
                  (λ e3.
                    pick (bytes_eq t type_citizenship) kind_citizenship _ refl
                      (λ e4.
                        pick (bytes_eq t type_passport_issuer) kind_passport_issuer _ refl
                          (λ e5.
                            pick (bytes_eq t type_department_code) kind_passport_division _ refl
                              (λ e6.
                                pick (bytes_eq t type_driver_license) kind_driver_license _ refl
                                  (λ e7.
                                    pick (bytes_eq t type_address) kind_address _ refl
                                      (λ e8.
                                        pick (bytes_eq t type_city) kind_city _ refl
                                          (λ e9.
                                            pick (bytes_eq t type_street) kind_street _ refl
                                              (λ e10.
                                                pick (bytes_eq t type_house) kind_house _ refl
                                                  (λ e11.
                                                    pick (bytes_eq t type_apartment) kind_apartment
                                                      _ refl
                                                      (λ e12.
                                                        pick (bytes_eq t type_postal_code)
                                                          kind_postal_code _ refl
                                                          (λ e13.
                                                            pick (bytes_eq t type_country)
                                                            kind_country _ refl
                                                            (λ e14.
                                                            pick (bytes_eq t type_region)
                                                            kind_region _ refl
                                                            (λ e15.
                                                            pick (bytes_eq t type_district)
                                                            kind_district _ refl
                                                            (λ e16.
                                                            pick (bytes_eq t type_email) kind_email
                                                            _ refl
                                                            (λ e17.
                                                            pick (bytes_eq t type_phone) kind_phone
                                                            _ refl
                                                            (λ e18.
                                                            pick (bytes_eq t type_inn) kind_inn _
                                                            refl
                                                            (λ e19.
                                                            pick (bytes_eq t type_card_number)
                                                            kind_bank_card _ refl
                                                            (λ e20.
                                                            pick (bytes_eq t type_cvv) kind_cvv _
                                                            refl
                                                            (λ e21.
                                                            pick (bytes_eq t type_pin) kind_pin _
                                                            refl
                                                            (λ e22.
                                                            pick (bytes_eq t type_cardholder_name)
                                                            kind_card_holder_name _ refl (λ e23. cc)
                                                            e22)
                                                            e21)
                                                            e20)
                                                            e19)
                                                            e18)
                                                            e17)
                                                            e16)
                                                            e15)
                                                            e14)
                                                            e13)
                                                          e12)
                                                      e11)
                                                  e10)
                                              e9)
                                          e8)
                                      e7)
                                  e6)
                              e5)
                          e4)
                      e3)
                  e2)
              e1)
          e0)
      e

-- An entity with a span of whole characters and such a kind.
pub record IsFound (text : Bytes) (e : Entity) : Type 0 where
  pub span : IsSpan text e.start e.end
  pub kind : IsKindText e.kind

check_entity-IsSpan :
    (text : Bytes) (en : ResolvedEntity) {k : PiiKind}
    → check_entity text en ≡ ok k
    → IsSpan text en.start en.end × IsKindText k
unfolding check_entity
check_entity-IsSpan text en {k = k} h = elim (Option-cases (map_entity_type en.type)) [
  | inl e ↦ let bad = rw (check_entity, e) at h in cc
  | inr (kind, e) ↦
      let good = rw (check_entity, e) at h in
      let same : kind ≡ k = ground arith in
      (ground arith, kind_text-IsKindText k (map_entity_type-kind en.type (e ∙ ap some same)))
]

pub rule_entities-IsFound :
    (text : Bytes) (ens : List ResolvedEntity) {es : List Entity}
    → rule_entities_to_pii text ens ≡ ok es
    → All (IsFound text) es
unfolding rule_entities_to_pii
rule_entities-IsFound text [] {es = es} h = let none_found : [] ≡ es = cc in rw (← none_found) tt
rule_entities-IsFound text (en ∷ ens) {es = es} h =
    let (kind, h₁, k₁) = >>=-eq-ok (check_entity text en) _ h in
    let (rest, h₂, k₂) = >>=-eq-ok (rule_entities_to_pii text ens) _ k₁ in
    let (span, spelled) = check_entity-IsSpan text en h₁ in
    let first : Entity = record {
      kind = kind;
      start = en.start;
      end = en.end;
      confidence = en.score;
      source = source_reg;
    } in
    let same : first ∷ rest ≡ es = cc in
    rw (← same) (record { span = span; kind = spelled }, rule_entities-IsFound text ens h₂)

shift-parts :
    (n : ℕ) (x : ℤ)
    → neg_part x ≡ 0
    → (pos_part (shift n x) ≡ n + pos_part x) × (neg_part (shift n x) ≡ 0)
unfolding shift ◌-ℤ◌
shift-parts n x h = ground arith

-- A span of a slice is a span of the text.
IsSpan-shift :
    (text : Bytes) (a b : ℕ) (start end : ℤ)
    → a ≤ length text
    → neg_part end ≡ 0
    → IsSpan (slice text a b) start end
    → IsSpan text (shift a start) (shift a end)
IsSpan-shift text a b start end l e s =
    let first = shift-parts a start s.nonneg in
    let last = shift-parts a end e in
    let size = s.nonempty in
    let inside = s.within in
    record {
      nonneg = first.1;
      nonempty = omega (arith, first.0, last.0, size);
      within =
          omega (arith, last.0, inside, length-take (b - a) (drop a text), length-drop a text, l);
      valid =
          ap valid_string (
            ap (λ x. slice text x (pos_part (shift a end))) first.0
            ∙ ap (λ y. slice text (a + pos_part start) y) last.0
            ∙ sym (slice-slice text a b (pos_part start) (pos_part end) inside))
          ∙ s.valid;
    }

pub chunk_entities-IsFound :
    (text : Bytes) (job : ChunkJob) (ens : List ResolvedEntity) {es : List Entity}
    → job.original ≡ slice text job.chunk.start_byte job.chunk.end_byte
    → job.chunk.start_byte ≤ length text
    → chunk_entities job ens ≡ ok es
    → All (IsFound text) es
unfolding chunk_entities
chunk_entities-IsFound text job [] {es = es} o l h =
    let none_found : [] ≡ es = cc in rw (← none_found) tt
chunk_entities-IsFound text job (en ∷ ens) {es = es} o l h =
    let n = job.chunk.start_byte in
    let (kind, h₁, k₁) = >>=-eq-ok (check_entity job.original en) _ h in
    let (rest, h₂, k₂) = >>=-eq-ok (chunk_entities job ens) _ k₁ in
    let (span, spelled) = check_entity-IsSpan job.original en h₁ in
    let size = span.nonempty in
    let first : Entity = record {
      kind = kind;
      start = shift n en.start;
      end = shift n en.end;
      confidence = en.score;
      source = source_ml;
    } in
    let same : first ∷ rest ≡ es = cc in
    rw (← same) (
      record {
        span =
            IsSpan-shift text n job.chunk.end_byte en.start en.end l
              (neg_part_of_pos en.end (omega (arith, size)))
              (subst (λ t. IsSpan t en.start en.end) o span);
        kind = spelled;
      },
      chunk_entities-IsFound text job ens o l h₂,
    )
