-- ===== src/Tokenizer/Priority.antt =====
-- internal/tokenizer/merge.go: which of two replacements is preferred.
use alpha_proxy.Pii.{
  Replacement, PiiKind, Source, kind_phone, kind_email, kind_inn, kind_bank_card, kind_passport,
  kind_passport_division, kind_date, kind_driver_license, kind_cvv, kind_pin, kind_postal_code,
  kind_full_name, kind_address, kind_first_name, kind_last_name, kind_middle_name, kind_city,
  kind_street, kind_house, kind_apartment, kind_birth_place, kind_citizenship, kind_passport_issuer,
  kind_card_holder_name, source_reg, source_ml,
}
use alpha_proxy.Prelude.{
  ℕ, Bytes, List, [], ◌∷◌, ◌++◌, Bool, false, not, ◌&&◌, ◌||◌, if◌then◌else◌, bytes_eq, bytes_lt,
  ltb, ◌==◌,
}
use alpha_proxy.Prelude.Int.{ltb_ℤ, eqb_ℤ, ◌-ℤ◌}

-- `case a, b, c:` on strings.
unfoldable pub one_of : List Bytes → Bytes → Bool
one_of [] s = false
one_of (k ∷ ks) s = bytes_eq k s || one_of ks s

-- The kinds that the regular expressions are the main source of.
abbrev pub regex_kinds : List PiiKind
regex_kinds =
    kind_phone ∷ kind_email ∷ kind_inn ∷ kind_bank_card ∷ kind_passport ∷ kind_passport_division
    ∷ kind_date ∷ kind_driver_license ∷ kind_cvv ∷ kind_pin ∷ kind_postal_code ∷ []

abbrev pub part_kinds : List PiiKind
part_kinds =
    kind_first_name ∷ kind_last_name ∷ kind_middle_name ∷ kind_city ∷ kind_street ∷ kind_house
    ∷ kind_apartment ∷ kind_birth_place ∷ kind_citizenship ∷ kind_passport_issuer
    ∷ kind_card_holder_name ∷ []

unfoldable pub type_priority : PiiKind → ℕ
unfolding one_of
type_priority kind =
    if one_of (regex_kinds ++ kind_full_name ∷ kind_address ∷ []) kind
    then 2
    else if one_of part_kinds kind
    then 1
    else 0

unfoldable pub primary_source : PiiKind → Source
unfolding one_of
primary_source kind = if one_of regex_kinds kind then source_reg else source_ml

unfoldable pub pick_winner : Replacement → Replacement → Replacement
unfolding primary_source
pick_winner a b =
    let primary_a = primary_source a.kind in
    let primary_b = primary_source b.kind in
    if bytes_eq a.source primary_a && not (bytes_eq b.source primary_b)
    then a
    else if bytes_eq b.source primary_b && not (bytes_eq a.source primary_a)
    then b
    else if not (eqb_ℤ a.confidence b.confidence)
    then (if ltb_ℤ b.confidence a.confidence then a else b)
    else if not (bytes_eq a.source b.source)
    then (if bytes_lt a.source b.source then a else b)
    else if bytes_lt a.token b.token
    then a
    else b

unfoldable pub candidate_less : Replacement → Replacement → Bool
unfolding type_priority primary_source ◌-ℤ◌
candidate_less a b =
    let pa = type_priority a.kind in
    let pb = type_priority b.kind in
    let a_primary = bytes_eq a.source (primary_source a.kind) in
    let b_primary = bytes_eq b.source (primary_source b.kind) in
    let a_len = a.end -ℤ a.start in
    let b_len = b.end -ℤ b.start in
    if not (pa == pb)
    then ltb pb pa
    else if (a_primary && not b_primary) || (b_primary && not a_primary)
    then a_primary
    else if not (eqb_ℤ a.confidence b.confidence)
    then ltb_ℤ b.confidence a.confidence
    else if not (eqb_ℤ a_len b_len)
    then ltb_ℤ b_len a_len
    else if not (eqb_ℤ a.start b.start)
    then ltb_ℤ a.start b.start
    else if not (eqb_ℤ a.end b.end)
    then ltb_ℤ a.end b.end
    else if not (bytes_eq a.kind b.kind)
    then bytes_lt a.kind b.kind
    else if not (bytes_eq a.source b.source)
    then bytes_lt a.source b.source
    else bytes_lt a.token b.token
