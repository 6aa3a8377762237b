-- ===== src/Processor/Request.antt =====
-- internal/contract/contract.go and the helpers of processor.go that read the mask kinds of a
-- request.
use alpha_proxy.Pii.{
  Result, ok, err, invalid_mask_kind, policy_rejected, Policy, PiiKind, Session, kind_full_name,
  kind_first_name, kind_last_name, kind_middle_name, kind_address, kind_city, kind_street,
  kind_house, kind_apartment, kind_birth_place, kind_citizenship, kind_passport_issuer,
  kind_card_holder_name, kind_email, kind_phone, kind_inn, kind_bank_card, kind_passport,
  kind_passport_division, kind_date, kind_driver_license, kind_cvv, kind_pin, kind_postal_code,
  kind_country, kind_region, kind_district,
}
use alpha_proxy.Prelude.{
  Bytes, List, [], ◌∷◌, Bool, true, false, not, ◌&&◌, ◌||◌, if◌then◌else◌, bytes_eq, bytes_lt,
}
use alpha_proxy.Prelude.Sort.{sort}
use alpha_proxy.Tokenizer.Priority.{one_of}

pub record ProcessRequest : Type 0 where
  pub payload : Bytes
  pub payload_id : Bytes
  pub consumer_id : Bytes
  pub mask_kinds : List Bytes
  pub mask_kinds_set : Bool

abbrev pub known_kinds : List PiiKind
known_kinds =
    kind_full_name ∷ kind_first_name ∷ kind_last_name ∷ kind_middle_name ∷ kind_address ∷ kind_city
    ∷ kind_street ∷ kind_house ∷ kind_apartment ∷ kind_birth_place ∷ kind_citizenship
    ∷ kind_passport_issuer ∷ kind_card_holder_name ∷ kind_email ∷ kind_phone ∷ kind_inn
    ∷ kind_bank_card ∷ kind_passport ∷ kind_passport_division ∷ kind_date ∷ kind_driver_license
    ∷ kind_cvv ∷ kind_pin ∷ kind_postal_code ∷ kind_country ∷ kind_region ∷ kind_district ∷ []

unfoldable pub is_known_kind : PiiKind → Bool
is_known_kind kind = one_of known_kinds kind

-- The loop of `applyMaskKinds`, with the map of the kinds met so far.
unfoldable pub narrow_from : Policy → (PiiKind → Bool) → List Bytes → Result Policy
unfolding is_known_kind
narrow_from policy allowed [] = ok (record policy { allowed_kinds = allowed })
narrow_from policy allowed (k ∷ ks) =
    if not (is_known_kind k)
    then err invalid_mask_kind
    else if not (policy.allowed_kinds k)
    then err policy_rejected
    else narrow_from policy (λ j. bytes_eq k j || allowed j) ks

unfoldable pub apply_mask_kinds : Policy → List Bytes → Result Policy
unfolding narrow_from
apply_mask_kinds policy kinds = narrow_from policy (λ _. false) kinds

-- The kinds not met before, in their order.
unfoldable pub unique_from : List PiiKind → List Bytes → List PiiKind
unique_from seen [] = []
unique_from seen (k ∷ ks) =
    if one_of seen k then unique_from seen ks else k ∷ unique_from (k ∷ seen) ks

unfoldable pub canonical_mask_kinds : List Bytes → List PiiKind
unfolding unique_from
canonical_mask_kinds kinds = sort bytes_lt (unique_from [] kinds)

-- The comparison of the lengths and then of the entries.
unfoldable pub same_kinds : List PiiKind → List PiiKind → Bool
same_kinds [] [] = true
same_kinds [] (k ∷ ks) = false
same_kinds (j ∷ js) [] = false
same_kinds (j ∷ js) (k ∷ ks) = bytes_eq j k && same_kinds js ks

unfoldable pub mask_kinds_match : Session → ProcessRequest → Bool
unfolding same_kinds
mask_kinds_match session req =
    if session.mask_kinds_set && not req.mask_kinds_set
      || req.mask_kinds_set && not session.mask_kinds_set
    then false
    else if not session.mask_kinds_set
    then true
    else same_kinds session.mask_kinds (canonical_mask_kinds req.mask_kinds)
