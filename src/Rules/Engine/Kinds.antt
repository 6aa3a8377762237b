-- ===== src/Rules/Engine/Kinds.antt =====
-- internal/engine/detector.go: the kind of personal data that a rule's entity type stands for.
use alpha_proxy.Pii.{
  PiiKind, kind_address, kind_bank_card, kind_birth_place, kind_card_holder_name, kind_citizenship,
  kind_cvv, kind_date, kind_driver_license, kind_email, kind_full_name, kind_inn, kind_passport,
  kind_passport_division, kind_passport_issuer, kind_phone, kind_pin,
}
use alpha_proxy.Prelude.{Option, none, some, ◌||◌, bytes_eq, if◌then◌else◌}
use alpha_proxy.Rules.Types.{
  EntityType, type_address, type_birth_date, type_birth_place, type_card_number,
  type_cardholder_name, type_citizenship, type_cvv, type_department_code, type_driver_license,
  type_email, type_full_name, type_inn, type_passport, type_passport_issue_date,
  type_passport_issuer, type_phone, type_pin,
}

unfoldable pub map_kind : EntityType → Option PiiKind
map_kind t =
    if bytes_eq t type_full_name
    then some kind_full_name
    else if bytes_eq t type_birth_date || bytes_eq t type_passport_issue_date
    then some kind_date
    else if bytes_eq t type_birth_place
    then some kind_birth_place
    else if bytes_eq t type_passport
    then some kind_passport
    else if bytes_eq t type_citizenship
    then some kind_citizenship
    else if bytes_eq t type_passport_issuer
    then some kind_passport_issuer
    else if bytes_eq t type_department_code
    then some kind_passport_division
    else if bytes_eq t type_driver_license
    then some kind_driver_license
    else if bytes_eq t type_address
    then some kind_address
    else if bytes_eq t type_email
    then some kind_email
    else if bytes_eq t type_phone
    then some kind_phone
    else if bytes_eq t type_inn
    then some kind_inn
    else if bytes_eq t type_card_number
    then some kind_bank_card
    else if bytes_eq t type_cvv
    then some kind_cvv
    else if bytes_eq t type_pin
    then some kind_pin
    else if bytes_eq t type_cardholder_name
    then some kind_card_holder_name
    else none
