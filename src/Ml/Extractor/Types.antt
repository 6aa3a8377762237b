-- ===== src/Ml/Extractor/Types.antt =====
-- internal/ml/extractor.go: the entity types that the names of the model stand for.
use alpha_proxy.Prelude.{Bytes, codes, Option, none, some, ◌||◌, bytes_eq, if◌then◌else◌}
use alpha_proxy.Rules.Types.{
  EntityType, type_address, type_apartment, type_birth_date, type_birth_place, type_card_number,
  type_cardholder_name, type_citizenship, type_city, type_country, type_cvv, type_department_code,
  type_district, type_driver_license, type_email, type_full_name, type_house, type_inn,
  type_passport, type_passport_issue_date, type_passport_issuer, type_phone, type_pin,
  type_postal_code, type_region, type_street,
}

unfoldable pub map_ml_type : Bytes → Option EntityType
map_ml_type t =
    if bytes_eq t (codes "full_name")
      || bytes_eq t (codes "first_name")
      || bytes_eq t (codes "last_name")
      || bytes_eq t (codes "patronymic")
    then some type_full_name
    else if bytes_eq t (codes "address")
    then some type_address
    else if bytes_eq t (codes "city")
    then some type_city
    else if bytes_eq t (codes "street")
    then some type_street
    else if bytes_eq t (codes "house")
    then some type_house
    else if bytes_eq t (codes "apartment")
    then some type_apartment
    else if bytes_eq t (codes "postal_code") || bytes_eq t (codes "postcode")
    then some type_postal_code
    else if bytes_eq t (codes "country")
    then some type_country
    else if bytes_eq t (codes "region")
    then some type_region
    else if bytes_eq t (codes "district")
    then some type_district
    else if bytes_eq t (codes "place_of_birth")
    then some type_birth_place
    else if bytes_eq t (codes "citizenship")
    then some type_citizenship
    else if bytes_eq t (codes "passport_issuer")
    then some type_passport_issuer
    else if bytes_eq t (codes "cardholder_name")
    then some type_cardholder_name
    else if bytes_eq t (codes "email")
    then some type_email
    else if bytes_eq t (codes "phone")
    then some type_phone
    else if bytes_eq t (codes "inn")
    then some type_inn
    else if bytes_eq t (codes "passport")
    then some type_passport
    else if bytes_eq t (codes "department_code")
    then some type_department_code
    else if bytes_eq t (codes "driver_license")
    then some type_driver_license
    else if bytes_eq t (codes "cvv")
    then some type_cvv
    else if bytes_eq t (codes "pin")
    then some type_pin
    else if bytes_eq t (codes "card")
    then some type_card_number
    else if bytes_eq t (codes "date") || bytes_eq t (codes "date_of_birth")
    then some type_birth_date
    else if bytes_eq t (codes "passport_issue_date")
    then some type_passport_issue_date
    else none
