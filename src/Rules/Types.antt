-- ===== src/Rules/Types.antt =====
-- internal/entity/entity.go: the types of the entities that the rule engine and the model find.
use alpha_proxy.Prelude.{Bytes, codes, List, [], ◌∷◌}

abbrev pub EntityType : Type 0
EntityType = Bytes

abbrev pub type_full_name : EntityType
type_full_name = codes "FULL_NAME"

abbrev pub type_birth_date : EntityType
type_birth_date = codes "BIRTH_DATE"

abbrev pub type_birth_place : EntityType
type_birth_place = codes "BIRTH_PLACE"

abbrev pub type_passport : EntityType
type_passport = codes "PASSPORT"

abbrev pub type_citizenship : EntityType
type_citizenship = codes "CITIZENSHIP"

abbrev pub type_passport_issuer : EntityType
type_passport_issuer = codes "PASSPORT_ISSUER"

abbrev pub type_department_code : EntityType
type_department_code = codes "DEPARTMENT_CODE"

abbrev pub type_passport_issue_date : EntityType
type_passport_issue_date = codes "PASSPORT_ISSUE_DATE"

abbrev pub type_driver_license : EntityType
type_driver_license = codes "DRIVER_LICENSE"

abbrev pub type_address : EntityType
type_address = codes "ADDRESS"

abbrev pub type_email : EntityType
type_email = codes "EMAIL"

abbrev pub type_phone : EntityType
type_phone = codes "PHONE"

abbrev pub type_inn : EntityType
type_inn = codes "INN"

abbrev pub type_card_number : EntityType
type_card_number = codes "CARD_NUMBER"

abbrev pub type_cvv : EntityType
type_cvv = codes "CVV"

abbrev pub type_pin : EntityType
type_pin = codes "PIN"

abbrev pub type_cardholder_name : EntityType
type_cardholder_name = codes "CARDHOLDER_NAME"

abbrev pub type_country : EntityType
type_country = codes "COUNTRY"

abbrev pub type_region : EntityType
type_region = codes "REGION"

abbrev pub type_district : EntityType
type_district = codes "DISTRICT"

abbrev pub type_city : EntityType
type_city = codes "CITY"

abbrev pub type_street : EntityType
type_street = codes "STREET"

abbrev pub type_house : EntityType
type_house = codes "HOUSE"

abbrev pub type_apartment : EntityType
type_apartment = codes "APARTMENT"

abbrev pub type_postal_code : EntityType
type_postal_code = codes "POSTAL_CODE"

unfoldable pub all_types : List EntityType
all_types =
    type_full_name ∷ type_birth_date ∷ type_birth_place ∷ type_passport ∷ type_citizenship
    ∷ type_passport_issuer ∷ type_department_code ∷ type_passport_issue_date ∷ type_driver_license
    ∷ type_address ∷ type_email ∷ type_phone ∷ type_inn ∷ type_card_number ∷ type_cvv ∷ type_pin
    ∷ type_cardholder_name ∷ type_country ∷ type_region ∷ type_district ∷ type_city ∷ type_street
    ∷ type_house ∷ type_apartment ∷ type_postal_code ∷ []
