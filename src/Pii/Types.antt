-- ===== src/Pii/Types.antt =====
-- internal/pii/types.go, detector.go, policy.go. An offset is a Go `int`, so a ℤ. A confidence is a
-- float64 that the code only compares: it is kept as its rank among the float64 values, with 0.0
-- at rank 0 (a NaN, which no comparison orders, has no rank). Times are nanoseconds since the zero
-- `time.Time`.
use alpha_proxy.Prelude.{ℕ, Bool, Bytes, List, codes}
use alpha_proxy.Prelude.Int.{ℤ}

-- `type PIIKind string` and its constants.
abbrev pub PiiKind : Type 0
PiiKind = Bytes

abbrev pub kind_full_name : PiiKind
kind_full_name = codes "full_name"

abbrev pub kind_first_name : PiiKind
kind_first_name = codes "first_name"

abbrev pub kind_last_name : PiiKind
kind_last_name = codes "last_name"

abbrev pub kind_middle_name : PiiKind
kind_middle_name = codes "patronymic"

abbrev pub kind_address : PiiKind
kind_address = codes "address"

abbrev pub kind_city : PiiKind
kind_city = codes "city"

abbrev pub kind_street : PiiKind
kind_street = codes "street"

abbrev pub kind_house : PiiKind
kind_house = codes "house"

abbrev pub kind_apartment : PiiKind
kind_apartment = codes "apartment"

abbrev pub kind_birth_place : PiiKind
kind_birth_place = codes "place_of_birth"

abbrev pub kind_citizenship : PiiKind
kind_citizenship = codes "citizenship"

abbrev pub kind_passport_issuer : PiiKind
kind_passport_issuer = codes "passport_issuer"

abbrev pub kind_card_holder_name : PiiKind
kind_card_holder_name = codes "cardholder_name"

abbrev pub kind_email : PiiKind
kind_email = codes "email"

abbrev pub kind_phone : PiiKind
kind_phone = codes "phone"

abbrev pub kind_inn : PiiKind
kind_inn = codes "inn"

abbrev pub kind_bank_card : PiiKind
kind_bank_card = codes "card"

abbrev pub kind_passport : PiiKind
kind_passport = codes "passport"

abbrev pub kind_passport_division : PiiKind
kind_passport_division = codes "department_code"

abbrev pub kind_date : PiiKind
kind_date = codes "date"

abbrev pub kind_driver_license : PiiKind
kind_driver_license = codes "driver_license"

abbrev pub kind_cvv : PiiKind
kind_cvv = codes "cvv"

abbrev pub kind_pin : PiiKind
kind_pin = codes "pin"

abbrev pub kind_postal_code : PiiKind
kind_postal_code = codes "postal_code"

abbrev pub kind_country : PiiKind
kind_country = codes "country"

abbrev pub kind_region : PiiKind
kind_region = codes "region"

abbrev pub kind_district : PiiKind
kind_district = codes "district"

-- `type Source string` and its constants.
abbrev pub Source : Type 0
Source = Bytes

abbrev pub source_ml : Source
source_ml = codes "ml"

abbrev pub source_reg : Source
source_reg = codes "regex"

pub record Entity : Type 0 where
  pub kind : PiiKind
  pub start : ℤ
  pub end : ℤ
  pub confidence : ℤ
  pub source : Source

pub record Replacement : Type 0 where
  pub start : ℤ
  pub end : ℤ
  pub token : Bytes
  pub original : Bytes
  pub kind : PiiKind
  pub source : Source
  pub confidence : ℤ

pub record TokenMapping : Type 0 where
  pub token : Bytes
  pub original : Bytes
  pub kind : PiiKind
  pub source : Source
  pub start : ℤ
  pub end : ℤ

-- `unknown` stands for every other string.
pub data SessionStatus : Type 0 where
  processing ready failed unknown : SessionStatus

pub record Session : Type 0 where
  pub payload_id : Bytes
  pub payload_hash : Bytes
  pub mappings : List TokenMapping
  pub status : SessionStatus
  pub created_at : ℕ
  pub expires_at : ℕ
  pub mask_kinds_set : Bool
  pub mask_kinds : List PiiKind

-- `AllowedKinds` is a map to bool: a kind that is missing reads as false.
pub record Policy : Type 0 where
  pub allowed_kinds : PiiKind → Bool
  pub detokenization_allowed : Bool
  pub min_confidence : ℤ
  pub masking_strategy : Bytes
  pub allow_partial_result : Bool
