-- ===== src/Access/Config.antt =====
-- internal/config/config.go: the configuration and its tests. Durations are nanoseconds. A rate is a
-- rank, or `none` where it is not finite.
pub mod Accounts
use alpha_proxy.Pii.{Result, ok, err, other, guard, ◌>>=◌, ◌>>◌}
use alpha_proxy.Prelude.{
  ℕ, suc, Bytes, codes, List, [], ◌∷◌, Bool, true, false, not, ◌&&◌, ◌||◌, Option, none, some, ◌==◌,
  bytes_eq, if◌then◌else◌,
}
use alpha_proxy.Prelude.Int.{ℤ, pos, ltb_ℤ, leb_ℤ}
use alpha_proxy.Tokenizer.Priority.{one_of}

abbrev pub run_mode_dev : Bytes
run_mode_dev = codes "dev"

abbrev pub run_mode_verify : Bytes
run_mode_verify = codes "verify"

abbrev pub run_mode_final : Bytes
run_mode_final = codes "final"

abbrev pub auth_mode_api_key : Bytes
auth_mode_api_key = codes "api_key"

abbrev pub auth_mode_verify : Bytes
auth_mode_verify = codes "verify"

abbrev pub processor_mock : Bytes
processor_mock = codes "mock"

abbrev pub processor_real : Bytes
processor_real = codes "real"

-- A pointer that may be nil is an option.
pub record System : Type 0 where
  pub id : Bytes
  pub enabled : Bool
  pub api_key : Bytes
  pub mask_kinds : Option (List Bytes)
  pub detokenization_allowed : Option Bool

pub record Config : Type 0 where
  pub addr : Bytes
  pub read_timeout : ℤ
  pub read_header_timeout : ℤ
  pub write_timeout : ℤ
  pub idle_timeout : ℤ
  pub body_limit : ℤ
  pub processing_timeout : ℤ
  pub parallel_limit : ℤ
  pub run_mode : Bytes
  pub auth_mode : Bytes
  pub processor_mode : Bytes
  pub systems : List System
  pub ml_address : Bytes
  pub global_rate_limit_rps : Option ℤ
  pub global_rate_limit_burst : ℤ
  pub consumer_rate_limit_rps : Option ℤ
  pub consumer_rate_limit_burst : ℤ
  pub overload_retry_after : ℤ
  pub metrics_enabled : Bool
  pub shutdown_timeout : ℤ

unfoldable pub validate_rate_limit : Option ℤ → ℤ → Result (Unit {0})
validate_rate_limit none burst = err other
validate_rate_limit (some rps) burst =
    if ltb_ℤ rps (pos 0)
    then err other
    else if ltb_ℤ burst (pos 0)
    then err other
    else if ltb_ℤ (pos 0) rps && leb_ℤ burst (pos 0)
    then err other
    else ok tt

-- The safe combinations of the modes: the second `switch`.
unfoldable pub safe_modes : Bytes → Bytes → Bytes → Bool
safe_modes run auth proc =
    if bytes_eq run run_mode_final
    then bytes_eq auth auth_mode_api_key && bytes_eq proc processor_real
    else if bytes_eq run run_mode_verify
    then bytes_eq auth auth_mode_verify && bytes_eq proc processor_real
    else if bytes_eq run run_mode_dev
    then not (
        bytes_eq proc processor_mock
        && not (bytes_eq auth auth_mode_verify)
        && not (bytes_eq auth auth_mode_api_key))
    else true

unfoldable pub validate_modes : Bytes → Bytes → Bytes → Result (Unit {0})
unfolding safe_modes
validate_modes run auth proc = do
  guard (bytes_eq run run_mode_dev || bytes_eq run run_mode_verify || bytes_eq run run_mode_final)
      other
  guard (bytes_eq auth auth_mode_api_key || bytes_eq auth auth_mode_verify) other
  guard (bytes_eq proc processor_mock || bytes_eq proc processor_real) other
  guard (safe_modes run auth proc) other

-- The loop of `validateSystems`, with the ids and keys seen, and the number of enabled systems.
unfoldable pub validate_systems_from : List Bytes → List Bytes → ℕ → List System → Result ℕ
validate_systems_from ids keys enabled [] = ok enabled
validate_systems_from ids keys enabled (s ∷ systems) = do
  guard (not (bytes_eq s.id [])) other
  guard (not (one_of ids s.id)) other
  guard (not (bytes_eq s.api_key [])) other
  guard (not (one_of keys s.api_key)) other
  validate_systems_from (s.id ∷ ids) (s.api_key ∷ keys) (if s.enabled then suc enabled else enabled)
      systems

unfoldable pub validate_systems : List System → Result (Unit {0})
unfolding validate_systems_from
validate_systems systems = do
  enabled ← validate_systems_from [] [] 0 systems
  guard (not (enabled == 0)) other

unfoldable pub validate_config : Config → Result (Unit {0})
unfolding validate_rate_limit validate_modes validate_systems
validate_config c = do
  guard (not (bytes_eq c.addr [])) other
  guard (not (bytes_eq c.ml_address [])) other
  guard
      (not (
        leb_ℤ c.read_timeout (pos 0)
        || leb_ℤ c.read_header_timeout (pos 0)
        || leb_ℤ c.write_timeout (pos 0)
        || leb_ℤ c.idle_timeout (pos 0)))
      other
  guard (not (leb_ℤ c.body_limit (pos 0))) other
  guard (not (leb_ℤ c.processing_timeout (pos 0))) other
  guard (not (leb_ℤ c.parallel_limit (pos 0))) other
  guard (not (leb_ℤ c.overload_retry_after (pos 0))) other
  guard (not (leb_ℤ c.shutdown_timeout (pos 0))) other
  validate_rate_limit c.global_rate_limit_rps c.global_rate_limit_burst
  validate_rate_limit c.consumer_rate_limit_rps c.consumer_rate_limit_burst
  validate_modes c.run_mode c.auth_mode c.processor_mode
  (if bytes_eq c.auth_mode auth_mode_api_key then validate_systems c.systems else ok tt)
