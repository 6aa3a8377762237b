-- ===== src/Access/Auth.antt =====
-- internal/auth/auth.go: a request's consumer. The SHA-256 fingerprint is a parameter.
pub mod Known
use alpha_proxy.Access.Config.{System, Config, auth_mode_verify}
use alpha_proxy.Prelude.{
  ℕ, Bytes, codes, List, [], ◌∷◌, Bool, true, false, not, Option, none, some, bytes_eq,
  if◌then◌else◌,
}
use alpha_proxy.Prelude.Dict.{lookup, insert}

abbrev pub verify_consumer_id : Bytes
verify_consumer_id = codes "verify"

pub record Authenticator : Type 0 where
  pub mode : Bytes
  pub by_fp : List (Bytes × Bytes)
  pub enabled : List (Bytes × Bool)

module _ (fingerprint : Bytes → Bytes) where
  unfoldable pub add_systems : Authenticator → List System → Authenticator
  add_systems a [] = a
  add_systems a (s ∷ systems) =
      add_systems
        (record a {
          by_fp = insert (fingerprint s.api_key) s.id a.by_fp;
          enabled = insert s.id s.enabled a.enabled;
        })
        systems

  -- `New`.
  unfoldable pub new_authenticator : Config → Authenticator
  unfolding add_systems
  new_authenticator cfg =
      add_systems (record { mode = cfg.auth_mode; by_fp = []; enabled = [] }) cfg.systems

  -- The consumer and an HTTP status, which is 0 on success, for the header `X-API-Key`.
  unfoldable pub authenticate : Authenticator → Bytes → Bytes × ℕ
  authenticate a key =
      if bytes_eq a.mode auth_mode_verify
      then (verify_consumer_id, 0)
      else if bytes_eq key []
      then ([], 401)
      else elim (lookup (fingerprint key) a.by_fp) [
        | none ↦ ([], 401)
        | some id ↦ elim (lookup id a.enabled) [
          | some true ↦ (id, 0)
          | some false ↦ ([], 403)
          | none ↦ ([], 403)
        ]
      ]
