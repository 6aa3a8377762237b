-- ===== src/Access/Auth/Known.antt =====
-- Authentication, and the system that a key belongs to.
use alpha_proxy.Access.Auth.{Authenticator, add_systems, new_authenticator, authenticate}
use alpha_proxy.Access.Config.{System, Config, auth_mode_verify, validate_systems}
use alpha_proxy.Access.Config.Accounts.{Accounts, validate_systems-Accounts}
use alpha_proxy.Pii.{ok}
use alpha_proxy.Prelude.{
  ℕ, Bytes, List, [], ◌∷◌, true, false, Option, none, some, ◌≡◌, refl, ap, subst, ◌∙◌, arith, All,
  bytes_eq, bytes_eq_iff, bytes_eq_refl, if◌then◌else◌, Bool-cases, Option-cases, inl, inr,
}
use alpha_proxy.Prelude.Dict.{lookup, insert, lookup-insert}

-- The system with a key.
unfoldable pub system_of : Bytes → List System → Option System
system_of key [] = none
system_of key (s ∷ systems) = if bytes_eq s.api_key key then some s else system_of key systems

-- What a request with a key should get.
unfoldable pub verdict : Option System → Bytes × ℕ
verdict none = ([], 401)
verdict (some s) = if s.enabled then (s.id, 0) else ([], 403)

system_of-others :
    (key : Bytes) (s : System) (systems : List System)
    → bytes_eq s.api_key key ≡ true
    → All (λ q. bytes_eq s.api_key q.api_key ≡ false) systems
    → system_of key systems ≡ none
unfolding system_of
system_of-others key s [] e h = refl
system_of-others key s (q ∷ systems) e (h, hs) =
    let same = (bytes_eq_iff s.api_key key).0 e in
    let rest = system_of-others key s systems e hs in
    ground (arith, bytes_eq_iff q.api_key key, bytes_eq_iff s.api_key q.api_key)

module _ (fingerprint : Bytes → Bytes) where
  -- No other key has the fingerprint of a system's key.
  abbrev pub NoCollision : Bytes → List System → Type 0
  NoCollision key systems =
      All (λ s. bytes_eq (fingerprint s.api_key) (fingerprint key) ≡ bytes_eq s.api_key key) systems

  by_fp-add :
      (a : Authenticator) (key : Bytes) (systems : List System)
      → NoCollision key systems
      → Accounts systems
      → lookup (fingerprint key) (add_systems fingerprint a systems).by_fp
        ≡ elim (system_of key systems) [
          | none ↦ lookup (fingerprint key) a.by_fp
          | some s ↦ some s.id
        ]
  unfolding add_systems system_of Accounts
  by_fp-add a key [] c h = refl
  by_fp-add a key (s ∷ systems) (c, cs) (h, hs) =
      let step = lookup-insert (fingerprint s.api_key) (fingerprint key) s.id a.by_fp in
      let rest =
        by_fp-add
          (record a {
            by_fp = insert (fingerprint s.api_key) s.id a.by_fp;
            enabled = insert s.id s.enabled a.enabled;
          })
          key systems cs hs in
      elim (Bool-cases (bytes_eq s.api_key key)) [
        | inl y ↦
            let none_else = system_of-others key s systems y h.key in
            rest ∙ rw (none_else, y) (step ∙ rw (c, y) refl)
        | inr n ↦
            rest
            ∙ rw n (
                ap (λ l. elim (system_of key systems) [ none ↦ l | some q ↦ some q.id ])
                  (step ∙ rw (c, n) refl))
      ]

  -- A later system with another id leaves the entry.
  enabled-still :
      (a : Authenticator) (id : Bytes) (systems : List System)
      → All (λ q. bytes_eq id q.id ≡ false) systems
      → lookup id (add_systems fingerprint a systems).enabled ≡ lookup id a.enabled
  unfolding add_systems
  enabled-still a id [] h = refl
  enabled-still a id (q ∷ systems) (h, hs) =
      let unlike : bytes_eq q.id id ≡ false =
        ground (arith, bytes_eq_iff id q.id, bytes_eq_iff q.id id) in
      enabled-still
        (record a {
          by_fp = insert (fingerprint q.api_key) q.id a.by_fp;
          enabled = insert q.id q.enabled a.enabled;
        })
        id systems hs
      ∙ lookup-insert q.id id q.enabled a.enabled
      ∙ rw unlike refl

  enabled-add :
      (a : Authenticator) (systems : List System)
      → Accounts systems
      → All (λ s. lookup s.id (add_systems fingerprint a systems).enabled ≡ some s.enabled) systems
  unfolding add_systems Accounts
  enabled-add a [] h = tt
  enabled-add a (s ∷ systems) (h, hs) =
      let next : Authenticator = record a {
        by_fp = insert (fingerprint s.api_key) s.id a.by_fp;
        enabled = insert s.id s.enabled a.enabled;
      } in
      (
        enabled-still next s.id systems h.id
            ∙ lookup-insert s.id s.id s.enabled a.enabled
            ∙ rw (bytes_eq_refl s.id) refl,
        enabled-add next systems hs,
      )

  mode-add :
      (a : Authenticator) (systems : List System)
      → (add_systems fingerprint a systems).mode ≡ a.mode
  unfolding add_systems
  mode-add a [] = refl
  mode-add a (s ∷ systems) =
      mode-add
        (record a {
          by_fp = insert (fingerprint s.api_key) s.id a.by_fp;
          enabled = insert s.id s.enabled a.enabled;
        })
        systems

  system_of-All :
      (P : System → Type 0) (key : Bytes) (systems : List System) {s : System}
      → system_of key systems ≡ some s
      → All P systems
      → P s
  unfolding system_of
  system_of-All P key [] e h = cc
  system_of-All P key (q ∷ systems) {s = s} e (h, hs) = elim (Bool-cases (bytes_eq q.api_key key)) [
    | inl y ↦ let same : q ≡ s = ground arith in subst P same h
    | inr n ↦ system_of-All P key systems (rw n at e) hs
  ]

  system_of-no_key : (systems : List System) → Accounts systems → system_of [] systems ≡ none
  unfolding system_of Accounts
  system_of-no_key [] h = refl
  system_of-no_key (s ∷ systems) (h, hs) = rw h.some_key (system_of-no_key systems hs)

  -- With systems that the configuration's tests accept and outside the verification mode, a request
  -- gets the consumer of the one system that has its key, if that system is enabled, and otherwise
  -- the status 403; a request with no key or with a key of no system gets the status 401; if no
  -- other key has the fingerprint of a configured key.
  pub authenticate-verdict :
      (cfg : Config) (key : Bytes)
      → bytes_eq cfg.auth_mode auth_mode_verify ≡ false
      → validate_systems cfg.systems ≡ ok tt
      → NoCollision key cfg.systems
      → authenticate fingerprint (new_authenticator fingerprint cfg) key
        ≡ verdict (system_of key cfg.systems)
  unfolding new_authenticator verdict authenticate system_of lookup
  authenticate-verdict cfg key m v c =
      let empty : Authenticator = record { mode = cfg.auth_mode; by_fp = []; enabled = [] } in
      let accounts = validate_systems-Accounts cfg.systems v in
      let mode = mode-add empty cfg.systems in
      let by = by_fp-add empty key cfg.systems c accounts in
      elim (Bool-cases (bytes_eq key [])) [
        | inl y ↦
            let no_key = (bytes_eq_iff key []).0 y in
            rw (authenticate, mode, m, y) (rw (no_key, system_of-no_key cfg.systems accounts) refl)
        | inr n ↦ elim (Option-cases (system_of key cfg.systems)) [
          | inl none_found ↦
              let by' = rw none_found at by in rw (authenticate, mode, m, n, by', none_found) refl
          | inr (s, found) ↦
              let by' = rw found at by in
              let enabled =
                system_of-All
                  (λ q.
                    lookup q.id (add_systems fingerprint empty cfg.systems).enabled
                    ≡ some q.enabled)
                  key cfg.systems found (enabled-add empty cfg.systems accounts) in
              elim (Bool-cases s.enabled) [
                | inl on ↦ rw (authenticate, mode, m, n, by', enabled, found, on) refl
                | inr off ↦ rw (authenticate, mode, m, n, by', enabled, found, off) refl
              ]
        ]
      ]
