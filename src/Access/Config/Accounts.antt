-- ===== src/Access/Config/Accounts.antt =====
-- Systems that the configuration's tests accept.
use alpha_proxy.Access.Config.{System, validate_systems_from, validate_systems}
use alpha_proxy.Pii.{ok, other, guard, >>=-eq-ok}
use alpha_proxy.Prelude.{
  ℕ, suc, Bytes, List, [], ◌∷◌, false, not, ◌≡◌, arith, All, bytes_eq, if◌then◌else◌,
}
use alpha_proxy.Tokenizer.Priority.{one_of}

-- No two systems have one id or one key, and none has an empty key.
pub record Alone (s : System) (systems : List System) : Type 0 where
  pub some_key : bytes_eq s.api_key [] ≡ false
  pub id : All (λ q. bytes_eq s.id q.id ≡ false) systems
  pub key : All (λ q. bytes_eq s.api_key q.api_key ≡ false) systems

unfoldable pub Accounts : List System → Type 0
Accounts [] = Unit
Accounts (s ∷ systems) = Alone s systems × Accounts systems

record Unseen (ids keys : List Bytes) (systems : List System) : Type 0 where
  new_ids : All (λ s. one_of ids s.id ≡ false) systems
  new_keys : All (λ s. one_of keys s.api_key ≡ false) systems
  accounts : Accounts systems

split_id :
    (id : Bytes) (ids : List Bytes) (systems : List System)
    → All (λ s. one_of (id ∷ ids) s.id ≡ false) systems
    → All (λ s. bytes_eq id s.id ≡ false) systems × All (λ s. one_of ids s.id ≡ false) systems
unfolding one_of
split_id id ids [] h = (tt, tt)
split_id id ids (s ∷ systems) (h, hs) =
    let rest = split_id id ids systems hs in ((ground arith, rest.0), (ground arith, rest.1))

split_key :
    (key : Bytes) (keys : List Bytes) (systems : List System)
    → All (λ s. one_of (key ∷ keys) s.api_key ≡ false) systems
    → All (λ s. bytes_eq key s.api_key ≡ false) systems
      × All (λ s. one_of keys s.api_key ≡ false) systems
unfolding one_of
split_key key keys [] h = (tt, tt)
split_key key keys (s ∷ systems) (h, hs) =
    let rest = split_key key keys systems hs in ((ground arith, rest.0), (ground arith, rest.1))

validate_systems_from-Unseen :
    (ids keys : List Bytes) (enabled : ℕ) (systems : List System) {n : ℕ}
    → validate_systems_from ids keys enabled systems ≡ ok n
    → Unseen ids keys systems
unfolding validate_systems_from Accounts
validate_systems_from-Unseen ids keys enabled [] h = record {
  new_ids = tt;
  new_keys = tt;
  accounts = tt;
}
validate_systems_from-Unseen ids keys enabled (s ∷ systems) h =
    let (u₁, h₁, k₁) = >>=-eq-ok (guard (not (bytes_eq s.id [])) other) _ h in
    let (u₂, h₂, k₂) = >>=-eq-ok (guard (not (one_of ids s.id)) other) _ k₁ in
    let (u₃, h₃, k₃) = >>=-eq-ok (guard (not (bytes_eq s.api_key [])) other) _ k₂ in
    let (u₄, h₄, k₄) = >>=-eq-ok (guard (not (one_of keys s.api_key)) other) _ k₃ in
    let rest =
      validate_systems_from-Unseen (s.id ∷ ids) (s.api_key ∷ keys)
        (if s.enabled then suc enabled else enabled) systems k₄ in
    let (id, ids') = split_id s.id ids systems rest.new_ids in
    let (key, keys') = split_key s.api_key keys systems rest.new_keys in
    record {
      new_ids = (ground arith, ids');
      new_keys = (ground arith, keys');
      accounts = (record { some_key = ground arith; id = id; key = key }, rest.accounts);
    }

-- Systems that `validateSystems` accepts have different ids and different keys, none of them empty.
pub validate_systems-Accounts :
    (systems : List System) → validate_systems systems ≡ ok tt → Accounts systems
unfolding validate_systems
validate_systems-Accounts systems h =
    let (n, h₁, k₁) = >>=-eq-ok (validate_systems_from [] [] 0 systems) _ h in
    let unseen = validate_systems_from-Unseen [] [] 0 systems h₁ in unseen.accounts
