-- ===== src/Access/Policies/Own.antt =====
-- The policies that `buildPolicies` makes of the systems of the configuration, and their settings.
use alpha_proxy.Access.Auth.{verify_consumer_id}
use alpha_proxy.Access.Config.{System, Config, validate_systems}
use alpha_proxy.Access.Config.Accounts.{Accounts, validate_systems-Accounts}
use alpha_proxy.Access.Policies.{
  add_policies, allow_from, is_known_pii_kind, build_policies, system_policy, base_policy,
  all_kinds, new_static_provider,
}
use alpha_proxy.Pii.{ok, Policy, PiiKind, ◌>>=◌, >>=-eq-ok}
use alpha_proxy.Prelude.{
  Bytes, List, [], ◌∷◌, Bool, Option, Option-cases, ◌||◌, true, false, not, none, some, ◌≡◌, refl,
  sym, ap, subst, ◌∙◌, arith, All, bytes_eq, bytes_eq_iff, bytes_eq_refl, if◌then◌else◌, Bool-cases,
  inl, inr,
}
use alpha_proxy.Prelude.Dict.{lookup, insert, lookup-insert}
use alpha_proxy.Prelude.Int.{ℤ}
use alpha_proxy.Processor.Request.{known_kinds}
use alpha_proxy.Tokenizer.Priority.{one_of}

-- What a policy says of demasking: the system's own setting, or that it is allowed.
unfoldable pub AllowsDemasking : Option Bool → Bool → Type 0
AllowsDemasking none allowed = allowed ≡ true
AllowsDemasking (some setting) allowed = allowed ≡ setting

-- Which kinds a policy permits: those that the system lists, each of them a known one, or all known
-- kinds.
unfoldable pub Permits : Option (List Bytes) → (PiiKind → Bool) → Type 0
Permits none allowed = (k : PiiKind) → allowed k ≡ one_of known_kinds k
Permits (some kinds) allowed =
    All (λ k. one_of known_kinds k ≡ true) kinds × ((k : PiiKind) → allowed k ≡ one_of kinds k)

allow_from-permits :
    (allowed : PiiKind → Bool) (kinds : List Bytes) {out : PiiKind → Bool}
    → allow_from allowed kinds ≡ ok out
    → All (λ k. one_of known_kinds k ≡ true) kinds
      × ((k : PiiKind) → out k ≡ (one_of kinds k || allowed k))
unfolding allow_from one_of is_known_pii_kind
allow_from-permits allowed [] {out = out} h =
    let same : allowed ≡ out = cc in (tt, λ k. ap (λ (f : PiiKind → Bool). f k) (sym same))
allow_from-permits allowed (j ∷ kinds) h = elim (Bool-cases (is_known_pii_kind j)) [
  | inr n ↦ let bad = rw n at h in cc
  | inl y ↦
      let (known, permits) =
        allow_from-permits (λ i. bytes_eq j i || allowed i) kinds (rw y at h) in
      ((y, known), λ k. permits k ∙ ground arith)
]

module _ (half : ℤ) where
  -- The policy that the settings of a system ask for.
  pub record FollowsSettings (s : System) (pol : Policy) : Type 0 where
    pub demasking : AllowsDemasking s.detokenization_allowed pol.detokenization_allowed
    pub kinds : Permits s.mask_kinds pol.allowed_kinds
    pub threshold : pol.min_confidence ≡ half
    pub strategy : pol.masking_strategy ≡ []
    pub whole : pol.allow_partial_result ≡ false

  setting-allows :
      (setting : Option Bool)
      → AllowsDemasking setting (elim setting [ none ↦ true | some allowed ↦ allowed ])
  unfolding AllowsDemasking
  setting-allows none = refl
  setting-allows (some allowed) = refl

  base_policy-FollowsSettings :
      (s : System) (allowed : PiiKind → Bool)
      → Permits s.mask_kinds allowed
      → FollowsSettings s (
          base_policy half allowed
            (elim s.detokenization_allowed [ none ↦ true | some setting ↦ setting ]))
  unfolding base_policy
  base_policy-FollowsSettings s allowed p = record {
    demasking = setting-allows s.detokenization_allowed;
    kinds = p;
    threshold = refl;
    strategy = refl;
    whole = refl;
  }

  system_policy-FollowsSettings :
      (s : System) {pol : Policy} → system_policy half s ≡ ok pol → FollowsSettings s pol
  unfolding system_policy Permits all_kinds
  system_policy-FollowsSettings s {pol = pol} h =
      let demasking : Bool = elim s.detokenization_allowed [
        | none ↦ true
        | some setting ↦ setting
      ] in
      elim (Option-cases s.mask_kinds) [
        | inl e ↦
            let run = rw (system_policy, e) at h in
            let same : base_policy half all_kinds demasking ≡ pol = cc in
            subst (FollowsSettings s) same (
              base_policy-FollowsSettings s all_kinds
                (subst (λ m. Permits m all_kinds) (sym e) (λ k. refl)))
        | inr (kinds, e) ↦
            let run = rw (system_policy, e) at h in
            let (allowed, h₁, k₁) = >>=-eq-ok (allow_from (λ _. false) kinds) _ run in
            let (known, permits) = allow_from-permits (λ _. false) kinds h₁ in
            let same : base_policy half allowed demasking ≡ pol = cc in
            subst (FollowsSettings s) same (
              base_policy-FollowsSettings s allowed
                (subst (λ m. Permits m allowed) (sym e) (known, λ k. permits k ∙ ground arith)))
      ]

  -- An enabled system has its policy, and a disabled one that has not the id of the verification
  -- mode's consumer is rejected.
  pub record HasOwn (policies : List (Bytes × Policy)) (s : System) : Type 0 where
    pub on :
        s.enabled ≡ true
        → (pol : Policy) × FollowsSettings s pol × (lookup s.id policies ≡ some pol)
    pub off :
        s.enabled ≡ false → bytes_eq verify_consumer_id s.id ≡ false → lookup s.id policies ≡ none

  add_policies-test :
      (policies : List (Bytes × Policy)) (s : System) (systems : List System)
      → s.enabled ≡ true
      → add_policies half policies (s ∷ systems)
        ≡ (system_policy half s >>= λ pol. add_policies half (insert s.id pol policies) systems)
  unfolding add_policies
  add_policies-test policies s systems on =
      ap
        (λ b.
          if not b
          then add_policies half policies systems
          else (system_policy half s >>= λ pol.
              add_policies half (insert s.id pol policies) systems))
        on

  -- Systems with other ids leave the entry.
  add_policies-still :
      (policies : List (Bytes × Policy)) (id : Bytes) (systems : List System)
      {out : List (Bytes × Policy)}
      → All (λ q. bytes_eq id q.id ≡ false) systems
      → add_policies half policies systems ≡ ok out
      → lookup id out ≡ lookup id policies
  unfolding add_policies
  add_policies-still policies id [] {out = out} h e = let same : policies ≡ out = cc in rw same refl
  add_policies-still policies id (q ∷ systems) {out = out} (h, hs) e = elim (Bool-cases q.enabled) [
    | inr off ↦
        let run = rw (add_policies, off) at e in add_policies-still policies id systems hs run
    | inl on ↦
        let run = sym (add_policies-test policies q systems on) ∙ e in
        let (pol, h₁, k₁) = >>=-eq-ok (system_policy half q) _ run in
        let unlike : bytes_eq q.id id ≡ false =
          ground (arith, bytes_eq_iff id q.id, bytes_eq_iff q.id id) in
        add_policies-still (insert q.id pol policies) id systems hs k₁
        ∙ lookup-insert q.id id pol policies
        ∙ rw unlike refl
  ]

  fresh_still :
      (s : System) (pol : Policy) (policies : List (Bytes × Policy)) (systems : List System)
      → All (λ q. bytes_eq s.id q.id ≡ false) systems
      → All (λ q. bytes_eq verify_consumer_id q.id ≡ false → lookup q.id policies ≡ none) systems
      → All
          (λ q.
            bytes_eq verify_consumer_id q.id ≡ false
            → lookup q.id (insert s.id pol policies) ≡ none)
          systems
  fresh_still s pol policies [] h f = tt
  fresh_still s pol policies (q ∷ systems) (h, hs) (f, fs) = (
    λ v. lookup-insert s.id q.id pol policies ∙ rw h (f v),
    fresh_still s pol policies systems hs fs,
  )

  add_policies-HasOwn :
      (policies : List (Bytes × Policy)) (systems : List System) {out : List (Bytes × Policy)}
      → Accounts systems
      → All (λ s. bytes_eq verify_consumer_id s.id ≡ false → lookup s.id policies ≡ none) systems
      → add_policies half policies systems ≡ ok out
      → All (HasOwn out) systems
  unfolding add_policies Accounts
  add_policies-HasOwn policies [] h f e = tt
  add_policies-HasOwn policies (s ∷ systems) (h, hs) (f, fs) e = elim (Bool-cases s.enabled) [
    | inr off ↦
        let run = rw (add_policies, off) at e in
        (
          record {
            on = λ y. cc;
            off = λ _ v. add_policies-still policies s.id systems h.id run ∙ f v;
          },
          add_policies-HasOwn policies systems hs fs run,
        )
    | inl on ↦
        let run = sym (add_policies-test policies s systems on) ∙ e in
        let (pol, h₁, k₁) = >>=-eq-ok (system_policy half s) _ run in
        (
          record {
            on = λ _. (
              pol,
              system_policy-FollowsSettings s h₁,
              add_policies-still (insert s.id pol policies) s.id systems h.id k₁
                  ∙ lookup-insert s.id s.id pol policies
                  ∙ rw (bytes_eq_refl s.id) refl,
            );
            off = λ n. cc;
          },
          add_policies-HasOwn (insert s.id pol policies) systems hs
              (fresh_still s pol policies systems h.id fs) k₁,
        )
  ]

  only_verify :
      (pol : Policy) (systems : List System)
      → All
          (λ s.
            bytes_eq verify_consumer_id s.id ≡ false
            → lookup s.id ((verify_consumer_id, pol) ∷ []) ≡ none)
          systems
  unfolding lookup
  only_verify pol [] = tt
  only_verify pol (s ∷ systems) = ((λ v. rw v refl), only_verify pol systems)

  -- Where the server starts with systems that the configuration's tests accept, the policy of each
  -- enabled system permits demasking as its own setting says, and by default, permits exactly the
  -- kinds that it lists, all of which are known, or all known kinds by default, and has the default
  -- threshold; and a disabled system has none, unless its id is that of the verification mode's
  -- consumer.
  pub build_policies-HasOwn :
      (cfg : Config) (policies : List (Bytes × Policy))
      → validate_systems cfg.systems ≡ ok tt
      → build_policies half cfg ≡ ok policies
      → All (HasOwn (new_static_provider policies)) cfg.systems
  unfolding build_policies new_static_provider
  build_policies-HasOwn cfg policies v e =
      add_policies-HasOwn ((verify_consumer_id, base_policy half all_kinds true) ∷ []) cfg.systems
        (validate_systems-Accounts cfg.systems v)
        (only_verify (base_policy half all_kinds true) cfg.systems) e
