-- ===== src/Access/Policies.antt =====
-- internal/policy/provider.go and the policies that cmd/server/main.go builds for it. A policy is a
-- value here, so `clonePolicy` is the identity. The rank of 0.5 is a parameter.
pub mod Own
use alpha_proxy.Access.Auth.{verify_consumer_id}
use alpha_proxy.Access.Config.{System, Config}
use alpha_proxy.Pii.{Ctx, Result, ok, err, other, policy_rejected, ctx_err, Policy, PiiKind, ◌>>=◌}
use alpha_proxy.Prelude.{
  Bytes, List, [], ◌∷◌, Bool, true, false, not, ◌||◌, Option, none, some, bytes_eq, if◌then◌else◌,
}
use alpha_proxy.Prelude.Dict.{lookup, insert}
use alpha_proxy.Prelude.Int.{ℤ}
use alpha_proxy.Processor.Request.{known_kinds}
use alpha_proxy.Tokenizer.Priority.{one_of}

unfoldable pub is_known_pii_kind : PiiKind → Bool
unfolding one_of
is_known_pii_kind kind = one_of known_kinds kind

unfoldable pub all_kinds : PiiKind → Bool
unfolding one_of
all_kinds kind = one_of known_kinds kind

-- The loop over the mask kinds of a system, with the map so far.
unfoldable pub allow_from : (PiiKind → Bool) → List Bytes → Result (PiiKind → Bool)
unfolding is_known_pii_kind
allow_from allowed [] = ok allowed
allow_from allowed (k ∷ ks) =
    if not (is_known_pii_kind k) then err other else allow_from (λ j. bytes_eq k j || allowed j) ks

-- `Get` of the provider.
unfoldable pub get_policy : Ctx → List (Bytes × Policy) → Bytes → Result (Ctx × Policy)
get_policy ctx policies consumer_id = do
  ctx' ← ctx_err ctx
  elim (lookup consumer_id policies) [ none ↦ err policy_rejected | some pol ↦ ok (ctx', pol) ]

-- `NewStaticProvider`: the copy of the map.
unfoldable pub new_static_provider : List (Bytes × Policy) → List (Bytes × Policy)
new_static_provider policies = policies

module _ (half : ℤ) where
  unfoldable pub base_policy : (PiiKind → Bool) → Bool → Policy
  base_policy allowed detokenization = record {
    allowed_kinds = allowed;
    detokenization_allowed = detokenization;
    min_confidence = half;
    masking_strategy = [];
    allow_partial_result = false;
  }

  unfoldable pub system_policy : System → Result Policy
  unfolding base_policy all_kinds allow_from
  system_policy s =
      let detokenization : Bool = elim s.detokenization_allowed [
        | none ↦ true
        | some allowed ↦ allowed
      ] in
      elim s.mask_kinds [
        | none ↦ ok (base_policy all_kinds detokenization)
        | some kinds ↦
            (allow_from (λ _. false) kinds >>= λ allowed. ok (base_policy allowed detokenization))
      ]

  unfoldable pub add_policies : List (Bytes × Policy) → List System → Result (List (Bytes × Policy))
  unfolding system_policy
  add_policies policies [] = ok policies
  add_policies policies (s ∷ systems) =
      let skipped = add_policies policies systems in
      if not s.enabled
      then skipped
      else (system_policy s >>= λ pol. add_policies (insert s.id pol policies) systems)

  unfoldable pub build_policies : Config → Result (List (Bytes × Policy))
  unfolding add_policies base_policy all_kinds
  build_policies cfg =
      add_policies ((verify_consumer_id, base_policy all_kinds true) ∷ []) cfg.systems
