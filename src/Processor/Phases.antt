-- ===== src/Processor/Phases.antt =====
-- The two later phases of `Process` on a session that is ready, and how a request narrows the policy.
use alpha_proxy.Pii.{Ctx, background, ok, Policy, Replacement, Session, SessionStatus, PiiKind}
use alpha_proxy.Prelude.{
  Bytes, List, [], ◌∷◌, All, Bool, true, false, not, ◌≡◌, refl, arith, ◌||◌, ◌&&◌, ap, sym,
  bytes_eq, bytes_eq_refl, bytes_eq_iff,
}
use alpha_proxy.Processor.{handle_ready, handle_existing, known_token}
use alpha_proxy.Processor.Request.{
  ProcessRequest, apply_mask_kinds, narrow_from, is_known_kind, mask_kinds_match,
}
use alpha_proxy.Processor.Retry.{apply_replacements-replay}
use alpha_proxy.Tokenizer.Apply.{apply_replacements}
use alpha_proxy.Tokenizer.Detokenizer.Tokens.{IsTokenText, NoToken}
use alpha_proxy.Tokenizer.Priority.{one_of}
use alpha_proxy.Tokenizer.RoundTrip.{detokenize-apply_replacements}

narrow_from-allowed :
    (policy : Policy) (allowed : PiiKind → Bool) (kinds : List Bytes) {p : Policy}
    → narrow_from policy allowed kinds ≡ ok p
    → (k : PiiKind)
    → (p.allowed_kinds k ≡ (one_of kinds k || allowed k))
      × (one_of kinds k ≡ true → policy.allowed_kinds k ≡ true)
unfolding narrow_from one_of
narrow_from-allowed policy allowed [] {p} h k =
    let e : record policy { allowed_kinds = allowed } ≡ p = cc in
    (ap (λ q. Policy.allowed_kinds q k) (sym e), λ f. cc)
narrow_from-allowed policy allowed (j ∷ js) {p} h k =
    let known : is_known_kind j ≡ true = ground arith in
    let own : policy.allowed_kinds j ≡ true = ground arith in
    let rest : narrow_from policy (λ i. bytes_eq j i || allowed i) js ≡ ok p = ground arith in
    let (e, f) = narrow_from-allowed policy (λ i. bytes_eq j i || allowed i) js rest k in
    ground (arith, bytes_eq_iff j k)

-- The policy of a request with mask kinds permits exactly those kinds, and the consumer's policy
-- permits each of them.
pub apply_mask_kinds-narrows :
    (policy : Policy) (kinds : List Bytes) {p : Policy}
    → apply_mask_kinds policy kinds ≡ ok p
    → (k : PiiKind)
    → (p.allowed_kinds k ≡ one_of kinds k)
      × (p.allowed_kinds k ≡ true → policy.allowed_kinds k ≡ true)
unfolding apply_mask_kinds
apply_mask_kinds-narrows policy kinds {p} h k =
    let (e, f) = narrow_from-allowed policy (λ _. false) kinds h k in ground arith

module _ (sha256 : Bytes → Bytes) where
  -- A retry gets the same masked text: the session is ready, its hash is that of the payload, the
  -- mask kinds match, and its mappings are those that masking the payload returned; the context
  -- does not end.
  pub handle_existing-retry :
      (ctx : Ctx) (req : ProcessRequest) (session : Session) (policy : Policy)
      (rs : List Replacement) {c : Ctx} {masked : Bytes}
      → session.status ≡ SessionStatus.ready
      → session.payload_hash ≡ sha256 req.payload
      → mask_kinds_match session req ≡ true
      → apply_replacements ctx req.payload rs ≡ ok (c, masked, session.mappings)
      → handle_existing sha256 background req session policy ≡ ok masked
  unfolding handle_existing handle_ready mask_kinds_match
  handle_existing-retry ctx req session policy rs s h m a =
      let same : bytes_eq (sha256 req.payload) session.payload_hash ≡ true =
        rw (h, bytes_eq_refl (sha256 req.payload)) refl in
      rw s (rw same (rw m (rw (apply_replacements-replay ctx req.payload rs a) refl)))

  -- A request that brings the masked text back gets the original text, if the session is ready and
  -- has the mappings that masking returned, the hash of the payload is not the session's, the
  -- policy allows demasking, the two texts differ, every token has the form `<KIND_N>`, no token
  -- begins anywhere in the original text, and the context does not end.
  pub handle_existing-demask :
      (ctx : Ctx) (req : ProcessRequest) (session : Session) (policy : Policy) (text : Bytes)
      (rs : List Replacement) {c : Ctx}
      → session.status ≡ SessionStatus.ready
      → bytes_eq (sha256 req.payload) session.payload_hash ≡ false
      → policy.detokenization_allowed ≡ true
      → bytes_eq text req.payload ≡ false
      → apply_replacements ctx text rs ≡ ok (c, req.payload, session.mappings)
      → All (λ r. IsTokenText r.token) rs
      → NoToken text
      → handle_existing sha256 background req session policy ≡ ok text
  unfolding handle_existing handle_ready
  handle_existing-demask ctx req session policy text rs s h d n a t u =
      let permitted : (known_token req.payload session.mappings
            && not policy.detokenization_allowed)
          ≡ false =
        ground arith in
      rw s (rw h (rw permitted (rw (detokenize-apply_replacements ctx text rs a t u) (rw n refl))))
