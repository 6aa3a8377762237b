-- ===== src/Processor.antt =====
-- internal/processor/processor.go over the store of internal/store/memory.go. What the processor
-- is given from outside is a parameter: the policy of a consumer, the masker, and SHA-256. The
-- store and the processor read the clock, so a request brings the times that they read. The masker
-- also says how it leaves the context, since the processor uses it after a failure too.
pub mod Request
pub mod Retry
pub mod Phases
pub mod Sessions
pub mod RoundTrip
use alpha_proxy.Pii.{
  Ctx, background, done_after, Error, Result, ok, err, ◌>>=◌, ctx_err, Policy, Replacement, Session,
  SessionStatus, TokenMapping, PiiKind, context_done, session_not_found, processing_in_progress,
  detector_unavailable, store_unavailable, payload_id_conflict, demasking_disabled, unknown_token,
  invalid_span, invalid_ml_response, policy_rejected, payload_too_large, invalid_mask_kind, other,
  panicked,
}
use alpha_proxy.Prelude.{
  ℕ, zero, suc, ◌+◌, Bytes, List, [], ◌∷◌, map, Bool, true, false, not, ◌&&◌, ◌||◌, Option, none,
  some, if◌then◌else◌, bytes_eq, contains,
}
use alpha_proxy.Prelude.Int.{ℤ, pos}
use alpha_proxy.Processor.Request.{
  ProcessRequest, apply_mask_kinds, canonical_mask_kinds, mask_kinds_match,
}
use alpha_proxy.Store
use alpha_proxy.Store.{MemoryStore}
use alpha_proxy.Tokenizer.Apply.{apply_replacements}
use alpha_proxy.Tokenizer.Detokenizer.{detokenize}

-- A context behind one call of `ctx.Err()`, where `Get` found no session.
unfoldable pub asked_once : Ctx → Ctx
asked_once background = background
asked_once (done_after zero) = done_after zero
asked_once (done_after (suc n)) = done_after n

-- When the store and the processor read the clock during a request.
pub record Times : Type 0 where
  pub at_get : ℕ
  pub at_start : ℕ
  pub at_put : ℕ
  pub at_update : ℕ

unfoldable pub replacement_of : TokenMapping → Replacement
replacement_of m = record {
  start = m.start;
  end = m.end;
  token = m.token;
  original = m.original;
  kind = m.kind;
  source = m.source;
  confidence = pos 0;
}

-- `m.Token != "" && strings.Contains(req.Payload, m.Token)`, for some mapping.
unfoldable pub known_token : Bytes → List TokenMapping → Bool
known_token payload [] = false
known_token payload (m ∷ ms) =
    (not (bytes_eq m.token []) && contains payload m.token) || known_token payload ms

module _ (sha256 : Bytes → Bytes) where
  -- The part of `handleExisting` for a session that is ready.
  unfoldable pub handle_ready : Ctx → ProcessRequest → Session → Policy → Result Bytes
  handle_ready ctx req session policy =
      let again = if not (mask_kinds_match session req) then err payload_id_conflict else (do
        (_, masked, _) ← apply_replacements ctx req.payload (map replacement_of session.mappings)
        ok masked) in
      let demask =
        if known_token req.payload session.mappings && not policy.detokenization_allowed
        then err demasking_disabled
        else (do
          (_, detokenized) ← detokenize ctx req.payload session.mappings
          if bytes_eq detokenized req.payload then err payload_id_conflict else ok detokenized) in
      if bytes_eq (sha256 req.payload) session.payload_hash then again else demask

  unfoldable pub handle_existing : Ctx → ProcessRequest → Session → Policy → Result Bytes
  unfolding handle_ready known_token replacement_of
  handle_existing ctx req session policy = elim session.status [
    | SessionStatus.processing ↦ err processing_in_progress
    | SessionStatus.failed ↦ err detector_unavailable
    | SessionStatus.ready ↦ handle_ready ctx req session policy
    | SessionStatus.unknown ↦ err store_unavailable
  ]

  -- The session that a new request stores.
  unfoldable pub new_session : ℕ → ℕ → ProcessRequest → Session
  new_session now ttl req = record {
    payload_id = req.payload_id;
    payload_hash = sha256 req.payload;
    mappings = [];
    status = SessionStatus.processing;
    created_at = now;
    expires_at = now + ttl;
    mask_kinds_set = req.mask_kinds_set;
    mask_kinds = canonical_mask_kinds req.mask_kinds;
  }

module _ (sha256 : Bytes → Bytes) (get_policy : Ctx → Bytes → Result (Ctx × Policy))
    (mask : Ctx → Bytes → Policy → Ctx × Result (Bytes × List TokenMapping)) (ttl : ℕ) where
  -- After `PutIfAbsent` took the session: masking, and the session's last state.
  unfoldable pub mask_new :
      Ctx → ℕ → ProcessRequest → Policy → Session → MemoryStore → MemoryStore × Result Bytes
  mask_new ctx now req policy session s =
      let (ctx', result) = mask ctx req.payload policy in
      elim result [
        | err panicked ↦ (s, err panicked)
        | err e ↦ (
          (Store.update ctx' now (some (record session { status = SessionStatus.failed })) s).0,
          err e,
        )
        | ok (masked, mappings) ↦
            let (s', updated) =
              Store.update ctx' now
                (some (record session { mappings = mappings; status = SessionStatus.ready })) s in
            (s', updated >>= λ _. ok masked)
      ]

  -- A request whose id has no session.
  unfoldable pub process_new :
      Ctx → Times → ProcessRequest → Policy → MemoryStore → MemoryStore × Result Bytes
  unfolding mask_new new_session
  process_new ctx times req policy s =
      let session = new_session sha256 times.at_start ttl req in
      let (s', added) = Store.put_if_absent ctx times.at_put (some session) s in
      elim added [
        | err e ↦ (s', err e)
        | ok (ctx', true) ↦ mask_new ctx' times.at_update req policy session s'
        | ok (ctx', false) ↦ (s', err processing_in_progress)
      ]

  -- The policy of the request, narrowed by its mask kinds.
  unfoldable pub request_policy : Ctx → ProcessRequest → Result (Ctx × Policy)
  request_policy ctx req = do
    ctx' ← ctx_err ctx
    (ctx'', policy) ← get_policy ctx' req.consumer_id
    policy' ← (if req.mask_kinds_set then apply_mask_kinds policy req.mask_kinds else ok policy)
    ok (ctx'', policy')

  unfoldable pub process : Ctx → Times → ProcessRequest → MemoryStore → MemoryStore × Result Bytes
  unfolding request_policy process_new handle_existing asked_once
  process ctx times req s = elim (request_policy ctx req) [
    | err e ↦ (s, err e)
    | ok (ctx', policy) ↦
        let (s', found) = Store.get ctx' times.at_get req.payload_id s in
        elim found [
          | ok (ctx'', session) ↦ (s', handle_existing sha256 ctx'' req session policy)
          | err session_not_found ↦ process_new (asked_once ctx') times req policy s'
          | err e ↦ (s', err e)
        ]
  ]
