-- ===== src/Processor/RoundTrip.antt =====
-- A payload, its masked text, and the request that brings that back: `Process`
-- (internal/processor/processor.go) with the masker of internal/masking/cascade.go.
use mathlib.Core.List.{Permᴰ}
use alpha_proxy.Masking.Cascade.{ChunkJob, chunk_jobs, mask, rule_entities_to_pii}
use alpha_proxy.Masking.Cascade.Parallel.{Finds}
use alpha_proxy.Masking.Whole.{mask-any-order}
use alpha_proxy.Ml.Chunker.{ChunkConfig, TextChunk, split_text}
use alpha_proxy.Pii.{
  Ctx, background, done_after, context_done, Result, ok, err, Entity, Policy, Session,
  SessionStatus, TokenMapping,
}
use alpha_proxy.Prelude.{
  ℕ, zero, ◌≤◌, Bytes, List, All, true, false, not, ◌&&◌, none, some, ◌≡◌, refl, sym, ap, ◌∙◌,
  arith, bytes_eq,
}
use alpha_proxy.Processor.{
  Times, handle_ready, handle_existing, known_token, new_session, request_policy, process,
}
use alpha_proxy.Processor.Request.{ProcessRequest}
use alpha_proxy.Processor.Sessions.{ready_session, process_new-view, process-first, process-again}
use alpha_proxy.Rules.Residual.{build}
use alpha_proxy.Rules.Spans.{ResolvedEntity}
use alpha_proxy.Store.{MemoryStore, is_expired, get_now}
use alpha_proxy.Store.View.{live, view}
use alpha_proxy.Tokenizer.Detokenizer.{detokenize}
use alpha_proxy.Tokenizer.Detokenizer.Tokens.{NoToken}
use alpha_proxy.Utf8.{valid_string}

-- A masker for the processor. Behind a failure the context is done if that was the reason, and
-- otherwise as the masker got it: a failed `Mask` does not say how often it asked.
unfoldable pub as_masker :
    (Ctx → Bytes → Policy → Result (Ctx × Bytes × List TokenMapping))
    → Ctx
    → Bytes
    → Policy
    → Ctx × Result (Bytes × List TokenMapping)
as_masker masker ctx text policy = elim (masker ctx text policy) [
  | err context_done ↦ (done_after zero, err context_done)
  | err e ↦ (ctx, err e)
  | ok (ctx', masked, mappings) ↦ (ctx', ok (masked, mappings))
]

-- Demasking where the mappings lead back to the text.
demasks :
    (sha256 : Bytes → Bytes) (req : ProcessRequest) (session : Session) (policy : Policy)
    (text : Bytes)
    → session.status ≡ SessionStatus.ready
    → bytes_eq (sha256 req.payload) session.payload_hash ≡ false
    → policy.detokenization_allowed ≡ true
    → detokenize background req.payload session.mappings ≡ ok (background, text)
    → bytes_eq text req.payload ≡ false
    → handle_existing sha256 background req session policy ≡ ok text
unfolding handle_existing handle_ready
demasks sha256 req session policy text s h d u n =
    let permitted : (known_token req.payload session.mappings && not policy.detokenization_allowed)
        ≡ false =
      ground arith in
    rw s (rw h (rw permitted (rw u (rw n refl))))

module _ (sha256 : Bytes → Bytes) (get_policy : Ctx → Bytes → Result (Ctx × Policy)) (ttl : ℕ)
    (engine : Bytes → List ResolvedEntity)
    (detect : ℕ → Bytes → Bytes → Result (List ResolvedEntity)) (cfg : ChunkConfig)
    (schedule : List ChunkJob → List ChunkJob)
    (permutes : (jobs : List ChunkJob) → Permᴰ jobs (schedule jobs)) where
  abbrev pub cascade_masker : Ctx → Bytes → Policy → Ctx × Result (Bytes × List TokenMapping)
  cascade_masker = as_masker (mask engine detect cfg schedule)

  -- If a first request, with a valid payload in which no token begins and an id that has no live
  -- session, is answered with a text, where the rules and the model find entities that pass the
  -- tests, then a later request with the same id that brings this text back, before the session
  -- expires, is answered with the payload of the first, if its policy permits demasking, the two
  -- texts differ and so do their hashes, and the contexts do not end.
  pub process-round_trip :
      (times times' : Times) (req req' : ProcessRequest) (policy policy' : Policy)
      (s s' : MemoryStore) (found : ℕ → List Entity) (chunks : List TextChunk)
      (backend : List Entity) (masked : Bytes)
      → valid_string req.payload ≡ true
      → NoToken req.payload
      → rule_entities_to_pii req.payload (engine req.payload) ≡ ok backend
      → split_text background req.payload cfg ≡ ok (background, chunks)
      → All
          (Finds engine detect found)
          (chunk_jobs req.payload (build req.payload (engine req.payload)) 0 chunks)
      → request_policy sha256 get_policy cascade_masker ttl background req ≡ ok (background, policy)
      → view times.at_get s req.payload_id ≡ none
      → process sha256 get_policy cascade_masker ttl background times req s ≡ (s', ok masked)
      → req'.payload ≡ masked
      → req'.payload_id ≡ req.payload_id
      → times.at_update ≤ times'.at_get
      → ((mappings : List TokenMapping)
          → is_expired
              (ready_session sha256 get_policy cascade_masker ttl times req mappings)
              times'.at_get
            ≡ false)
      → request_policy sha256 get_policy cascade_masker ttl background req'
        ≡ ok (background, policy')
      → policy'.detokenization_allowed ≡ true
      → bytes_eq (sha256 masked) (sha256 req.payload) ≡ false
      → bytes_eq req.payload masked ≡ false
      → (process sha256 get_policy cascade_masker ttl background times' req' s').1 ≡ ok req.payload
  unfolding as_masker live mask new_session
  process-round_trip times times' req req' policy policy' s s' found chunks backend masked v n r sp
        f p w run b i l x p' d h u =
      let (text, mappings, masks, _, undone) =
        mask-any-order engine detect found req.payload cfg schedule policy chunks backend v r sp f
          permutes in
      let session = ready_session sha256 get_policy cascade_masker ttl times req mappings in
      let m : cascade_masker background req.payload policy ≡ (background, ok (text, mappings)) =
        rw masks refl in
      let first =
        sym (process-first sha256 get_policy cascade_masker ttl times req policy s p w) ∙ run in
      let (same, seen) =
        process_new-view sha256 get_policy cascade_masker ttl times'.at_get times req policy
          (get_now times.at_get req.payload_id s).0 l m first in
      let kept : view times'.at_get s' req'.payload_id ≡ some session =
        ap (λ k. view times'.at_get s' k) i ∙ seen ∙ rw (x mappings) refl in
      let back : detokenize background req'.payload mappings ≡ ok (background, req.payload) =
        ap (λ t. detokenize background t mappings) (b ∙ same) ∙ undone n in
      process-again sha256 get_policy cascade_masker ttl times' req' policy' session s' p' kept
      ∙ demasks sha256 req' session policy' req.payload refl
          (ap (λ t. bytes_eq (sha256 t) (sha256 req.payload)) b ∙ h) d back
          (ap (λ t. bytes_eq req.payload t) b ∙ u)
