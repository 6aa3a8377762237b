-- ===== src/Processor/Sessions.antt =====
-- A session from its first request to its demasking: `Process` (internal/processor/processor.go)
-- over the store (internal/store/memory.go).
use alpha_proxy.Pii.{
  Ctx, background, Result, Result-cases, ok, err, ◌>>=◌, Policy, Session, SessionStatus,
  TokenMapping, Error, session_not_found, processing_in_progress,
}
use alpha_proxy.Prelude.{
  ℕ, ◌≤◌, Bytes, List, true, false, none, some, ◌≡◌, refl, sym, ap, ◌∙◌, arith, bytes_eq,
  bytes_eq_refl, if◌then◌else◌, inl, inr,
}
use alpha_proxy.Processor.{
  Times, handle_existing, new_session, mask_new, process_new, request_policy, process,
}
use alpha_proxy.Processor.Request.{ProcessRequest}
use alpha_proxy.Store
use alpha_proxy.Store.{MemoryStore, is_expired, get_now, put_now, update_now, get}
use alpha_proxy.Store.View.{live, view, found_or_missing, get_now-view, update_now-outcome}

abbrev with_ctx : {A : Type 0} → A → Result (Ctx × A)
with_ctx a = ok (background, a)

-- What is done with a result of the store.
same_result :
    {A : Type 0} (r : MemoryStore × Result A) (out : Bytes)
    → let long : MemoryStore × Result Bytes = (r.0, (r.1 >>= λ a. with_ctx a) >>= λ _. ok out) in
      let short : MemoryStore × Result Bytes = (r.0, r.1 >>= λ _. ok out) in long ≡ short
same_result (s, ok a) out = refl
same_result (s, err e) out = refl

module _ (sha256 : Bytes → Bytes) (get_policy : Ctx → Bytes → Result (Ctx × Policy))
    (mask : Ctx → Bytes → Policy → Ctx × Result (Bytes × List TokenMapping)) (ttl : ℕ) where
  -- The session behind a first request that was masked.
  abbrev pub ready_session : Times → ProcessRequest → List TokenMapping → Session
  ready_session times req mappings = record (new_session sha256 times.at_start ttl req) {
    mappings = mappings;
    status = SessionStatus.ready;
  }

  mask_new-ok :
      (now : ℕ) (req : ProcessRequest) (policy : Policy) (session : Session) (s : MemoryStore)
      {masked : Bytes} {mappings : List TokenMapping}
      → mask background req.payload policy ≡ (background, ok (masked, mappings))
      → mask_new sha256 get_policy mask ttl background now req policy session s ≡ (
        (update_now now
            (some (record session { mappings = mappings; status = SessionStatus.ready }))
            s).0,
        (update_now now
              (some (record session { mappings = mappings; status = SessionStatus.ready }))
              s).1
            >>= λ _. ok masked,
      )
  unfolding mask_new Store.update
  mask_new-ok now req policy session s {masked = masked} {mappings = mappings} m =
      let done : Session = record session { mappings = mappings; status = SessionStatus.ready } in
      rw (mask_new, m) (rw m (same_result (update_now now (some done) s) masked))

  mask_new-view :
      (now later : ℕ) (req : ProcessRequest) (policy : Policy) (session : Session) (s : MemoryStore)
      {masked out : Bytes} {mappings : List TokenMapping} {s' : MemoryStore}
      → now ≤ later
      → session.payload_id ≡ req.payload_id
      → mask background req.payload policy ≡ (background, ok (masked, mappings))
      → mask_new sha256 get_policy mask ttl background now req policy session s ≡ (s', ok out)
      → (out ≡ masked)
        × (view later s' req.payload_id
            ≡ live later
                (some (record session { mappings = mappings; status = SessionStatus.ready })))
  unfolding mask_new Store.update
  mask_new-view now later req policy session s {masked = masked} {out = out} {mappings = mappings}
        {s' = s'} l i m h =
      let done : Session = record session { mappings = mappings; status = SessionStatus.ready } in
      let promised = update_now-outcome now later req.payload_id done s l in
      let run = sym (mask_new-ok now req policy session s m) ∙ h in
      elim (Result-cases (update_now now (some done) s).1) [
        | inr (reason, e) ↦ let bad = rw e at run in cc
        | inl (u, e) ↦
            let good = rw e at run in
            let kept = rw e at promised in
            let store : (update_now now (some done) s).0 ≡ s' =
              ap (λ (r : MemoryStore × Result Bytes). r.0) good in
            let answer : ok masked ≡ ok out = ap (λ (r : MemoryStore × Result Bytes). r.1) good in
            let text : out ≡ masked = cc in
            let own : bytes_eq session.payload_id req.payload_id ≡ true =
              ap (λ k. bytes_eq k req.payload_id) i ∙ bytes_eq_refl req.payload_id in
            (
              text,
              ap (λ t. view later t req.payload_id) (sym store)
                  ∙ kept.1
                  ∙ ap (λ b. if b then live later (some done) else view later s req.payload_id) own,
            )
      ]

  process_new-added :
      (times : Times) (req : ProcessRequest) (policy : Policy) (s : MemoryStore)
      → (put_now times.at_put (some (new_session sha256 times.at_start ttl req)) s).1 ≡ ok true
      → process_new sha256 get_policy mask ttl background times req policy s
        ≡ mask_new sha256 get_policy mask ttl background times.at_update req policy
            (new_session sha256 times.at_start ttl req)
            (put_now times.at_put (some (new_session sha256 times.at_start ttl req)) s).0
  unfolding process_new Store.put_if_absent
  process_new-added times req policy s e = rw (process_new, e) refl

  process_new-taken :
      (times : Times) (req : ProcessRequest) (policy : Policy) (s : MemoryStore)
      → (put_now times.at_put (some (new_session sha256 times.at_start ttl req)) s).1 ≡ ok false
      → (process_new sha256 get_policy mask ttl background times req policy s).1
        ≡ err processing_in_progress
  unfolding process_new Store.put_if_absent
  process_new-taken times req policy s e = rw (process_new, e) refl

  process_new-failed :
      (times : Times) (req : ProcessRequest) (policy : Policy) (s : MemoryStore) (reason : Error)
      → (put_now times.at_put (some (new_session sha256 times.at_start ttl req)) s).1 ≡ err reason
      → (process_new sha256 get_policy mask ttl background times req policy s).1 ≡ err reason
  unfolding process_new Store.put_if_absent
  process_new-failed times req policy s reason e = rw (process_new, e) refl

  pub process_new-view :
      (later : ℕ) (times : Times) (req : ProcessRequest) (policy : Policy) (s : MemoryStore)
      {masked out : Bytes} {mappings : List TokenMapping} {s' : MemoryStore}
      → times.at_update ≤ later
      → mask background req.payload policy ≡ (background, ok (masked, mappings))
      → process_new sha256 get_policy mask ttl background times req policy s ≡ (s', ok out)
      → (out ≡ masked)
        × (view later s' req.payload_id ≡ live later (some (ready_session times req mappings)))
  unfolding new_session
  process_new-view later times req policy s {out = out} l m h =
      let session = new_session sha256 times.at_start ttl req in
      let answer : (process_new sha256 get_policy mask ttl background times req policy s).1
          ≡ ok out =
        ap (λ (r : MemoryStore × Result Bytes). r.1) h in
      elim (Result-cases (put_now times.at_put (some session) s).1) [
        | inr (reason, e) ↦
            let failed = sym (process_new-failed times req policy s reason e) ∙ answer in cc
        | inl (false, e) ↦ let failed = sym (process_new-taken times req policy s e) ∙ answer in cc
        | inl (true, e) ↦
            mask_new-view times.at_update later req policy session
              (put_now times.at_put (some session) s).0 l refl m
              (sym (process_new-added times req policy s e) ∙ h)
      ]

  -- A request whose id has no live session.
  pub process-first :
      (times : Times) (req : ProcessRequest) (policy : Policy) (s : MemoryStore)
      → request_policy sha256 get_policy mask ttl background req ≡ ok (background, policy)
      → view times.at_get s req.payload_id ≡ none
      → process sha256 get_policy mask ttl background times req s
        ≡ process_new sha256 get_policy mask ttl background times req policy
            (get_now times.at_get req.payload_id s).0
  unfolding process Store.get
  process-first times req policy s p v =
      let read =
        get_now-view times.at_get times.at_get req.payload_id req.payload_id s (omega arith) in
      let missing : (get_now times.at_get req.payload_id s).1 ≡ err session_not_found =
        read.0 ∙ ap found_or_missing v in
      rw (process, p) (rw missing refl)

  -- A request whose id has a live session.
  pub process-again :
      (times : Times) (req : ProcessRequest) (policy : Policy) (session : Session) (s : MemoryStore)
      → request_policy sha256 get_policy mask ttl background req ≡ ok (background, policy)
      → view times.at_get s req.payload_id ≡ some session
      → (process sha256 get_policy mask ttl background times req s).1
        ≡ handle_existing sha256 background req session policy
  unfolding process Store.get
  process-again times req policy session s p v =
      let read =
        get_now-view times.at_get times.at_get req.payload_id req.payload_id s (omega arith) in
      let found : (get_now times.at_get req.payload_id s).1 ≡ ok session =
        read.0 ∙ ap found_or_missing v in
      rw (process, p) (rw found refl)
