-- ===== src/Tests/Sessions.antt =====
-- The session of a text with an e-mail address, in small stores.
use alpha_proxy.Tests.{
  mail_text, masked_text, mail, mail_mapping, policy, masks, is_email_token, no_token,
}
use alpha_proxy.Pii.{
  background, ok, err, Session, SessionStatus, Policy, store_unavailable, kind_email,
}
use alpha_proxy.Prelude.{
  ℕ, Bytes, codes, List, [], ◌∷◌, ◌++◌, map, Bool, true, false, Option, none, some, ◌||◌, All, ◌≡◌,
  ◌≢◌, ◌≤◌, ◌<◌, refl, arith, inl, inr, length, bytes_eq, contains,
}
use alpha_proxy.Prelude.Int.{pos, ◌≤ℤ◌}
use alpha_proxy.Processor.{handle_existing, replacement_of}
use alpha_proxy.Processor.Phases.{
  handle_existing-retry, handle_existing-demask, apply_mask_kinds-narrows,
}
use alpha_proxy.Processor.Request.{ProcessRequest, apply_mask_kinds, mask_kinds_match}
use alpha_proxy.Processor.Retry.{apply_replacements-replay}
use alpha_proxy.Store.{MemoryStore, new_memory_store, put_now, update_now, get_now}
use alpha_proxy.Store.Capacity.{
  IsValid, call_put, call_get, run, run-IsValid, live_count, put_now-full,
}
use alpha_proxy.Store.View.{
  PutOutcome, UpdateOutcome, view, found_or_missing, put_now-outcome, update_now-outcome,
  get_now-view,
}
use alpha_proxy.Tokenizer.Apply.{apply_replacements}
use alpha_proxy.Tokenizer.Priority.{one_of}

abbrev session : Session
session = record {
  payload_id = codes "id";
  payload_hash = mail_text;
  mappings = mail_mapping ∷ [];
  status = SessionStatus.ready;
  created_at = 10;
  expires_at = 60;
  mask_kinds_set = false;
  mask_kinds = [];
}

abbrev request : Bytes → ProcessRequest
request payload = record {
  payload = payload;
  payload_id = codes "id";
  consumer_id = codes "shop";
  mask_kinds = [];
  mask_kinds_set = false;
}

handle_existing-demask_example :
    handle_existing (λ s. s) background (request masked_text) session policy ≡ ok mail_text
unfolding bytes_eq
handle_existing-demask_example =
    handle_existing-demask (λ s. s) background (request masked_text) session policy mail_text
      (mail ∷ []) refl refl refl refl masks (is_email_token, tt) no_token

handle_existing-retry_example :
    handle_existing (λ s. s) background (request mail_text) session policy ≡ ok masked_text
unfolding mask_kinds_match
handle_existing-retry_example =
    handle_existing-retry (λ s. s) background (request mail_text) session policy (mail ∷ []) refl
      refl refl masks

apply_replacements-replay_example :
    apply_replacements background mail_text (map replacement_of (mail_mapping ∷ []))
    ≡ ok (background, masked_text, mail_mapping ∷ [])
apply_replacements-replay_example = apply_replacements-replay background mail_text (mail ∷ []) masks

abbrev narrow : Policy
narrow = record policy { allowed_kinds = λ k. bytes_eq kind_email k || false }

narrows : apply_mask_kinds policy (kind_email ∷ []) ≡ ok narrow
unfolding apply_mask_kinds one_of bytes_eq
narrows = refl

apply_mask_kinds-narrows_example :
    (narrow.allowed_kinds kind_email ≡ one_of (kind_email ∷ []) kind_email)
    × (narrow.allowed_kinds kind_email ≡ true → policy.allowed_kinds kind_email ≡ true)
apply_mask_kinds-narrows_example =
    apply_mask_kinds-narrows policy (kind_email ∷ []) narrows kind_email

abbrev empty_store : MemoryStore
empty_store = record { max_sessions = pos 1; sessions = []; next_purge = 0 }

abbrev full_store : MemoryStore
full_store = record { max_sessions = pos 1; sessions = (codes "id", session) ∷ []; next_purge = 0 }

abbrev other_session : Session
other_session = record session { payload_id = codes "new" }

put_now-outcome_example :
    PutOutcome 20 30
      (codes "id")
      session
      empty_store
      (put_now 20 (some session) empty_store).0
      (put_now 20 (some session) empty_store).1
put_now-outcome_example = put_now-outcome 20 30 (codes "id") session empty_store (omega arith) tt

update_now-outcome_example :
    UpdateOutcome 20 30
      (codes "id")
      session
      full_store
      (update_now 20 (some session) full_store).0
      (update_now 20 (some session) full_store).1
update_now-outcome_example = update_now-outcome 20 30 (codes "id") session full_store (omega arith)

get_now-view_example :
    ((get_now 60 (codes "id") full_store).1 ≡ found_or_missing (view 60 full_store (codes "id")))
    × (view 70 (get_now 60 (codes "id") full_store).0 (codes "id")
        ≡ view 70 full_store (codes "id"))
get_now-view_example = get_now-view 60 70 (codes "id") (codes "id") full_store (omega arith)

run-IsValid_example : IsValid (
    run
      (call_put 20 (some session)
        ∷ call_put 21 (some other_session)
        ∷ call_get 60 (codes "id")
        ∷ [])
      (new_memory_store (pos 1)))
run-IsValid_example =
    run-IsValid (pos 1)
      (call_put 20 (some session)
        ∷ call_put 21 (some other_session)
        ∷ call_get 60 (codes "id")
        ∷ [])
      (omega arith)

refuses : (put_now 20 (some other_session) full_store).1 ≡ err store_unavailable
unfolding put_now alpha_proxy.Prelude.Dict.lookup bytes_eq alpha_proxy.Store.is_expired
refuses = refl

put_now-full_example : full_store.max_sessions ≤ℤ pos (live_count 20 full_store.sessions)
put_now-full_example = put_now-full 20 other_session full_store refuses
