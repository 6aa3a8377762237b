-- ===== src/Store.antt =====
-- internal/store/memory.go: the session store in memory. Each call holds the mutex from its first
-- read to its return, so it is one step: it takes the store and the time and returns both the new
-- store and the result. Sessions are values here, so the clones that the source makes are the
-- sessions themselves; an absent `*pii.Session` is `none`.
pub mod View
pub mod Capacity
use alpha_proxy.Pii.{
  Ctx, Result, ok, err, session_not_found, store_unavailable, ctx_err, Session, ◌>>=◌, context_done,
}
use alpha_proxy.Prelude.{
  ℕ, ◌+◌, Bytes, List, [], ◌∷◌, Bool, true, false, not, ◌&&◌, ◌||◌, Option, none, some, length, leb,
  ltb, ◌==◌, if◌then◌else◌,
}
use alpha_proxy.Prelude.Dict.{lookup, insert, delete}
use alpha_proxy.Prelude.Int.{ℤ, pos, leb_ℤ}

abbrev pub Sessions : Type 0
Sessions = List (Bytes × Session)

pub record MemoryStore : Type 0 where
  pub max_sessions : ℤ
  pub sessions : Sessions
  pub next_purge : ℕ

unfoldable pub new_memory_store : ℤ → MemoryStore
new_memory_store max_sessions = record {
  max_sessions = max_sessions;
  sessions = [];
  next_purge = 0;
}

-- `!session.ExpiresAt.IsZero() && !now.Before(session.ExpiresAt)`
unfoldable pub is_expired : Session → ℕ → Bool
is_expired session now = not (session.expires_at == 0) && not (ltb now session.expires_at)

unfoldable pub purge_expired : ℕ → Sessions → Sessions
purge_expired now [] = []
purge_expired now ((id, session) ∷ m) =
    if is_expired session now then purge_expired now m else (id, session) ∷ purge_expired now m

-- Behind `ctx.Err()`.
unfoldable pub get_now : ℕ → Bytes → MemoryStore → MemoryStore × Result Session
get_now now id s = elim (lookup id s.sessions) [
  | none ↦ (s, err session_not_found)
  | some session ↦
      if is_expired session now
      then (record s { sessions = delete id s.sessions }, err session_not_found)
      else (s, ok session)
]

-- The result of a call whose context is already done, and of one that goes on.
abbrev pub within_ctx :
    {A : Type 0} → Ctx → MemoryStore → (MemoryStore × Result A) → MemoryStore × Result (Ctx × A)
within_ctx ctx s r = elim (ctx_err ctx) [
  | err e ↦ (s, err e)
  | ok ctx' ↦ (r.0, r.1 >>= λ a. ok (ctx', a))
]

unfoldable pub get : Ctx → ℕ → Bytes → MemoryStore → MemoryStore × Result (Ctx × Session)
unfolding get_now
get ctx now id s = within_ctx ctx s (get_now now id s)

abbrev pub second : ℕ
second = 1000000000

-- The sweep, at most once a second and always at capacity.
unfoldable pub sweep : ℕ → MemoryStore → MemoryStore
unfolding purge_expired
sweep now s =
    if not (ltb now s.next_purge) || leb_ℤ s.max_sessions (pos (length s.sessions))
    then record s { sessions = purge_expired now s.sessions; next_purge = now + second }
    else s

-- The insertion, where no live session has the id.
unfoldable pub put_new : ℕ → Session → MemoryStore → MemoryStore × Result Bool
unfolding sweep
put_new now session s =
    let swept = sweep now s in
    if leb_ℤ swept.max_sessions (pos (length swept.sessions))
    then (swept, err store_unavailable)
    else (record swept { sessions = insert session.payload_id session swept.sessions }, ok true)

unfoldable pub put_now : ℕ → Option Session → MemoryStore → MemoryStore × Result Bool
unfolding put_new
put_now now none s = (s, err store_unavailable)
put_now now (some session) s = elim (lookup session.payload_id s.sessions) [
  | none ↦ put_new now session s
  | some existing ↦
      if not (is_expired existing now)
      then (s, ok false)
      else put_new now session (record s { sessions = delete session.payload_id s.sessions })
]

unfoldable pub put_if_absent :
    Ctx → ℕ → Option Session → MemoryStore → MemoryStore × Result (Ctx × Bool)
unfolding put_now
put_if_absent ctx now session s = within_ctx ctx s (put_now now session s)

unfoldable pub update_now : ℕ → Option Session → MemoryStore → MemoryStore × Result (Unit {0})
update_now now none s = (s, err store_unavailable)
update_now now (some session) s = elim (lookup session.payload_id s.sessions) [
  | none ↦ (s, err session_not_found)
  | some existing ↦
      if is_expired existing now
      then (record s { sessions = delete session.payload_id s.sessions }, err session_not_found)
      else (record s { sessions = insert session.payload_id session s.sessions }, ok tt)
]

unfoldable pub update :
    Ctx → ℕ → Option Session → MemoryStore → MemoryStore × Result (Ctx × Unit {0})
unfolding update_now
update ctx now session s = within_ctx ctx s (update_now now session s)

unfoldable pub delete_now : Bytes → MemoryStore → MemoryStore × Result (Unit {0})
delete_now id s = (record s { sessions = delete id s.sessions }, ok tt)

unfoldable pub remove : Ctx → Bytes → MemoryStore → MemoryStore × Result (Ctx × Unit {0})
unfolding delete_now
remove ctx id s = within_ctx ctx s (delete_now id s)
