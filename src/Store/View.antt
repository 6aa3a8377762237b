-- ===== src/Store/View.antt =====
-- The store against an abstract one: a function from ids and times to the session that is live.
use alpha_proxy.Pii.{Result, ok, err, session_not_found, store_unavailable, Session}
use alpha_proxy.Prelude.{
  ℕ, ◌≤◌, Bytes, [], ◌∷◌, Bool, true, false, ◌≡◌, refl, ◌∙◌, arith, Option, none, some,
  Option-cases, ◌≢◌, Bool-cases, inl, inr, bytes_eq, bytes_eq_iff, bytes_eq_refl, if◌then◌else◌,
  length,
}
use alpha_proxy.Prelude.Dict.{lookup, insert, delete, lookup-insert, lookup-delete}
use alpha_proxy.Prelude.Int.{pos, leb_ℤ}
use alpha_proxy.Store.{
  MemoryStore, Sessions, is_expired, purge_expired, get_now, sweep, put_new, put_now, update_now,
}

-- The session that is live at a time, if the id has one.
unfoldable pub live : ℕ → Option Session → Option Session
live now none = none
live now (some s) = if is_expired s now then none else some s

unfoldable pub view : ℕ → MemoryStore → Bytes → Option Session
unfolding live
view now s id = live now (lookup id s.sessions)

is_expired_later :
    (s : Session) (now later : ℕ)
    → now ≤ later
    → is_expired s now ≡ true
    → is_expired s later ≡ true
unfolding is_expired
is_expired_later s now later h e = ground arith

-- No key stands twice.
abbrev pub Absent : Bytes → Sessions → Type 0
Absent id m = lookup id m ≡ none

abbrev pub Unique : Sessions → Type 0
Unique [] = Unit
Unique ((id, s) ∷ m) = Absent id m × Unique m

-- A sweep hides nothing that is live then or later.
live-purge_expired :
    (now later : ℕ) (id : Bytes) (m : Sessions)
    → now ≤ later
    → Unique m
    → live later (lookup id (purge_expired now m)) ≡ live later (lookup id m)
unfolding live lookup purge_expired
live-purge_expired now later id [] h u = refl
live-purge_expired now later id ((j, s) ∷ m) h (a, u) = ground (
  arith,
  bytes_eq_iff j id,
  is_expired_later s now later h,
  live-purge_expired now later id m h u,
)

lookup-delete_self : (id : Bytes) (m : Sessions) → lookup id (delete id m) ≡ none
lookup-delete_self id m = rw (lookup-delete id id m, bytes_eq_refl id)

-- Dropping an expired session hides nothing that is live then or later.
live-delete :
    (now later : ℕ) (id j : Bytes) (m : Sessions) {s : Session}
    → now ≤ later
    → lookup id m ≡ some s
    → is_expired s now ≡ true
    → live later (lookup j (delete id m)) ≡ live later (lookup j m)
unfolding live
live-delete now later id j m {s} h e x =
    rw (lookup-delete id j m) (ground (arith, bytes_eq_iff id j, is_expired_later s now later h))

-- What a read makes of the session that is live.
abbrev pub found_or_missing : Option Session → Result Session
found_or_missing none = err session_not_found
found_or_missing (some s) = ok s

module _ (now : ℕ) (id : Bytes) (s : MemoryStore) where
  pub get_now_missing : lookup id s.sessions ≡ none → get_now now id s ≡ (s, err session_not_found)
  unfolding get_now
  get_now_missing e = rw (e, get_now)

  module _ (x : Session) (e : lookup id s.sessions ≡ some x) where
    pub get_now_expired :
        is_expired x now ≡ true
        → get_now now id s ≡ (record s { sessions = delete id s.sessions }, err session_not_found)
    unfolding get_now
    get_now_expired y = rw (e, get_now) (rw y)

    pub get_now_live : is_expired x now ≡ false → get_now now id s ≡ (s, ok x)
    unfolding get_now
    get_now_live n = rw (e, get_now) (rw n)

-- `Get` returns the session that is live, or reports that there is none, and changes no live
-- session, now or later.
pub get_now-view :
    (now later : ℕ) (id j : Bytes) (s : MemoryStore)
    → now ≤ later
    → ((get_now now id s).1 ≡ found_or_missing (view now s id))
      × (view later (get_now now id s).0 j ≡ view later s j)
unfolding view live
get_now-view now later id j s h = elim (Option-cases (lookup id s.sessions)) [
  | inl e ↦ rw (get_now_missing now id s e) (rw e, refl)
  | inr (x, e) ↦ elim (Bool-cases (is_expired x now)) [
    | inl y ↦
        rw (get_now_expired now id s x e y)
          (rw e (rw y), live-delete now later id j s.sessions h e y)
    | inr n ↦ rw (get_now_live now id s x e n) (rw e (rw n), refl)
  ]
]

view-sweep :
    (now later : ℕ) (j : Bytes) (s : MemoryStore)
    → now ≤ later
    → Unique s.sessions
    → view later (sweep now s) j ≡ view later s j
unfolding sweep view
view-sweep now later j s h u = ground (arith, live-purge_expired now later j s.sessions h u)

-- What `PutIfAbsent` promises at a later time and an id, for each of its results: `false` where
-- the id has a live session, `true` where it had none and now has the new one, an error where it
-- had none and the store is full. Every other live session stays.
abbrev pub PutOutcome : ℕ → ℕ → Bytes → Session → MemoryStore → MemoryStore → Result Bool → Type 0
PutOutcome now later j session s s' (ok false) =
    (view now s session.payload_id ≢ none) × (view later s' j ≡ view later s j)
PutOutcome now later j session s s' (ok true) =
    (view now s session.payload_id ≡ none)
    × (view later s' j
        ≡ (if bytes_eq session.payload_id j then live later (some session) else view later s j))
PutOutcome now later j session s s' (err e) =
    (e ≡ store_unavailable)
    × (view now s session.payload_id ≡ none)
    × (view later s' j ≡ view later s j)

module _ (now : ℕ) (session : Session) (s : MemoryStore) where
  put_new_full :
      leb_ℤ (sweep now s).max_sessions (pos (length (sweep now s).sessions)) ≡ true
      → put_new now session s ≡ (sweep now s, err store_unavailable)
  unfolding put_new
  put_new_full e = rw (e, put_new)

  put_new_room :
      leb_ℤ (sweep now s).max_sessions (pos (length (sweep now s).sessions)) ≡ false
      → put_new now session s ≡ (
        record (sweep now s) {
          sessions = insert session.payload_id session (sweep now s).sessions;
        },
        ok true,
      )
  unfolding put_new
  put_new_room e = rw (e, put_new)

put_new-outcome :
    (now later : ℕ) (j : Bytes) (session : Session) (s s₀ : MemoryStore)
    → now ≤ later
    → Unique s.sessions
    → view now s₀ session.payload_id ≡ none
    → view later s j ≡ view later s₀ j
    → PutOutcome now later j session s₀ (put_new now session s).0 (put_new now session s).1
unfolding view
put_new-outcome now later j session s s₀ h u free same =
    let swept : live later (lookup j (sweep now s).sessions) ≡ live later (lookup j s.sessions) =
      view-sweep now later j s h u in
    elim (Bool-cases (leb_ℤ (sweep now s).max_sessions (pos (length (sweep now s).sessions)))) [
      | inl full ↦ rw (put_new_full now session s full) (refl, free, swept ∙ same)
      | inr room ↦ rw (put_new_room now session s room) (
        free,
        rw (lookup-insert session.payload_id j session (sweep now s).sessions)
            (elim (Bool-cases (bytes_eq session.payload_id j)) [
              | inl y ↦ rw y
              | inr n ↦ rw n (swept ∙ same)
            ]),
      )
    ]

module _ (now : ℕ) (session : Session) (s : MemoryStore) where
  pub put_now_new :
      lookup session.payload_id s.sessions ≡ none
      → put_now now (some session) s ≡ put_new now session s
  unfolding put_now
  put_now_new e = rw (e, put_now)

  module _ (x : Session) (e : lookup session.payload_id s.sessions ≡ some x) where
    pub put_now_again :
        is_expired x now ≡ true
        → put_now now (some session) s
          ≡ put_new now session (record s { sessions = delete session.payload_id s.sessions })
    unfolding put_now
    put_now_again y = rw (e, put_now) (rw y)

    pub put_now_taken : is_expired x now ≡ false → put_now now (some session) s ≡ (s, ok false)
    unfolding put_now
    put_now_taken n = rw (e, put_now) (rw n)

Absent-delete : (id j : Bytes) (m : Sessions) → Absent j m → Absent j (delete id m)
Absent-delete id j m a = rw (lookup-delete id j m) (ground arith)

pub Unique-delete : (id : Bytes) (m : Sessions) → Unique m → Unique (delete id m)
unfolding delete
Unique-delete id [] u = tt
Unique-delete id ((j, s) ∷ m) (a, u) = elim (Bool-cases (bytes_eq j id)) [
  | inl y ↦ rw y (Unique-delete id m u)
  | inr n ↦ rw n (Absent-delete id j m a, Unique-delete id m u)
]

-- `PutIfAbsent` in a store that holds no id twice, as the live sessions of any later time see it:
-- it answers false just where the id has a live session, and then changes nothing; it answers true
-- where it has none, and then the id has the new session and every other id what it had; or it
-- fails with `ErrStoreUnavailable`, where the id has none, and changes nothing.
pub put_now-outcome :
    (now later : ℕ) (j : Bytes) (session : Session) (s : MemoryStore)
    → now ≤ later
    → Unique s.sessions
    → PutOutcome now later j session s
        (put_now now (some session) s).0
        (put_now now (some session) s).1
unfolding view live
put_now-outcome now later j session s h u =
    let id = session.payload_id in
    elim (Option-cases (lookup id s.sessions)) [
      | inl e ↦
          rw (put_now_new now session s e) (put_new-outcome now later j session s s h u (rw e) refl)
      | inr (x, e) ↦ elim (Bool-cases (is_expired x now)) [
        | inl y ↦ rw (put_now_again now session s x e y) (
            put_new-outcome now later j session (record s { sessions = delete id s.sessions }) s h
              (Unique-delete id s.sessions u) (rw e (rw y))
              (live-delete now later id j s.sessions h e y))
        | inr n ↦ rw (put_now_taken now session s x e n) ((rw e (rw n (cc))), refl)
      ]
    ]

module _ (now : ℕ) (session : Session) (s : MemoryStore) where
  pub update_now_missing :
      lookup session.payload_id s.sessions ≡ none
      → update_now now (some session) s ≡ (s, err session_not_found)
  unfolding update_now
  update_now_missing e = rw (e, update_now)

  module _ (x : Session) (e : lookup session.payload_id s.sessions ≡ some x) where
    pub update_now_expired :
        is_expired x now ≡ true
        → update_now now (some session) s
          ≡ (record s { sessions = delete session.payload_id s.sessions }, err session_not_found)
    unfolding update_now
    update_now_expired y = rw (e, update_now) (rw y)

    pub update_now_live :
        is_expired x now ≡ false
        → update_now now (some session) s
          ≡ (record s { sessions = insert session.payload_id session s.sessions }, ok tt)
    unfolding update_now
    update_now_live n = rw (e, update_now) (rw n)

-- What `Update` promises: a live session is replaced, and where none is live nothing changes.
abbrev pub UpdateOutcome :
    ℕ → ℕ → Bytes → Session → MemoryStore → MemoryStore → Result (Unit {0}) → Type 0
UpdateOutcome now later j session s s' (ok _) =
    (view now s session.payload_id ≢ none)
    × (view later s' j
        ≡ (if bytes_eq session.payload_id j then live later (some session) else view later s j))
UpdateOutcome now later j session s s' (err e) =
    (e ≡ session_not_found)
    × (view now s session.payload_id ≡ none)
    × (view later s' j ≡ view later s j)

-- `Update`, as the live sessions of any later time see it: where it succeeds the id had a live
-- session and now has the new one, and every other id has what it had; otherwise it fails with
-- `ErrSessionNotFound`, the id had no live session, and nothing changes.
pub update_now-outcome :
    (now later : ℕ) (j : Bytes) (session : Session) (s : MemoryStore)
    → now ≤ later
    → UpdateOutcome now later j session s
        (update_now now (some session) s).0
        (update_now now (some session) s).1
unfolding view live
update_now-outcome now later j session s h =
    let id = session.payload_id in
    elim (Option-cases (lookup id s.sessions)) [
      | inl e ↦ rw (update_now_missing now session s e) (refl, rw e, refl)
      | inr (x, e) ↦ elim (Bool-cases (is_expired x now)) [
        | inl y ↦
            rw (update_now_expired now session s x e y)
              (refl, rw e (rw y), live-delete now later id j s.sessions h e y)
        | inr n ↦ rw (update_now_live now session s x e n) (
          rw e (rw n (cc)),
          rw (lookup-insert id j session s.sessions)
              (elim (Bool-cases (bytes_eq id j)) [ inl y ↦ rw y | inr o ↦ rw o ]),
        )
      ]
    ]
