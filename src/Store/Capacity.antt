-- ===== src/Store/Capacity.antt =====
-- The invariant of the store over its calls, and when it refuses a session for want of room.
use alpha_proxy.Pii.{Error, err, Session}
use alpha_proxy.Prelude.{
  ℕ, suc, ◌≤◌, ◌+◌, Bytes, List, [], ◌∷◌, not, ◌||◌, ◌≡◌, refl, arith, Option, none, some,
  Option-cases, Bool-cases, inl, inr, bytes_eq, bytes_eq_iff, if◌then◌else◌, length, ltb,
}
use alpha_proxy.Prelude.Dict.{lookup, insert, delete, lookup-insert}
use alpha_proxy.Prelude.Int.{ℤ, pos, ◌≤ℤ◌, leb_ℤ}
use alpha_proxy.Store.{
  MemoryStore, Sessions, new_memory_store, is_expired, purge_expired, get_now, sweep, put_new,
  put_now, update_now, delete_now,
}
use alpha_proxy.Store.View.{
  Absent, Unique, Unique-delete, put_now_new, put_now_again, put_now_taken, update_now_missing,
  update_now_expired, update_now_live, get_now_missing, get_now_expired, get_now_live,
}

pub record IsValid (s : MemoryStore) : Type 0 where
  pub unique : Unique s.sessions
  pub bounded : pos (length s.sessions) ≤ℤ s.max_sessions

length-delete-le : (id : Bytes) (m : Sessions) → length (delete id m) ≤ length m
unfolding delete
length-delete-le id [] = omega arith
length-delete-le id ((j, s) ∷ m) = ground (arith, length-delete-le id m)

length-insert_new :
    (id : Bytes) (s : Session) (m : Sessions) → length (insert id s m) ≤ suc (length m)
unfolding insert
length-insert_new id s [] = omega arith
length-insert_new id s ((j, x) ∷ m) = ground (arith, length-insert_new id s m)

length-insert_old :
    (id : Bytes) (s : Session) (m : Sessions) {x : Session}
    → lookup id m ≡ some x
    → length (insert id s m) ≡ length m
unfolding insert lookup
length-insert_old id s [] e = cc
length-insert_old id s ((j, y) ∷ m) {x} e = ground (arith, length-insert_old id s m {x = x})

length-purge_expired-le : (now : ℕ) (m : Sessions) → length (purge_expired now m) ≤ length m
unfolding purge_expired
length-purge_expired-le now [] = omega arith
length-purge_expired-le now ((j, s) ∷ m) = ground (arith, length-purge_expired-le now m)

Absent-purge_expired :
    (now : ℕ) (id : Bytes) (m : Sessions) → Absent id m → Absent id (purge_expired now m)
unfolding purge_expired lookup
Absent-purge_expired now id [] a = refl
Absent-purge_expired now id ((j, s) ∷ m) a = ground (arith, Absent-purge_expired now id m)

Unique-purge_expired : (now : ℕ) (m : Sessions) → Unique m → Unique (purge_expired now m)
unfolding purge_expired
Unique-purge_expired now [] u = tt
Unique-purge_expired now ((j, s) ∷ m) (a, u) = elim (Bool-cases (is_expired s now)) [
  | inl y ↦ rw y (Unique-purge_expired now m u)
  | inr n ↦ rw n (Absent-purge_expired now j m a, Unique-purge_expired now m u)
]

Unique-insert : (id : Bytes) (s : Session) (m : Sessions) → Unique m → Unique (insert id s m)
unfolding insert
Unique-insert id s [] u = (unfold lookup in refl, tt)
Unique-insert id s ((j, x) ∷ m) (a, u) = elim (Bool-cases (bytes_eq j id)) [
  | inl y ↦ rw y (rw (← (bytes_eq_iff j id).0 y) a, u)
  | inr n ↦ rw n (
    rw (lookup-insert id j s m) (ground (arith, bytes_eq_iff id j, bytes_eq_iff j id)),
    Unique-insert id s m u,
  )
]

sweep-IsValid : (now : ℕ) (s : MemoryStore) → IsValid s → IsValid (sweep now s)
unfolding sweep
sweep-IsValid now s v =
    elim (Bool-cases
      (not (ltb now s.next_purge) || leb_ℤ s.max_sessions (pos (length s.sessions)))) [
        | inl y ↦ rw y (record {
          unique = Unique-purge_expired now s.sessions v.unique;
          bounded = omega (arith, length-purge_expired-le now s.sessions, v.bounded);
        })
        | inr n ↦ rw n v
      ]

delete-IsValid :
    (id : Bytes) (s : MemoryStore)
    → IsValid s
    → IsValid (record s { sessions = delete id s.sessions })
delete-IsValid id s v = record {
  unique = Unique-delete id s.sessions v.unique;
  bounded = omega (arith, length-delete-le id s.sessions, v.bounded);
}

put_new-IsValid :
    (now : ℕ) (session : Session) (s : MemoryStore) → IsValid s → IsValid (put_new now session s).0
unfolding put_new
put_new-IsValid now session s v =
    let w = sweep-IsValid now s v in
    elim (Bool-cases (leb_ℤ (sweep now s).max_sessions (pos (length (sweep now s).sessions)))) [
      | inl y ↦ rw (y, put_new) w
      | inr n ↦
          rw (n, put_new)
            (record {
              unique = Unique-insert session.payload_id session (sweep now s).sessions w.unique;
              bounded =
                  ground
                    (arith, length-insert_new session.payload_id session (sweep now s).sessions);
            })
    ]

put_now-IsValid :
    (now : ℕ) (session : Option Session) (s : MemoryStore)
    → IsValid s
    → IsValid (put_now now session s).0
put_now-IsValid now none s v = unfold put_now in v
put_now-IsValid now (some session) s v =
    let id = session.payload_id in
    elim (Option-cases (lookup id s.sessions)) [
      | inl e ↦ rw (put_now_new now session s e) (put_new-IsValid now session s v)
      | inr (x, e) ↦ elim (Bool-cases (is_expired x now)) [
        | inl y ↦ rw (put_now_again now session s x e y) (
            put_new-IsValid now session (record s { sessions = delete id s.sessions })
              (delete-IsValid id s v))
        | inr n ↦ rw (put_now_taken now session s x e n) v
      ]
    ]

update_now-IsValid :
    (now : ℕ) (session : Option Session) (s : MemoryStore)
    → IsValid s
    → IsValid (update_now now session s).0
update_now-IsValid now none s v = unfold update_now in v
update_now-IsValid now (some session) s v =
    let id = session.payload_id in
    elim (Option-cases (lookup id s.sessions)) [
      | inl e ↦ rw (update_now_missing now session s e) v
      | inr (x, e) ↦ elim (Bool-cases (is_expired x now)) [
        | inl y ↦ rw (update_now_expired now session s x e y) (delete-IsValid id s v)
        | inr n ↦ rw (update_now_live now session s x e n) (record {
          unique = Unique-insert id session s.sessions v.unique;
          bounded = omega (arith, length-insert_old id session s.sessions e, v.bounded);
        })
      ]
    ]

get_now-IsValid :
    (now : ℕ) (id : Bytes) (s : MemoryStore) → IsValid s → IsValid (get_now now id s).0
get_now-IsValid now id s v = elim (Option-cases (lookup id s.sessions)) [
  | inl e ↦ rw (get_now_missing now id s e) v
  | inr (x, e) ↦ elim (Bool-cases (is_expired x now)) [
    | inl y ↦ rw (get_now_expired now id s x e y) (delete-IsValid id s v)
    | inr n ↦ rw (get_now_live now id s x e n) v
  ]
]

-- A call of the store at some time.
pub data Call : Type 0 where
  call_get : ℕ → Bytes → Call
  call_put call_update : ℕ → Option Session → Call
  call_delete : Bytes → Call

-- The state behind a series of calls, in the order in which they got the mutex.
unfoldable pub run : List Call → MemoryStore → MemoryStore
run [] s = s
run (call_get now id ∷ calls) s = run calls (get_now now id s).0
run (call_put now session ∷ calls) s = run calls (put_now now session s).0
run (call_update now session ∷ calls) s = run calls (update_now now session s).0
run (call_delete id ∷ calls) s = run calls (delete_now id s).0

run-IsValid_from : (calls : List Call) (s : MemoryStore) → IsValid s → IsValid (run calls s)
unfolding run
run-IsValid_from [] s v = v
run-IsValid_from (call_get now id ∷ calls) s v =
    run-IsValid_from calls (get_now now id s).0 (get_now-IsValid now id s v)
run-IsValid_from (call_put now session ∷ calls) s v =
    run-IsValid_from calls (put_now now session s).0 (put_now-IsValid now session s v)
run-IsValid_from (call_update now session ∷ calls) s v =
    run-IsValid_from calls (update_now now session s).0 (update_now-IsValid now session s v)
run-IsValid_from (call_delete id ∷ calls) s v =
    run-IsValid_from calls (delete_now id s).0 (unfold delete_now in delete-IsValid id s v)

-- After any calls, in any order and at any times, a store that began empty holds no id twice and
-- no more sessions than its capacity, if the capacity is not negative.
pub run-IsValid :
    (max : ℤ) (calls : List Call) → pos 0 ≤ℤ max → IsValid (run calls (new_memory_store max))
unfolding new_memory_store
run-IsValid max calls h =
    run-IsValid_from calls (record { max_sessions = max; sessions = []; next_purge = 0 })
      (record { unique = tt; bounded = h })

-- How many sessions are not expired.
unfoldable pub live_count : ℕ → Sessions → ℕ
live_count now [] = 0
live_count now ((id, s) ∷ m) = (if is_expired s now then 0 else 1) + live_count now m

length-purge_expired : (now : ℕ) (m : Sessions) → length (purge_expired now m) ≡ live_count now m
unfolding purge_expired live_count
length-purge_expired now [] = refl
length-purge_expired now ((id, s) ∷ m) = ground (arith, length-purge_expired now m)

live_count-delete :
    (now : ℕ) (id : Bytes) (m : Sessions) → live_count now (delete id m) ≤ live_count now m
unfolding live_count delete
live_count-delete now id [] = omega arith
live_count-delete now id ((j, s) ∷ m) = ground (arith, live_count-delete now id m)

put_new-full :
    (now : ℕ) (session : Session) (s : MemoryStore) {e : Error}
    → (put_new now session s).1 ≡ err e
    → s.max_sessions ≤ℤ pos (live_count now s.sessions)
unfolding put_new sweep
put_new-full now session s h = ground (arith, length-purge_expired now s.sessions)

-- Where `PutIfAbsent` fails for a session, at least as many sessions as the capacity allows are not
-- expired.
pub put_now-full :
    (now : ℕ) (session : Session) (s : MemoryStore) {e : Error}
    → (put_now now (some session) s).1 ≡ err e
    → s.max_sessions ≤ℤ pos (live_count now s.sessions)
put_now-full now session s h =
    let id = session.payload_id in
    elim (Option-cases (lookup id s.sessions)) [
      | inl e ↦ put_new-full now session s (rw (put_now_new now session s e) at h)
      | inr (x, e) ↦ elim (Bool-cases (is_expired x now)) [
        | inl y ↦
            let full =
              put_new-full now session (record s { sessions = delete id s.sessions })
                (rw (put_now_again now session s x e y) at h) in
            omega (arith, full, live_count-delete now id s.sessions)
        | inr n ↦
            let no_error = rw (put_now_taken now session s x e n) at h in absurd (ground arith)
      ]
    ]
