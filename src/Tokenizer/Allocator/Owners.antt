-- ===== src/Tokenizer/Allocator/Owners.antt =====
-- Which kind and value a token stands for, across calls of `Allocate`.
use alpha_proxy.Pii.{PiiKind}
use alpha_proxy.Prelude.{
  ℕ, ◌≤◌, ◌<◌, Bytes, List, [], ◌∷◌, ◌≡◌, ◌≢◌, refl, sym, ◌∙◌, arith, All, Option, none, some,
  false, length, contains, bytes_eq, bytes_eq_iff, bytes_eq_refl, if◌then◌else◌, ◌&&◌, Option-cases,
  Bool-cases, inl, inr,
}
use alpha_proxy.Tokenizer.Allocator.{
  Allocator, allocate, find_token, counter, set_counter, next_number, format_token, to_upper,
  new_allocator,
}
use alpha_proxy.Tokenizer.Allocator.Format.{
  IsKindText, format_token-IsTokenText, format_token-injective,
}
use alpha_proxy.Tokenizer.Allocator.Fresh.{lt-next_number, next_number-fresh}
use alpha_proxy.Tokenizer.Detokenizer.Tokens.{IsTokenText}

abbrev pub Entries : Type 0
Entries = List (PiiKind × Bytes × Bytes)

-- An entry has a token of its kind with a number up to the counter, which the text lacks.
pub record IsEntry (text : Bytes) (counters : List (PiiKind × ℕ)) (e : PiiKind × Bytes × Bytes)
    : Type 0 where
  pub kind : IsKindText e.0
  pub number : ℕ
  pub token : e.2 ≡ format_token (to_upper e.0) number
  pub counted : number ≤ counter e.0 counters
  pub fresh : contains text e.2 ≡ false

-- No two entries have one token.
abbrev pub Distinct : Entries → Type 0
Distinct [] = Unit
Distinct (e ∷ m) = All (λ f. f.2 ≢ e.2) m × Distinct m

pub record IsSound (a : Allocator) : Type 0 where
  pub entries : All (IsEntry a.text a.counters) a.mappings
  pub distinct : Distinct a.mappings

-- Whose token it is.
unfoldable pub owner : Bytes → Entries → Option (PiiKind × Bytes)
owner t [] = none
owner t ((k, v, u) ∷ m) = if bytes_eq u t then some (k, v) else owner t m

pub new_allocator-IsSound : (text : Bytes) → IsSound (new_allocator text)
unfolding new_allocator
new_allocator-IsSound text = record { entries = tt; distinct = tt }

find_token-ne :
    (k v t u : Bytes) (m : Entries) → All (λ f. f.2 ≢ u) m → find_token k v m ≡ some t → t ≢ u
unfolding find_token
find_token-ne k v t u [] h e = cc
find_token-ne k v t u ((k', v', t') ∷ m) (h, hs) e =
    elim (Bool-cases (bytes_eq k' k && bytes_eq v' v)) [
      | inl y ↦ let same : t' ≡ t = ground arith in rw (← same) h
      | inr n ↦ find_token-ne k v t u m hs (ground arith)
    ]

-- The token that is found for a kind and value is owned by them.
pub owner_of_find_token :
    (k v t : Bytes) (m : Entries) → Distinct m → find_token k v m ≡ some t → owner t m ≡ some (k, v)
unfolding find_token owner
owner_of_find_token k v t [] d e = cc
owner_of_find_token k v t ((k', v', t') ∷ m) (h, d) e =
    elim (Bool-cases (bytes_eq k' k && bytes_eq v' v)) [
      | inl y ↦ ground (arith, bytes_eq_iff k' k, bytes_eq_iff v' v, bytes_eq_iff t' t)
      | inr n ↦
          let found : find_token k v m ≡ some t = ground arith in
          ground (
            arith,
            bytes_eq_iff t' t,
            owner_of_find_token k v t m d found,
            find_token-ne k v t t' m h found,
          )
    ]

abbrev pub Grows : Entries → Entries → Type 0
Grows m m' = (k v t : Bytes) → find_token k v m ≡ some t → find_token k v m' ≡ some t

counter-set_counter :
    (kind k : PiiKind) (n : ℕ) (counters : List (PiiKind × ℕ))
    → counter kind counters ≤ n
    → counter k counters ≤ counter k (set_counter kind n counters)
unfolding counter set_counter
counter-set_counter kind k n counters h = ground (arith, bytes_eq_iff kind k)

counter_self :
    (kind : PiiKind) (n : ℕ) (counters : List (PiiKind × ℕ))
    → counter kind (set_counter kind n counters) ≡ n
unfolding counter set_counter
counter_self kind n counters = rw (bytes_eq_refl kind)

module _ (text : Bytes) (counters : List (PiiKind × ℕ)) (kind : PiiKind) (n : ℕ)
    (above : counter kind counters < n) where
  entries_counted :
      (m : Entries)
      → All (IsEntry text counters) m
      → All (IsEntry text (set_counter kind n counters)) m
  entries_counted [] h = tt
  entries_counted (e ∷ m) (h, hs) = (
    record {
      kind = h.kind;
      number = h.number;
      token = h.token;
      counted = omega (arith, counter-set_counter kind e.0 n counters (omega arith), h.counted);
      fresh = h.fresh;
    },
    entries_counted m hs,
  )

  -- A number above the counter gives a token that no entry has.
  token_new :
      (m : Entries)
      → IsKindText kind
      → All (IsEntry text counters) m
      → All (λ f. f.2 ≢ format_token (to_upper kind) n) m
  token_new [] k h = tt
  token_new (e ∷ m) k (h, hs) = (
    (λ same.
        let alike = format_token-injective e.0 kind h.number n h.kind.1 k.1 (sym h.token ∙ same) in
        let bound : h.number ≤ counter kind counters = rw (← alike.0) h.counted in
        omega (arith, alike.1, bound, above)),
    token_new m k hs,
  )

-- A call of `Allocate`: the state stays sound, the token is the one on record for the kind and
-- value, tokens on record stay, and the text is the same.
pub record Allocated (a a' : Allocator) (kind value token : Bytes) : Type 0 where
  pub sound : IsSound a'
  pub found : find_token kind value a'.mappings ≡ some token
  pub grows : Grows a.mappings a'.mappings
  pub text : a'.text ≡ a.text

find_token-head :
    (kind value token : Bytes) (m : Entries)
    → find_token kind value ((kind, value, token) ∷ m) ≡ some token
unfolding find_token
find_token-head kind value token m = rw (bytes_eq_refl kind, bytes_eq_refl value)

Grows-head :
    (kind value token : Bytes) (m : Entries)
    → find_token kind value m ≡ none
    → Grows m ((kind, value, token) ∷ m)
Grows-head kind value token m h k v t e =
    unfold find_token in
    elim (Bool-cases (bytes_eq kind k && bytes_eq value v)) [
      | inl y ↦ ground (arith, bytes_eq_iff kind k, bytes_eq_iff value v)
      | inr n ↦ rw n e
    ]

-- The number, the token and the state of a call that has to make a token.
abbrev fresh_number : Allocator → PiiKind → ℕ
fresh_number a kind = next_number (length a.text) a.text (to_upper kind) (counter kind a.counters)

abbrev fresh_token : Allocator → PiiKind → Bytes
fresh_token a kind = format_token (to_upper kind) (fresh_number a kind)

abbrev fresh_state : Allocator → PiiKind → Bytes → Allocator
fresh_state a kind value = record a {
  counters = set_counter kind (fresh_number a kind) a.counters;
  mappings = (kind, value, fresh_token a kind) ∷ a.mappings;
}

module _ (a : Allocator) (kind value : Bytes) where
  allocate_known :
      (t : Bytes) → find_token kind value a.mappings ≡ some t → allocate a kind value ≡ (a, t)
  unfolding allocate
  allocate_known t e = rw (e, allocate)

  allocate_new :
      find_token kind value a.mappings ≡ none
      → allocate a kind value ≡ (fresh_state a kind value, fresh_token a kind)
  unfolding allocate
  allocate_new e = rw (e, allocate)

  fresh_state-IsSound : IsSound a → IsKindText kind → IsSound (fresh_state a kind value)
  fresh_state-IsSound s k =
      let n = fresh_number a kind in
      let above = lt-next_number (length a.text) a.text (to_upper kind) (counter kind a.counters) in
      record {
        entries = (
          record {
            kind = k;
            number = n;
            token = refl;
            counted = omega (arith, counter_self kind n a.counters);
            fresh = next_number-fresh a.text (to_upper kind) (counter kind a.counters);
          },
          entries_counted a.text a.counters kind n above a.mappings s.entries,
        );
        distinct = (token_new a.text a.counters kind n above a.mappings k s.entries, s.distinct);
      }

  -- A call of `Allocate` on a sound state, with a kind spelled with small letters and `_`, leaves a
  -- sound state, in which the returned token is on record for the kind and value, every token that
  -- was on record still is, and the text is the same.
  pub allocate-Allocated :
      IsSound a
      → IsKindText kind
      → Allocated a (allocate a kind value).0 kind value (allocate a kind value).1
  allocate-Allocated s k = elim (Option-cases (find_token kind value a.mappings)) [
    | inr (t, e) ↦
        rw (allocate_known t e) (record { sound = s; found = e; grows = λ k v t f. f; text = refl })
    | inl e ↦ rw (allocate_new e) (record {
      sound = fresh_state-IsSound s k;
      found = find_token-head kind value (fresh_token a kind) a.mappings;
      grows = Grows-head kind value (fresh_token a kind) a.mappings e;
      text = refl;
    })
  ]

-- What a token on record is: of the form that the detokenizer looks for, and not in the text.
pub found-IsEntry :
    (text : Bytes) (counters : List (PiiKind × ℕ)) (k v t : Bytes) (m : Entries)
    → All (IsEntry text counters) m
    → find_token k v m ≡ some t
    → IsTokenText t × (contains text t ≡ false)
unfolding find_token
found-IsEntry text counters k v t [] h e = cc
found-IsEntry text counters k v t ((k', v', t') ∷ m) (h, hs) e =
    elim (Bool-cases (bytes_eq k' k && bytes_eq v' v)) [
      | inl y ↦
          let same : t' ≡ t = ground arith in
          rw (← same) (rw h.token (format_token-IsTokenText k' h.number h.kind), h.fresh)
      | inr n ↦ found-IsEntry text counters k v t m hs (ground arith)
    ]
