-- ===== src/Access/RateLimit/Alone.antt =====
-- The answers of the limiter to one consumer among the requests of several.
use alpha_proxy.Access.RateLimit.{FloatOps, TokenBucket, ConsumerLimiter, allow, allow_consumer}
use alpha_proxy.Prelude.{
  ℕ, Bytes, List, [], ◌∷◌, Bool, true, false, Option, none, some, ◌≡◌, refl, sym, ap, ◌∙◌, bytes_eq,
  bytes_eq_iff, bytes_eq_refl, subst, if◌then◌else◌, Bool-cases, Option-cases, inl, inr,
}
use alpha_proxy.Prelude.Dict.{lookup, insert, lookup-insert}
use alpha_proxy.Prelude.Int.{ℤ, pos, ◌-ℤ◌}

-- The times of the requests of one consumer.
unfoldable pub own_times : Bytes → List (Bytes × ℕ) → List ℕ
own_times c [] = []
own_times c ((id, now) ∷ requests) =
    let rest = own_times c requests in if bytes_eq id c then now ∷ rest else rest

module _ {F : Type 0} (ops : FloatOps F) where
  -- What the limiter answers to one consumer, where the requests of all come in this order.
  unfoldable pub answers : Bytes → ConsumerLimiter F → List (Bytes × ℕ) → List (Bool × ℤ)
  answers c l [] = []
  answers c l ((id, now) ∷ requests) =
      let r = allow_consumer ops id now l in
      let rest = answers c r.0 requests in if bytes_eq id c then (r.1, r.2) ∷ rest else rest

  -- What a bucket of one's own answers: at each time the level rises with the time since the one
  -- before, up to the burst, and a request is allowed where a token is there, which it takes.
  unfoldable pub level_answers : F → F → F → ℕ → List ℕ → List (Bool × ℤ)
  level_answers rate burst tokens last [] = []
  level_answers rate burst tokens last (now ∷ times) =
      let gained = ops.mul (ops.seconds (pos now -ℤ pos last)) rate in
      let level = ops.minimum burst (ops.add tokens gained) in
      let wait = ops.mul (ops.div (ops.sub ops.one level) rate) ops.one_second in
      let taken = level_answers rate burst (ops.sub level ops.one) now times in
      let left = level_answers rate burst level now times in
      if ops.at_least level ops.one
      then (true, pos 0) ∷ taken
      else (false, ops.to_duration wait) ∷ left

  -- Without a bucket, everything is allowed.
  unfoldable pub bucket_answers : Option (TokenBucket F) → List ℕ → List (Bool × ℤ)
  bucket_answers none [] = []
  bucket_answers none (now ∷ times) = (true, pos 0) ∷ bucket_answers none times
  bucket_answers (some b) times = level_answers b.rate b.burst b.tokens b.last times

  no_answers : (b : Option (TokenBucket F)) → bucket_answers b [] ≡ []
  unfolding bucket_answers level_answers
  no_answers none = refl
  no_answers (some b) = refl

  -- A call for another consumer leaves the bucket.
  bucket-other :
      (c id : Bytes) (now : ℕ) (l : ConsumerLimiter F)
      → bytes_eq id c ≡ false
      → lookup c (allow_consumer ops id now l).0 ≡ lookup c l
  unfolding allow_consumer
  bucket-other c id now l n = elim (Option-cases (lookup id l)) [
    | inl e ↦ rw (allow_consumer, e) refl
    | inr (b, e) ↦ rw (allow_consumer, e) (lookup-insert id c (allow ops now b).0 l ∙ rw n refl)
  ]

  -- A call of a bucket, and what follows.
  allow-level :
      (now : ℕ) (b : TokenBucket F) (times : List ℕ)
      → let r = allow ops now b in
        (r.1, r.2) ∷ bucket_answers (some r.0) times ≡ bucket_answers (some b) (now ∷ times)
  unfolding allow bucket_answers level_answers
  allow-level now b times =
      let gained = ops.mul (ops.seconds (pos now -ℤ pos b.last)) b.rate in
      let level = ops.minimum b.burst (ops.add b.tokens gained) in
      elim (Bool-cases (ops.at_least level ops.one)) [ inl y ↦ rw y refl | inr n ↦ rw n refl ]

  -- The first of one's own requests.
  own_answer :
      (id : Bytes) (now : ℕ) (l : ConsumerLimiter F) (times : List ℕ)
      → let r = allow_consumer ops id now l in
        (r.1, r.2) ∷ bucket_answers (lookup id r.0) times
        ≡ bucket_answers (lookup id l) (now ∷ times)
  unfolding allow_consumer bucket_answers
  own_answer id now l times = elim (Option-cases (lookup id l)) [
    | inl e ↦ rw (allow_consumer, e) (rw e refl)
    | inr (b, e) ↦
        let kept : lookup id (insert id (allow ops now b).0 l) ≡ some (allow ops now b).0 =
          lookup-insert id id (allow ops now b).0 l ∙ rw (bytes_eq_refl id) refl in
        rw (allow_consumer, e) (rw kept (allow-level now b times))
  ]

  -- In whatever order the requests of several consumers come, each consumer is answered from the
  -- level of its own bucket alone, which rises at its rate up to its burst and falls by a token with
  -- each of its own requests that is allowed; a request is allowed exactly where the level has a
  -- token; and a consumer without a bucket is always allowed. All this holds however float64 rounds.
  pub answers-eq-bucket_answers :
      (c : Bytes) (l : ConsumerLimiter F) (requests : List (Bytes × ℕ))
      → answers c l requests ≡ bucket_answers (lookup c l) (own_times c requests)
  unfolding answers own_times
  answers-eq-bucket_answers c l [] = sym (no_answers (lookup c l))
  answers-eq-bucket_answers c l ((id, now) ∷ requests) = elim (Bool-cases (bytes_eq id c)) [
    | inr n ↦ rw n (
        answers-eq-bucket_answers c (allow_consumer ops id now l).0 requests
        ∙ ap (λ b. bucket_answers b (own_times c requests)) (bucket-other c id now l n))
    | inl y ↦
        let same = (bytes_eq_iff id c).0 y in
        rw y (
          ap (λ rest. ((allow_consumer ops id now l).1, (allow_consumer ops id now l).2) ∷ rest)
            (answers-eq-bucket_answers c (allow_consumer ops id now l).0 requests)
          ∙ subst
              (λ k.
                ((allow_consumer ops id now l).1, (allow_consumer ops id now l).2)
                  ∷ bucket_answers (lookup k (allow_consumer ops id now l).0) (own_times c requests)
                ≡ bucket_answers (lookup k l) (now ∷ own_times c requests))
              same (own_answer id now l (own_times c requests)))
  ]
