-- ===== src/Access/RateLimit.antt =====
-- internal/ratelimit/ratelimit.go: the token bucket and the limiter of the consumers. What float64
-- and `time.Duration` do is a parameter, so nothing here depends on how numbers are rounded. Times
-- are nanoseconds; each call is given the time that it reads.
pub mod Alone
use alpha_proxy.Prelude.{
  ℕ, Bytes, List, [], ◌∷◌, Bool, true, false, Option, none, some, if◌then◌else◌,
}
use alpha_proxy.Prelude.Dict.{lookup, insert}
use alpha_proxy.Prelude.Int.{ℤ, pos, ◌-ℤ◌}

-- The operations on float64: `minimum` is `math.Min`, `at_least` is `>=`, `of_int` is `float64(n)`,
-- `seconds` is `Duration.Seconds` and `to_duration` is `time.Duration(x)`.
pub record FloatOps (F : Type 0) : Type 0 where
  pub one : F
  pub one_second : F
  pub of_int : ℤ → F
  pub seconds : ℤ → F
  pub add : F → F → F
  pub sub : F → F → F
  pub mul : F → F → F
  pub div : F → F → F
  pub minimum : F → F → F
  pub at_least : F → F → Bool
  pub to_duration : F → ℤ

pub record TokenBucket (F : Type 0) : Type 0 where
  pub rate : F
  pub burst : F
  pub tokens : F
  pub last : ℕ

abbrev pub ConsumerLimiter : Type 0 → Type 0
ConsumerLimiter F = List (Bytes × TokenBucket F)

module _ {F : Type 0} (ops : FloatOps F) where
  unfoldable pub new_token_bucket : F → ℤ → ℕ → TokenBucket F
  new_token_bucket rate burst now = record {
    rate = rate;
    burst = ops.of_int burst;
    tokens = ops.of_int burst;
    last = now;
  }

  unfoldable pub refill : ℕ → TokenBucket F → TokenBucket F
  unfolding ◌-ℤ◌
  refill now b =
      let elapsed = ops.seconds (pos now -ℤ pos b.last) in
      record b {
        tokens = ops.minimum b.burst (ops.add b.tokens (ops.mul elapsed b.rate));
        last = now;
      }

  -- Whether the call is allowed, and otherwise the delay.
  unfoldable pub allow : ℕ → TokenBucket F → TokenBucket F × Bool × ℤ
  unfolding refill
  allow now b =
      let b' = refill now b in
      let deficit = ops.sub ops.one b'.tokens in
      if ops.at_least b'.tokens ops.one
      then (record b' { tokens = ops.sub b'.tokens ops.one }, true, pos 0)
      else (b', false, ops.to_duration (ops.mul (ops.div deficit b'.rate) ops.one_second))

  -- The loop of `NewConsumerLimiter`; each consumer comes with the time that its bucket reads.
  unfoldable pub add_buckets : F → ℤ → ConsumerLimiter F → List (Bytes × ℕ) → ConsumerLimiter F
  unfolding new_token_bucket
  add_buckets rate burst l [] = l
  add_buckets rate burst l (c ∷ consumers) =
      add_buckets rate burst (insert c.0 (new_token_bucket rate burst c.1) l) consumers

  unfoldable pub new_consumer_limiter : F → ℤ → List (Bytes × ℕ) → ConsumerLimiter F
  unfolding add_buckets
  new_consumer_limiter rate burst consumers = add_buckets rate burst [] consumers

  unfoldable pub allow_consumer : Bytes → ℕ → ConsumerLimiter F → ConsumerLimiter F × Bool × ℤ
  unfolding allow
  allow_consumer id now l = elim (lookup id l) [
    | none ↦ (l, true, pos 0)
    | some b ↦ (insert id (allow now b).0 l, (allow now b).1, (allow now b).2)
  ]
