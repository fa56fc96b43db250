-- ===== src/RateLimit.antt =====
-- The token bucket of a chat (internal/orchestrator/rate_limit.go).
pub mod Laws
mod Samples
use kraclaw.Prelude.{ℕ, Bool, true, false, if◌then◌else◌}

-- The arithmetic of `float64`, whose values are given by their 64 bits.
pub record Float64 : Type 0 where
  -- The conversion of an `int64`.
  pub of_int : ℕ → ℕ
  pub add : ℕ → ℕ → ℕ
  pub sub : ℕ → ℕ → ℕ
  pub mul : ℕ → ℕ → ℕ
  -- `math.Min`.
  pub min : ℕ → ℕ → ℕ
  -- `a >= b`.
  pub ge : ℕ → ℕ → Bool
  -- `now.Sub(last).Seconds()` on two times.
  pub seconds_since : ℕ → ℕ → ℕ

pub record TokenBucket : Type 0 where
  pub capacity : ℕ
  -- A `float64`.
  pub tokens : ℕ
  pub last_refill_at : ℕ

module _ (float : Float64) where
  unfoldable pub new_token_bucket : ℕ → ℕ → TokenBucket
  new_token_bucket capacity now = record {
    capacity = capacity;
    tokens = float.of_int capacity;
    last_refill_at = now;
  }

  unfoldable pub refill : TokenBucket → ℕ → ℕ
  refill tb now =
      let elapsed = float.seconds_since now tb.last_refill_at in
      float.min (float.of_int tb.capacity)
        (float.add tb.tokens (float.mul elapsed (float.of_int tb.capacity)))

  -- The time may lie before the last refill: the caller reads the clock before it takes the lock.
  unfoldable pub try_acquire : TokenBucket → ℕ → TokenBucket × Bool
  unfolding refill
  try_acquire tb now =
      let tokens = refill tb now in
      if float.ge tokens (float.of_int 1)
      then (record tb { tokens = float.sub tokens (float.of_int 1); last_refill_at = now }, true)
      else (record tb { tokens = tokens; last_refill_at = now }, false)
