-- ===== src/RateLimit.antt =====
-- src/claw_msg/server/rate_limit.py. Time is counted in ticks of `time.monotonic()`. The bucket's
-- float is modelled by an exact number of shares, `token` shares to a token, so that one tick
-- refills `capacity` shares: `refill_rate` is capacity / 60 tokens per second. The rounding of
-- floats is not modelled.
pub mod Bucket
pub mod Limiter
use claw_msg.Prelude.{
  ℕ, ◌+◌, ◌-◌, ◌*◌, min, Bool, true, false, leb, if◌then◌else◌, some, none, String,
}
use claw_msg.Prelude.{Option}
use claw_msg.Prelude.Dict.{Dict, get, put}

-- Ticks per second, and the shares of one token: a token is refilled in 60 seconds over capacity.
abbrev pub ticks_per_second : ℕ
ticks_per_second = 1000000000

abbrev pub token : ℕ
token = 60000000000

pub record TokenBucket : Type 0 where
  pub capacity : ℕ
  pub tokens : ℕ
  pub last_refill : ℕ

-- `TokenBucket.__init__`
unfoldable pub new_bucket : ℕ → ℕ → TokenBucket
new_bucket capacity now = record {
  capacity = capacity;
  tokens = capacity * token;
  last_refill = now;
}

-- The refill at the head of `consume`.
unfoldable pub refill : ℕ → TokenBucket → TokenBucket
refill now b = record b {
  tokens = min (b.capacity * token) (b.tokens + (now - b.last_refill) * b.capacity);
  last_refill = now;
}

unfoldable pub consume : ℕ → TokenBucket → TokenBucket × Bool
unfolding refill
consume now b =
    let b' = refill now b in
    if leb token b'.tokens then (record b' { tokens = b'.tokens - token }, true) else (b', false)

abbrev pub Buckets : Type 0
Buckets = Dict TokenBucket

-- The factory of the `defaultdict`: a missing bucket is made at its first use.
abbrev pub or_new : ℕ → ℕ → Option TokenBucket → TokenBucket
or_new rate now none = new_bucket rate now
or_new rate now (some b) = b

-- `RateLimiter.allow`
unfoldable pub allow : ℕ → ℕ → String → Buckets → Buckets × Bool
unfolding consume
allow rate now agent_id d =
    let (b, ok) = consume now (or_new rate now (get d agent_id)) in (put d agent_id b, ok)
