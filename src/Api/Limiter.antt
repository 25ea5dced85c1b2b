-- ===== src/Api/Limiter.antt =====
-- `RateLimiter` of backend/app/services/api/base_client.py, with its Lua script. Time is in
-- milliseconds and tokens in thousandths, so a refill rate in tokens per second adds whole units.
-- Redis drops a bucket 3600 seconds after its last write.
pub mod Bounds
pub mod Expiry
use sales_lead_gen.Base.{
  ℕ, ◌+◌, ◌-◌, ◌*◌, min, Bool, true, false, Option, none, some, List, [], ◌∷◌, leb, if◌then◌else◌,
}

pub record RateLimiter : Type 0 where
  pub capacity : ℕ
  pub refill_rate : ℕ

-- The hash that the script keeps: its two fields, and the time at which Redis drops it.
pub record Bucket : Type 0 where
  pub tokens : ℕ
  pub last : ℕ
  pub expires_at : ℕ

-- `EXPIRE key 3600`
abbrev pub ttl : ℕ
ttl = 3600000

-- What `HMGET` finds at a time: an expired hash is gone.
unfoldable pub hmget : ℕ → Option Bucket → Option Bucket
hmget now none = none
hmget now (some b) = if leb b.expires_at now then none else some b

-- The script's `tokens` and `last` before the refill; a missing bucket is a full one.
unfoldable pub initial : RateLimiter → ℕ → Option Bucket → ℕ × ℕ
initial r now none = (r.capacity, now)
initial r now (some b) = (b.tokens, b.last)

-- `math.max(0, now - last)` is the truncated difference.
unfoldable pub refilled : RateLimiter → ℕ → ℕ × ℕ → ℕ
refilled r now (tokens, last) = min r.capacity (tokens + (now - last) * r.refill_rate)

unfoldable pub script : RateLimiter → ℕ → ℕ → Option Bucket → Bucket × Bool
unfolding initial refilled
script r now requested found =
    let tokens = refilled r now (initial r now found) in
    if leb requested tokens
    then (record { tokens = tokens - requested; last = now; expires_at = now + ttl }, true)
    else (record { tokens = tokens; last = now; expires_at = now + ttl }, false)

-- `acquire(tokens)` at a reading of the clock; `requested` is `1000 * tokens`.
unfoldable pub acquire : RateLimiter → ℕ → ℕ → Option Bucket → Bucket × Bool
unfolding script hmget
acquire r now requested found = script r now requested (hmget now found)
