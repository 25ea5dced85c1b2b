-- ===== src/Api/Limiter/Expiry.antt =====
-- Redis drops an idle bucket, and a dropped bucket counts as a full one.
use sales_lead_gen.Base.{ℕ, ◌+◌, ◌-◌, ◌*◌, ◌≤◌, ◌≡◌, refl, Option, none, some, arith}
use sales_lead_gen.Api.Limiter.{RateLimiter, Bucket, ttl, initial, refilled, script, acquire}

-- The bucket was last written at its own `last`, as the script leaves it.
abbrev pub IsWritten : Option Bucket → Type 0
IsWritten none = Unit
IsWritten (some b) = b.expires_at ≡ b.last + ttl

pub acquire-IsWritten :
    (r : RateLimiter) (now requested : ℕ) (found : Option Bucket)
    → IsWritten (some (acquire r now requested found).0)
unfolding acquire
acquire-IsWritten r now requested found = ground arith

-- After the time to live the refill alone has filled the bucket.
refilled_idle :
    (r : RateLimiter) (b : Bucket) (now : ℕ)
    → r.capacity ≤ ttl * r.refill_rate
    → b.last + ttl ≤ now
    → refilled r now (b.tokens, b.last) ≡ r.capacity
unfolding refilled
refilled_idle r b now fills idle =
    let gap : ttl ≤ now - b.last = omega arith in
    let more : ttl * r.refill_rate ≤ (now - b.last) * r.refill_rate = grind arith in omega arith

refilled_new : (r : RateLimiter) (now : ℕ) → refilled r now (initial r now none) ≡ r.capacity
unfolding refilled initial
refilled_new r now = omega arith

-- If the bucket refills within its time to live, the expiry is invisible: an acquisition grants
-- and leaves what it would if Redis kept the bucket for ever.
pub acquire-eq-script :
    (r : RateLimiter) (now requested : ℕ) (found : Option Bucket)
    → r.capacity ≤ ttl * r.refill_rate
    → IsWritten found
    → acquire r now requested found ≡ script r now requested found
unfolding acquire
acquire-eq-script r now requested none fills w = refl
acquire-eq-script r now requested (some b) fills w =
    ground (arith, refilled_idle r b now, refilled_new r now)
