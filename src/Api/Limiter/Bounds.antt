-- ===== src/Api/Limiter/Bounds.antt =====
-- How many requests the bucket lets through in a period.
use sales_lead_gen.Base.{
  ℕ, ◌+◌, ◌-◌, ◌*◌, ◌≤◌, ◌≡◌, Bool, true, false, Option, none, some, List, [], ◌∷◌, arith,
  if◌then◌else◌, ap,
}
use sales_lead_gen.Api.Limiter.Expiry.{IsWritten, acquire-IsWritten, acquire-eq-script}
use sales_lead_gen.Api.Limiter.{RateLimiter, Bucket, ttl, script, acquire}

-- Acquisitions that follow one another after the given pauses: the time and the bucket after
-- them, and how many were granted.
unfoldable pub acquires : RateLimiter → ℕ → ℕ → Option Bucket → List ℕ → Option Bucket × ℕ
acquires r requested now found [] = (found, 0)
acquires r requested now found (pause ∷ pauses) =
    let (b, granted) = acquire r (now + pause) requested found in
    let (found', n) = acquires r requested (now + pause) (some b) pauses in
    (found', (if granted then n + 1 else n))

abbrev pub total : List ℕ → ℕ
total [] = 0
total (p ∷ ps) = p + total ps

-- Neither the bucket's tokens nor what one acquisition leaves passes the capacity.
pub acquire-le-capacity :
    (r : RateLimiter) (now requested : ℕ) (found : Option Bucket)
    → (acquire r now requested found).0.tokens ≤ r.capacity
unfolding acquire
acquire-le-capacity r now requested none = ground arith
acquire-le-capacity r now requested (some b) = ground arith

-- One acquisition: what it grants and leaves was there, or was refilled since the last one.
acquire_conserves :
    (r : RateLimiter) (requested now pause : ℕ) (b : Bucket)
    → r.capacity ≤ ttl * r.refill_rate
    → IsWritten (some b)
    → b.last ≡ now
    → (let (b', granted) = acquire r (now + pause) requested (some b) in
        ((if granted then requested else 0) + b'.tokens ≤ b.tokens + pause * r.refill_rate)
        × (b'.last ≡ now + pause))
unfolding script
acquire_conserves r requested now pause b fills w e =
    let later : now + pause - b.last ≡ pause = omega arith in
    rw (acquire-eq-script r (now + pause) requested (some b) fills w)
      (ground (arith, ap (λ (t : ℕ). t * r.refill_rate) later))

acquire_first :
    (r : RateLimiter) (requested now : ℕ)
    → (let (b, granted) = acquire r now requested none in
        ((if granted then requested else 0) + b.tokens ≤ r.capacity) × (b.last ≡ now))
unfolding acquire
acquire_first r requested now = ground arith

one_more :
    (granted : Bool) (requested n left tokens gain later : ℕ)
    → (if granted then requested else 0) + left ≤ tokens + gain
    → requested * n ≤ left + later
    → requested * (if granted then n + 1 else n) ≤ tokens + (gain + later)
one_more true requested n left tokens gain later h k = omega arith
one_more false requested n left tokens gain later h k = omega arith

acquires_bound_from :
    (r : RateLimiter) (requested now : ℕ) (pauses : List ℕ) (b : Bucket)
    → r.capacity ≤ ttl * r.refill_rate
    → IsWritten (some b)
    → b.last ≡ now
    → requested * (acquires r requested now (some b) pauses).1
      ≤ b.tokens + total pauses * r.refill_rate
unfolding acquires
acquires_bound_from r requested now [] b fills w e = omega arith
acquires_bound_from r requested now (p ∷ ps) b fills w e =
    let b' : Bucket = (acquire r (now + p) requested (some b)).0 in
    let (keep, at) = acquire_conserves r requested now p b fills w e in
    let rest =
      acquires_bound_from r requested (now + p) ps b' fills
        (acquire-IsWritten r (now + p) requested (some b)) at in
    let bound =
      one_more (acquire r (now + p) requested (some b)).1 requested _ b'.tokens b.tokens
        (p * r.refill_rate) (total ps * r.refill_rate) keep rest in
    omega (arith, bound)

-- Starting from no bucket, requests that follow one another after any pauses are granted no more
-- tokens than the capacity and what refills during the pauses, if the bucket refills within its
-- time to live.
pub acquires_bound :
    (r : RateLimiter) (requested now : ℕ) (pauses : List ℕ)
    → r.capacity ≤ ttl * r.refill_rate
    → requested * (acquires r requested now none pauses).1
      ≤ r.capacity + total pauses * r.refill_rate
unfolding acquires
acquires_bound r requested now [] fills = omega arith
acquires_bound r requested now (p ∷ ps) fills =
    let b : Bucket = (acquire r (now + p) requested none).0 in
    let (keep, at) = acquire_first r requested (now + p) in
    let rest =
      acquires_bound_from r requested (now + p) ps b fills
        (acquire-IsWritten r (now + p) requested none) at in
    let bound =
      one_more (acquire r (now + p) requested none).1 requested _ b.tokens r.capacity 0
        (total ps * r.refill_rate) (omega (arith, keep)) rest in
    omega (arith, bound)
