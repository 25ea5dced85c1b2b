-- ===== src/Api/Breaker/Traces.antt =====
-- What the circuit breaker does over sequences of calls.
use sales_lead_gen.Base.{
  ◌≢◌, ◌≤◌, ℕ, ◌+◌, ◌≤◌, ◌<◌, ◌≡◌, ◌↔◌, inl, inr, refl, true, arith, if◌then◌else◌, List, [], ◌∷◌,
  length, All, Bool-cases,
}
use sales_lead_gen.Api.Breaker.{
  CircuitBreaker, closed, opened, half_open, new, record_success, record_failure, allow_request,
}
use sales_lead_gen.Api.Breaker.Laws.{
  IsValid, new-IsValid, allow_request-IsValid, record_success-IsValid, record_failure-IsValid,
}

pub data Call : Type 0 where
  ask : ℕ → Call
  succeed : Call
  fail : ℕ → Call

unfoldable pub call : Call → CircuitBreaker → CircuitBreaker
call (ask now) b = (allow_request now b).0
call succeed b = record_success b
call (fail now) b = record_failure now b

unfoldable pub calls : CircuitBreaker → List Call → CircuitBreaker
calls b [] = b
calls b (c ∷ cs) = calls (call c b) cs

failure_threshold-call :
    (c : Call) (b : CircuitBreaker) → (call c b).failure_threshold ≡ b.failure_threshold
unfolding call allow_request record_success record_failure
failure_threshold-call (ask now) b = ground arith
failure_threshold-call succeed b = ground arith
failure_threshold-call (fail now) b = ground arith

call-IsValid :
    (c : Call) (b : CircuitBreaker) → 0 < b.failure_threshold → IsValid b → IsValid (call c b)
unfolding call
call-IsValid (ask now) b h v = allow_request-IsValid now b v
call-IsValid succeed b h v = record_success-IsValid b h
call-IsValid (fail now) b h v = record_failure-IsValid now b v

calls-IsValid_from :
    (b : CircuitBreaker) (cs : List Call)
    → 0 < b.failure_threshold
    → IsValid b
    → IsValid (calls b cs)
unfolding calls
calls-IsValid_from b [] h v = v
calls-IsValid_from b (c ∷ cs) h v =
    calls-IsValid_from (call c b) cs (omega (arith, failure_threshold-call c b))
      (call-IsValid c b h v)

-- Whatever sequence of calls a new breaker with a positive threshold has had, it is valid: if it
-- is closed its failure count is below the threshold, and a probe is under way only if it is
-- half-open.
pub calls-IsValid :
    (threshold timeout : ℕ) (cs : List Call)
    → 0 < threshold
    → IsValid (calls (new threshold timeout) cs)
unfolding new
calls-IsValid threshold timeout cs h =
    calls-IsValid_from (new threshold timeout) cs h (new-IsValid threshold timeout h)

-- Consecutive failures, at the given times.
unfoldable pub failures : CircuitBreaker → List ℕ → CircuitBreaker
failures b [] = b
failures b (t ∷ ts) = failures (record_failure t b) ts

failures-IsValid : (b : CircuitBreaker) (ts : List ℕ) → IsValid b → IsValid (failures b ts)
unfolding failures
failures-IsValid b [] v = v
failures-IsValid b (t ∷ ts) v =
    failures-IsValid (record_failure t b) ts (record_failure-IsValid t b v)

failure_count-failures :
    (b : CircuitBreaker) (ts : List ℕ)
    → ((failures b ts).failure_count ≡ b.failure_count + length ts)
      × ((failures b ts).failure_threshold ≡ b.failure_threshold)
unfolding failures record_failure
failure_count-failures b [] = ground arith
failure_count-failures b (t ∷ ts) = ground (arith, failure_count-failures (record_failure t b) ts)

-- After consecutive failures a valid breaker is closed exactly if its failure count, with these
-- failures added, is still below the threshold.
pub failures_closed :
    (b : CircuitBreaker) (ts : List ℕ)
    → IsValid b
    → ((failures b ts).state ≡ closed) ↔ (b.failure_count + length ts < b.failure_threshold)
failures_closed b ts v =
    let w = failures-IsValid b ts v in
    let e = failure_count-failures b ts in
    ((λ c. omega (arith, w.below c)), (λ h. w.above (omega arith)))

-- Permission asked for at each of the given times: the breaker after them, and how many were let
-- through.
unfoldable pub asks : CircuitBreaker → List ℕ → CircuitBreaker × ℕ
asks b [] = (b, 0)
asks b (t ∷ ts) =
    let (b', allowed) = allow_request t b in
    let (b'', n) = asks b' ts in (b'', (if allowed then n + 1 else n))

asks_probing :
    (b : CircuitBreaker) (ts : List ℕ)
    → b.state ≡ half_open
    → b.half_open_probe_sent ≡ true
    → asks b ts ≡ (b, 0)
unfolding asks allow_request
asks_probing b [] s p = refl
asks_probing b (t ∷ ts) s p = ground (arith, asks_probing b ts s p)

-- An open breaker refuses every request asked for before the recovery timeout has passed, and
-- the refusals leave it as it was.
pub asks_opened :
    (b : CircuitBreaker) (ts : List ℕ)
    → b.state ≡ opened
    → All (λ t. t < b.opened_at + b.recovery_timeout) ts
    → asks b ts ≡ (b, 0)
unfolding asks allow_request
asks_opened b [] s h = refl
asks_opened b (t ∷ ts) s h = ground (arith, asks_opened b ts s h.1)

probe_granted :
    (b : CircuitBreaker) (t : ℕ)
    → b.state ≢ closed
    → (allow_request t b).1 ≡ true
    → ((allow_request t b).0.state ≡ half_open)
      × ((allow_request t b).0.half_open_probe_sent ≡ true)
unfolding allow_request
probe_granted b t s h = ground arith

stays_closed_out :
    (b : CircuitBreaker) (t : ℕ) → b.state ≢ closed → (allow_request t b).0.state ≢ closed
unfolding allow_request
stays_closed_out b t s = ground arith

-- A breaker that is not closed lets at most one request through, however often and whenever it is
-- asked, as long as no outcome is recorded.
pub asks_one_probe : (b : CircuitBreaker) (ts : List ℕ) → b.state ≢ closed → (asks b ts).1 ≤ 1
unfolding asks
asks_one_probe b [] s = omega arith
asks_one_probe b (t ∷ ts) s = elim (Bool-cases (allow_request t b).1) [
  | inl granted ↦
      let (h, p) = probe_granted b t s granted in
      rw (granted, asks_probing (allow_request t b).0 ts h p) (omega arith)
  | inr refused ↦ rw refused (asks_one_probe (allow_request t b).0 ts (stays_closed_out b t s))
]
