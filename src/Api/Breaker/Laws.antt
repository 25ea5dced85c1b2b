-- ===== src/Api/Breaker/Laws.antt =====
-- What one call of the circuit breaker does, and the invariant that every call keeps.
use sales_lead_gen.Base.{ℕ, ◌<◌, ◌≡◌, true, arith}
use sales_lead_gen.Api.Breaker.{
  CircuitBreaker, closed, half_open, new, record_success, record_failure, allow_request,
}

-- The breaker is closed exactly while its failure count is below the threshold, and only a
-- half-open one has a probe under way.
pub record IsValid (b : CircuitBreaker) : Type 0 where
  pub below : b.state ≡ closed → b.failure_count < b.failure_threshold
  pub above : b.failure_count < b.failure_threshold → b.state ≡ closed
  pub probing : b.half_open_probe_sent ≡ true → b.state ≡ half_open

pub new-IsValid : (threshold timeout : ℕ) → 0 < threshold → IsValid (new threshold timeout)
unfolding new
new-IsValid threshold timeout h = ground arith

pub allow_request-IsValid :
    (now : ℕ) (b : CircuitBreaker) → IsValid b → IsValid (allow_request now b).0
unfolding allow_request
allow_request-IsValid now b v = ground arith

pub record_success-IsValid :
    (b : CircuitBreaker) → 0 < b.failure_threshold → IsValid (record_success b)
unfolding record_success
record_success-IsValid b h = ground arith

pub record_failure-IsValid :
    (now : ℕ) (b : CircuitBreaker) → IsValid b → IsValid (record_failure now b)
unfolding record_failure
record_failure-IsValid now b v = ground arith
