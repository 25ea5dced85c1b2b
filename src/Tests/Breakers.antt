-- ===== src/Tests/Breakers.antt =====
-- The circuit breaker and the rate limiter at concrete inputs.
use sales_lead_gen.Base.{◌+◌, ◌*◌, ◌≤◌, ◌≡◌, refl, false, none, some, [], ◌∷◌, arith}
use sales_lead_gen.Api.Breaker
use sales_lead_gen.Api.Breaker.{CircuitBreaker}
use sales_lead_gen.Api.Breaker.Traces.{asks, asks_one_probe}
use sales_lead_gen.Api.Limiter.{RateLimiter, Bucket, acquire, script}
use sales_lead_gen.Api.Limiter.Bounds.{acquires, acquires_bound}
use sales_lead_gen.Api.Limiter.Expiry.{acquire-eq-script}

abbrev breaker : CircuitBreaker
breaker = record {
  failure_threshold = 2;
  recovery_timeout = 60;
  state = Breaker.opened;
  failure_count = 2;
  opened_at = 10;
  half_open_probe_sent = false;
}

abbrev half_way : CircuitBreaker
half_way = record {
  failure_threshold = 2;
  recovery_timeout = 60;
  state = Breaker.closed;
  failure_count = 1;
  opened_at = 0;
  half_open_probe_sent = false;
}

asks_one_probe_example : (asks breaker (20 ∷ 70 ∷ 71 ∷ 500 ∷ [])).1 ≤ 1
asks_one_probe_example = asks_one_probe breaker (20 ∷ 70 ∷ 71 ∷ 500 ∷ []) (λ e. cc)

-- The probe is let through, once.
probe_runs : (asks breaker (20 ∷ 70 ∷ 71 ∷ 500 ∷ [])).1 ≡ 1
unfolding asks Breaker.allow_request
probe_runs = refl

abbrev limiter : RateLimiter
limiter = record { capacity = 10000; refill_rate = 1 }

acquires_bound_example :
    1000 * (acquires limiter 1000 5 none (0 ∷ 10 ∷ 2000 ∷ [])).1 ≤ 10000 + 2010 * 1
acquires_bound_example = acquires_bound limiter 1000 5 (0 ∷ 10 ∷ 2000 ∷ []) (omega arith)

abbrev idle : Bucket
idle = record { tokens = 0; last = 100; expires_at = 3600100 }

acquire-eq-script_example :
    acquire limiter 3700000 1000 (some idle) ≡ script limiter 3700000 1000 (some idle)
acquire-eq-script_example = acquire-eq-script limiter 3700000 1000 (some idle) (omega arith) refl
