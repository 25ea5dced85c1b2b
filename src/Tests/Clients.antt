-- ===== src/Tests/Clients.antt =====
-- The API client at concrete inputs.
use sales_lead_gen.Base.{
  ℕ, ◌+◌, ◌≤◌, ◌<◌, ◌≡◌, refl, ◌≢◌, inr, true, false, Option, none, some, [], ◌∷◌, arith, ◌==◌,
  if◌then◌else◌, length,
}
use sales_lead_gen.Api.Breaker
use sales_lead_gen.Api.Breaker.{CircuitBreaker}
use sales_lead_gen.Api.Limiter.{RateLimiter, acquire}
use sales_lead_gen.Api.Errors.{Kind, ApiError, rate_limit_error, provider_unavailable_error}
use sales_lead_gen.Api.Client.{
  Response, Outcome, response, timeout_exception, send, defaults, World, Client, Reply, returned,
  type_error, request,
}
use sales_lead_gen.Api.Client.Retries.{request_succeeds, request_surfaces, request_exhausts}
use sales_lead_gen.Api.Client.Pacing.{request_paced}
use sales_lead_gen.Api.Client.Gates.{requests, probe_lost}

abbrev status : ℕ → Response
status n = record { status_code = n; retry_after = none }

abbrev limiter : RateLimiter
limiter = record { capacity = 10000; refill_rate = 1 }

-- The first call times out, the second finds the server down, the third succeeds.
abbrev answers : ℕ → Outcome
answers n =
    if n == 1
    then timeout_exception
    else if n == 2
    then response (status 503)
    else response (status 200)

abbrev world_of : (ℕ → Outcome) → World
world_of f = record { answer = f; clock = λ n. n; draw = λ n. 0; is_float = λ s. true }

abbrev client : Client
client = record { breaker = Breaker.new 5 60; bucket = none; sent = 0; slept = []; usage_rows = 0 }

abbrev unavailable : Option ℕ → ApiError
unavailable = provider_unavailable_error

request_succeeds_example :
    (let (reply, s') = request defaults limiter (world_of answers) 7 7 client in
      (reply ≡ returned (status 200))
      × (s'.sent ≡ 3)
      × (s'.usage_rows ≡ 1)
      × (s'.breaker.state ≡ Breaker.closed)
      × (s'.breaker.failure_count ≡ 0))
unfolding send Breaker.new Breaker.allow_request acquire
request_succeeds_example =
    request_succeeds defaults limiter (world_of answers) 7 7 client
      (unavailable none ∷ unavailable (some 503) ∷ []) (status 200) (refl, refl)
      ((refl, refl), ((refl, refl), tt)) (omega arith) refl

abbrev denied : ℕ → Outcome
denied n = response (status 401)

abbrev authentication : ApiError
authentication = record { kind = Kind.authentication; status_code = some 401; retry_after = none }

request_surfaces_example :
    (let (reply, s') = request defaults limiter (world_of denied) 7 7 client in
      (reply ≡ Reply.raised authentication)
      × (s'.sent ≡ 1)
      × (s'.usage_rows ≡ 0)
      × (s'.breaker.failure_count ≡ 0))
unfolding send Breaker.new Breaker.allow_request acquire
request_surfaces_example =
    request_surfaces defaults limiter (world_of denied) 7 7 client [] authentication (refl, refl) tt
      (omega arith) refl refl

abbrev down : ℕ → Outcome
down n = response (status 500)

request_exhausts_example :
    (let (reply, s') = request defaults limiter (world_of down) 7 7 client in
      (reply ≡ Reply.raised (unavailable (some 500)))
      × (s'.sent ≡ 3)
      × (s'.usage_rows ≡ 0)
      × (s'.breaker.failure_count ≡ 3))
unfolding send Breaker.new Breaker.allow_request acquire
request_exhausts_example =
    request_exhausts defaults limiter (world_of down) 7 7 client
      (unavailable (some 500) ∷ unavailable (some 500) ∷ unavailable (some 500) ∷ []) (refl, refl)
      ((refl, refl), ((refl, refl), ((refl, refl), tt))) refl

request_paced_example :
    (let (reply, s') = request defaults limiter (world_of down) 7 7 client in
      (0 < s'.sent)
      × (s'.sent ≤ 3)
      × (length s'.slept + 0 + 1 ≡ s'.sent + 0)
      × (reply ≢ type_error))
unfolding Breaker.new Breaker.allow_request acquire
request_paced_example =
    request_paced defaults limiter (world_of down) 7 7 client (refl, refl) (omega arith)

abbrev broken : Client
broken = record client {
  breaker = record {
    failure_threshold = 5;
    recovery_timeout = 60;
    state = Breaker.opened;
    failure_count = 5;
    opened_at = 10;
    half_open_probe_sent = false;
  };
}

abbrev drained : Client
drained = record client { bucket = some (record { tokens = 0; last = 7; expires_at = 3600007 }) }

abbrev throttled : ℕ → Outcome
throttled n = response (status 429)

probe_lost_example :
    (let s' = (request defaults limiter (world_of throttled) 70 70 broken).1 in
      requests defaults limiter
        (record { world = world_of answers; monotonic = 5000; now = 5000 } ∷ [])
        s'
      ≡ (Reply.raised (provider_unavailable_error none) ∷ [], s'))
unfolding send
probe_lost_example =
    probe_lost defaults limiter (world_of throttled) 70 70 broken
      (record { world = world_of answers; monotonic = 5000; now = 5000 } ∷ []) (refl, omega arith)
      (omega arith) (inr (rate_limit_error none, refl, refl))
