-- ===== src/Api/Client.antt =====
-- `BaseAPIClient` of backend/app/services/api/base_client.py: `request`, `_send`,
-- `_check_response` and `_backoff_delay`. The HTTP library, the clock and the random source answer
-- through a `World`; the pooled connection, headers and log lines are left out.
pub mod Retries
pub mod Pacing
pub mod Gates
pub mod Responses
use sales_lead_gen.Base.{
  ℕ, zero, suc, ◌+◌, ◌-◌, ◌*◌, ◌/◌, ◌^◌, ◌≤◌, min, String, Bool, true, false, Option, none, some,
  List, [], ◌∷◌, ◌++◌, ltb, leb, ◌==◌, ◌&&◌, ◌||◌, if◌then◌else◌, str_eq, not,
}
use sales_lead_gen.Api.Breaker
use sales_lead_gen.Api.Breaker.{CircuitBreaker}
use sales_lead_gen.Api.Limiter.{RateLimiter, Bucket, acquire}
use sales_lead_gen.Api.Errors.{
  Kind, ApiError, api_error, rate_limit_error, authentication_error, provider_unavailable_error,
}

pub record Response : Type 0 where
  pub status_code : ℕ
  -- `response.headers.get("Retry-After")`
  pub retry_after : Option String

-- How `httpx` answers one call.
pub data Outcome : Type 0 where
  response : Response → Outcome
  timeout_exception connect_error http_error : Outcome

pub data Sent : Type 0 where
  ok : Response → Sent
  raised : ApiError → Sent

-- `float(raw_retry)`, kept only if the header is there, not empty and a number.
unfoldable pub parse_retry : (String → Bool) → Option String → Option String
parse_retry is_float none = none
parse_retry is_float (some raw) =
    if str_eq raw "" then none else if is_float raw then some raw else none

unfoldable pub check_response : (String → Bool) → Response → Sent
unfolding parse_retry
check_response is_float r =
    if leb 200 r.status_code && ltb r.status_code 300
    then ok r
    else if r.status_code == 429
    then raised (rate_limit_error (parse_retry is_float r.retry_after))
    else if r.status_code == 401 || r.status_code == 403
    then raised (authentication_error r.status_code)
    else if leb 500 r.status_code
    then raised (provider_unavailable_error (some r.status_code))
    else raised (api_error (some r.status_code))

unfoldable pub send : (String → Bool) → Outcome → Sent
unfolding check_response
send is_float (response r) = check_response is_float r
send is_float timeout_exception = raised (provider_unavailable_error none)
send is_float connect_error = raised (provider_unavailable_error none)
send is_float http_error = raised (provider_unavailable_error none)

-- The class attributes; delays are in milliseconds and the jitter factor in percent.
pub record Config : Type 0 where
  pub max_retries : ℕ
  pub retry_base_delay : ℕ
  pub retry_max_delay : ℕ
  pub retry_jitter : ℕ

abbrev pub defaults : Config
defaults = record {
  max_retries = 3;
  retry_base_delay = 1000;
  retry_max_delay = 30000;
  retry_jitter = 50;
}

unfoldable pub delay : Config → ℕ → ℕ
delay c attempt = min (c.retry_base_delay * 2 ^ (attempt - 1)) c.retry_max_delay

unfoldable pub jitter : Config → ℕ → ℕ
unfolding delay
jitter c attempt = delay c attempt * c.retry_jitter / 100

-- `random.uniform(-jitter, jitter)` is `u - jitter` for a draw `u` up to `2 * jitter`.
unfoldable pub backoff_delay : Config → ℕ → ℕ → ℕ
unfolding delay jitter
backoff_delay c attempt u = delay c attempt + u - jitter c attempt

-- What the environment does on the n-th attempt of a request: the answer, the clock when a
-- failure is recorded, and the draw of the random source.
pub record World : Type 0 where
  pub answer : ℕ → Outcome
  pub clock : ℕ → ℕ
  pub draw : ℕ → ℕ
  pub is_float : String → Bool

-- The client's state: the breaker, the bucket in Redis, the number of calls sent, the delays slept
-- and the usage rows that were spawned.
pub record Client : Type 0 where
  pub breaker : CircuitBreaker
  pub bucket : Option Bucket
  pub sent : ℕ
  pub slept : List ℕ
  pub usage_rows : ℕ

-- `raise last_exc` where no attempt was made raises `None`, a `TypeError`.
pub data Reply : Type 0 where
  returned : Response → Reply
  raised : ApiError → Reply
  type_error : Reply

abbrev pub raise_last : Option ApiError → Reply
raise_last none = type_error
raise_last (some e) = Reply.raised e

-- `except (RateLimitError, AuthenticationError): raise`
abbrev pub is_surfaced : Kind → Bool
is_surfaced Kind.rate_limit = true
is_surfaced Kind.authentication = true
is_surfaced _ = false

module _ (c : Config) (w : World) where
  unfoldable pub on_success : Client → Client
  on_success s = record s {
    breaker = Breaker.record_success s.breaker;
    usage_rows = s.usage_rows + 1;
  }

  unfoldable pub on_failure : ℕ → Client → Client
  on_failure attempt s = record s {
    breaker = Breaker.record_failure (w.clock attempt) s.breaker;
    slept =
        if ltb attempt c.max_retries
        then s.slept ++ backoff_delay c attempt (w.draw attempt) ∷ []
        else s.slept;
  }

  -- The `for` loop from an attempt on, with the number of attempts that are left.
  unfoldable pub attempts : ℕ → ℕ → Option ApiError → Client → Reply × Client
  unfolding on_success on_failure
  attempts zero attempt last_exc s = (raise_last last_exc, s)
  attempts (suc left) attempt last_exc s =
      let s' : Client = record s { sent = s.sent + 1 } in
      elim (send w.is_float (w.answer attempt)) [
        | ok r ↦ (returned r, on_success s')
        | raised e ↦
            let rest = attempts left (attempt + 1) (some e) (on_failure attempt s') in
            if is_surfaced e.kind then (Reply.raised e, s') else rest
      ]

-- `request`, with the readings of the two clocks at its gates.
unfoldable pub request : Config → RateLimiter → World → ℕ → ℕ → Client → Reply × Client
unfolding attempts
request c limiter w monotonic now s =
    let (breaker, allowed) = Breaker.allow_request monotonic s.breaker in
    if not allowed
    then (Reply.raised (provider_unavailable_error none), record s { breaker = breaker })
    else let (bucket, acquired) = acquire limiter now 1000 s.bucket in
      let s' : Client = record s { breaker = breaker; bucket = some bucket } in
      if not acquired
      then (Reply.raised (rate_limit_error none), s')
      else attempts c w c.max_retries 1 none s'
