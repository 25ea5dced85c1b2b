-- ===== src/Api/Client/Responses.antt =====
-- How answers become errors, and how long the client waits before it tries again.
use sales_lead_gen.Base.{ℕ, ◌*◌, ◌≤◌, ◌<◌, ◌≡◌, ◌⊎◌, ◌↔◌, String, Bool, true, some, arith}
use sales_lead_gen.Api.Errors.{Kind, ApiError}
use sales_lead_gen.Api.Client.{
  Response, ok, raised, check_response, defaults, delay, jitter, backoff_delay, is_surfaced,
}

-- The status codes that a caller sees at once, without a retry.
abbrev pub IsSurfaced : ℕ → Type 0
IsSurfaced status = (status ≡ 429) ⊎ (status ≡ 401) ⊎ (status ≡ 403)

abbrev pub Is2xx : ℕ → Type 0
Is2xx status = (200 ≤ status) × (status < 300)

-- A response is returned as it is exactly if its status is 2xx.
pub check_response_ok :
    (f : String → Bool) (r : Response)
    → ((s : Response) × (check_response f r ≡ ok s)) ↔ Is2xx r.status_code
unfolding check_response
check_response_ok f r = (λ (s, e). ground arith, λ h. (r, ground arith))

-- A response whose status is not 2xx raises an error that carries its status; the error is one that
-- is never retried exactly for 429, 401 and 403, and it stands for an unavailable provider exactly from 500
-- on.
pub check_response_error :
    (f : String → Bool) (r : Response) (e : ApiError)
    → check_response f r ≡ raised e
    → (e.status_code ≡ some r.status_code)
      × ((is_surfaced e.kind ≡ true) ↔ IsSurfaced r.status_code)
      × ((e.kind ≡ Kind.provider_unavailable) ↔ (500 ≤ r.status_code))
unfolding check_response
check_response_error f r e h =
    (ground arith, (λ k. ground arith, λ k. ground arith), (λ k. ground arith, λ k. ground arith))

-- The wait before a retry is at least half and at most one and a half times the capped delay.
pub backoff_delay_bounds :
    (attempt u : ℕ)
    → u ≤ 2 * jitter defaults attempt
    → (delay defaults attempt ≤ 2 * backoff_delay defaults attempt u)
      × (2 * backoff_delay defaults attempt u ≤ 3 * delay defaults attempt)
      × (backoff_delay defaults attempt u ≤ 45000)
unfolding backoff_delay
backoff_delay_bounds attempt u h = omega arith
