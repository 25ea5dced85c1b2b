-- ===== src/Api/Client/Gates.antt =====
-- The gates of a request, and a breaker whose probe never ends.
use sales_lead_gen.Base.{
  ℕ, suc, ◌+◌, ◌-◌, ◌≤◌, ◌<◌, ◌≡◌, refl, ap, ◌∙◌, ◌⊎◌, inl, inr, true, false, none, List, [], ◌∷◌,
  map, arith, Bool-cases,
}
use sales_lead_gen.Api.Breaker
use sales_lead_gen.Api.Breaker.{CircuitBreaker}
use sales_lead_gen.Api.Limiter.{RateLimiter, acquire}
use sales_lead_gen.Api.Errors.{ApiError, rate_limit_error, provider_unavailable_error}
use sales_lead_gen.Api.Client.Retries.{attempts_final, admitted, request-admitted}
use sales_lead_gen.Api.Client.{
  raised, send, Config, World, Client, Reply, is_surfaced, attempts, request,
}

module _ (c : Config) (limiter : RateLimiter) (w : World) (monotonic now : ℕ) (s : Client) where
  -- A request that the breaker refuses raises an error, takes no token, makes no call and leaves
  -- the breaker as it was.
  pub request_refused :
      (Breaker.allow_request monotonic s.breaker).1 ≡ false
      → request c limiter w monotonic now s ≡ (Reply.raised (provider_unavailable_error none), s)
  unfolding request Breaker.allow_request
  request_refused h = ground arith

  -- A request that the bucket refuses raises a rate-limit error and makes no call.
  pub request_limited :
      (Breaker.allow_request monotonic s.breaker).1 ≡ true
      → (acquire limiter now 1000 s.bucket).1 ≡ false
      → (let (reply, s') = request c limiter w monotonic now s in
          (reply ≡ Reply.raised (rate_limit_error none))
          × (s'.sent ≡ s.sent)
          × (s'.slept ≡ s.slept)
          × (s'.usage_rows ≡ s.usage_rows)
          × (s'.breaker ≡ (Breaker.allow_request monotonic s.breaker).0))
  unfolding request
  request_limited h k = rw (h, k) (refl, refl, refl, refl, refl)

-- The breaker waits for the outcome of a probe.
abbrev pub IsProbing : CircuitBreaker → Type 0
IsProbing b = (b.state ≡ Breaker.half_open) × (b.half_open_probe_sent ≡ true)

-- One request to come: its world and the readings of the clocks at its gates.
pub record Attempted : Type 0 where
  pub world : World
  pub monotonic : ℕ
  pub now : ℕ

-- Requests one after another: the replies, and the client after them.
unfoldable pub requests : Config → RateLimiter → List Attempted → Client → List Reply × Client
requests c limiter [] s = ([], s)
requests c limiter (r ∷ rs) s =
    let (reply, s') = request c limiter r.world r.monotonic r.now s in
    let (replies, s'') = requests c limiter rs s' in (reply ∷ replies, s'')

-- While the outcome of a probe is awaited every request is refused, at any later time, and changes
-- nothing: only `record_success` and `record_failure` end the probe, and no request reaches them.
probing_refuses : (b : CircuitBreaker) (t : ℕ) → IsProbing b → (Breaker.allow_request t b).1 ≡ false
unfolding Breaker.allow_request
probing_refuses b t h = ground arith

requests_probing :
    (c : Config) (limiter : RateLimiter) (rs : List Attempted) (s : Client)
    → IsProbing s.breaker
    → requests c limiter rs s ≡ (map (λ r. Reply.raised (provider_unavailable_error none)) rs, s)
unfolding requests
requests_probing c limiter [] s h = refl
requests_probing c limiter (r ∷ rs) s h =
    let e =
      request_refused c limiter r.world r.monotonic r.now s
        (probing_refuses s.breaker r.monotonic h) in
    rw (e, requests_probing c limiter rs s h)

-- A request that becomes the probe of an open breaker.
abbrev pub IsProbe : ℕ → CircuitBreaker → Type 0
IsProbe t b = (b.state ≡ Breaker.opened) × (b.opened_at + b.recovery_timeout ≤ t)

probe_granted :
    (b : CircuitBreaker) (t : ℕ)
    → IsProbe t b
    → ((Breaker.allow_request t b).1 ≡ true) × IsProbing (Breaker.allow_request t b).0
unfolding Breaker.allow_request
probe_granted b t h = ground arith

module _ (c : Config) (limiter : RateLimiter) (w : World) (t now : ℕ) (s : Client)
    (p : IsProbe t s.breaker) (h : 0 < c.max_retries) where
  surfaced_breaker :
      (e : ApiError)
      → send w.is_float (w.answer 1) ≡ raised e
      → is_surfaced e.kind ≡ true
      → (acquire limiter now 1000 s.bucket).1 ≡ true
      → (request c limiter w t now s).1.breaker ≡ (Breaker.allow_request t s.breaker).0
  surfaced_breaker e sends final k =
      let left : ℕ = c.max_retries - 1 in
      let m : c.max_retries ≡ suc left = omega arith in
      let s' : Client = admitted c limiter w t now s in
      let whole =
        request-admitted c limiter w t now s ((probe_granted s.breaker t p).0, k)
        ∙ ap (λ (n : ℕ). attempts c w n 1 none s') m
        ∙ attempts_final c w e left 1 none s' sends final in
      ap (λ (r : Reply × Client). r.1.breaker) whole

  breaker-probe_lost :
      ((acquire limiter now 1000 s.bucket).1 ≡ false)
        ⊎ ((e : ApiError) × (send w.is_float (w.answer 1) ≡ raised e) × (is_surfaced e.kind ≡ true))
      → (request c limiter w t now s).1.breaker ≡ (Breaker.allow_request t s.breaker).0
  breaker-probe_lost (inl k) =
      (request_limited c limiter w t now s (probe_granted s.breaker t p).0 k).4
  breaker-probe_lost (inr (e, sends, final)) =
      elim (Bool-cases (acquire limiter now 1000 s.bucket).1) [
        | inl k ↦ surfaced_breaker e sends final k
        | inr k ↦ (request_limited c limiter w t now s (probe_granted s.breaker t p).0 k).4
      ]

-- If an open breaker lets a request through as its probe and then the rate limiter refuses the
-- request, or the provider answers with an error that is never retried (429, 401 or 403), no outcome
-- is recorded: whatever the later requests, worlds and times, each of them is refused, and the
-- client stays as that request left it.
pub probe_lost :
    (c : Config) (limiter : RateLimiter) (w : World) (t now : ℕ) (s : Client) (rs : List Attempted)
    → IsProbe t s.breaker
    → 0 < c.max_retries
    → ((acquire limiter now 1000 s.bucket).1 ≡ false)
      ⊎ ((e : ApiError) × (send w.is_float (w.answer 1) ≡ raised e) × (is_surfaced e.kind ≡ true))
    → (let s' = (request c limiter w t now s).1 in
        requests c limiter rs s'
        ≡ (map (λ r. Reply.raised (provider_unavailable_error none)) rs, s'))
probe_lost c limiter w t now s rs p h k =
    requests_probing c limiter rs _
      (rw (breaker-probe_lost c limiter w t now s p h k) (probe_granted s.breaker t p).1)
