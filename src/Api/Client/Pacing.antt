-- ===== src/Api/Client/Pacing.antt =====
-- How many calls a request makes, and how often it waits.
use sales_lead_gen.Base.{
  ℕ, zero, suc, ◌+◌, ◌-◌, ◌≤◌, ◌<◌, ◌≡◌, refl, sym, ap, ◌∙◌, ◌≢◌, ◌⊎◌, inl, inr, Option, none, some,
  [], ◌∷◌, arith, Bool-cases, length, length-append,
}
use sales_lead_gen.Api.Limiter.{RateLimiter}
use sales_lead_gen.Api.Errors.{ApiError}
use sales_lead_gen.Api.Client.{
  Response, Sent, ok, raised, send, Config, World, Client, Reply, type_error, is_surfaced,
  on_success, on_failure, attempts, request, backoff_delay,
}
use sales_lead_gen.Api.Client.Retries.{
  attempts_step, attempts_ok, attempts_final, PassesGates, admitted, request-admitted,
}

Sent-cases : (x : Sent) → ((r : Response) × (x ≡ ok r)) ⊎ ((e : ApiError) × (x ≡ raised e))
Sent-cases (ok r) = inl (r, refl)
Sent-cases (raised e) = inr (e, refl)

-- What every run of the loop keeps to: the calls that it makes and the waits between them.
record Paced (left : ℕ) (s : Client) (result : Reply × Client) : Type 0 where
  some_call : s.sent < result.1.sent
  few_calls : result.1.sent ≤ s.sent + left
  waits : length result.1.slept + s.sent + 1 ≡ result.1.sent + length s.slept
  replies : result.0 ≢ type_error

module _ (c : Config) (w : World) where
  failed : ℕ → Client → Client
  failed a s = on_failure c w a (record s { sent = s.sent + 1 })

  Paced-step :
      (left a : ℕ) (last : Option ApiError) (s : Client)
      → ((x : ApiError) → Paced (suc left) s (attempts c w left (a + 1) (some x) (failed a s)))
      → Paced (suc left) s (attempts c w (suc left) a last s)
  unfolding failed
  Paced-step left a last s go = elim (Sent-cases (send w.is_float (w.answer a))) [
    | inl (r, e) ↦ rw (attempts_ok c w r left a last s e) (unfold on_success in ground arith)
    | inr (x, e) ↦ elim (Bool-cases (is_surfaced x.kind)) [
      | inl final ↦ rw (attempts_final c w x left a last s e final) (ground arith)
      | inr again ↦ rw (attempts_step c w x left a last s (e, again)) (go x)
    ]
  ]

  failed_counts :
      (a : ℕ) (s : Client)
      → ((failed a s).sent ≡ s.sent + 1)
        × (a < c.max_retries → length (failed a s).slept ≡ length s.slept + 1)
        × (c.max_retries ≤ a → length (failed a s).slept ≡ length s.slept)
  unfolding failed on_failure
  failed_counts a s = (
    refl,
    λ h. ground (arith, length-append s.slept (backoff_delay c a (w.draw a) ∷ [])),
    λ h. ground arith,
  )

  attempts-Paced :
      (left a : ℕ) (last : Option ApiError) (s : Client)
      → a + left ≡ c.max_retries
      → Paced (suc left) s (attempts c w (suc left) a last s)
  attempts-Paced zero a last s h = Paced-step zero a last s λ x.
      let k = failed_counts a s in
      unfold attempts in
      record {
        some_call = omega (arith, k.0);
        few_calls = omega (arith, k.0);
        waits = omega (arith, k.0, k.2 (omega arith));
        replies = λ e. cc;
      }
  attempts-Paced (suc left) a last s h = Paced-step (suc left) a last s λ x.
      let k = failed_counts a s in
      let ih = attempts-Paced left (a + 1) (some x) (failed a s) (omega arith) in
      record {
        some_call = omega (arith, k.0, ih.some_call);
        few_calls = omega (arith, k.0, ih.few_calls);
        waits = omega (arith, k.0, k.1 (omega arith), ih.waits);
        replies = ih.replies;
      }

-- A request that passes its gates, with at least one attempt configured, makes at least one call
-- and at most as many as configured, waits exactly once between one call and the next, and ends
-- with a response or an API error.
pub request_paced :
    (c : Config) (limiter : RateLimiter) (w : World) (monotonic now : ℕ) (s : Client)
    → PassesGates limiter monotonic now s
    → 0 < c.max_retries
    → (let (reply, s') = request c limiter w monotonic now s in
        (s.sent < s'.sent)
        × (s'.sent ≤ s.sent + c.max_retries)
        × (length s'.slept + s.sent + 1 ≡ s'.sent + length s.slept)
        × (reply ≢ type_error))
request_paced c limiter w monotonic now s g h =
    let left : ℕ = c.max_retries - 1 in
    let m : suc left ≡ c.max_retries = omega arith in
    let p = attempts-Paced c w left 1 none (admitted c limiter w monotonic now s) (omega arith) in
    let whole =
      request-admitted c limiter w monotonic now s g
      ∙ ap (λ (n : ℕ). attempts c w n 1 none (admitted c limiter w monotonic now s)) (sym m) in
    rw whole (p.some_call, omega (arith, p.few_calls), p.waits, p.replies)
