-- ===== src/Api/Client/Retries.antt =====
-- Which attempts a request makes, and with what it ends.
use sales_lead_gen.Base.{
  ℕ, suc, ◌+◌, ◌-◌, ◌<◌, ◌≡◌, refl, sym, ap, ◌∙◌, true, false, Option, none, some, List, [], ◌∷◌,
  arith, length,
}
use sales_lead_gen.Api.Breaker
use sales_lead_gen.Api.Breaker.{CircuitBreaker}
use sales_lead_gen.Api.Limiter.{RateLimiter, acquire}
use sales_lead_gen.Api.Errors.{ApiError}
use sales_lead_gen.Api.Client.{
  Response, ok, raised, send, Config, World, Client, Reply, returned, raise_last, is_surfaced,
  on_success, on_failure, attempts, request,
}

-- The attempt fails with an error that is retried.
abbrev pub Fails : World → ℕ → ApiError → Type 0
Fails w n e = (send w.is_float (w.answer n) ≡ raised e) × (is_surfaced e.kind ≡ false)

-- The given attempts, from one on, fail in this way, with these errors in order.
abbrev pub FailsWith : World → ℕ → List ApiError → Type 0
FailsWith w a [] = Unit
FailsWith w a (e ∷ es) = Fails w a e × FailsWith w (a + 1) es

abbrev pub last_of : Option ApiError → List ApiError → Option ApiError
last_of last [] = last
last_of last (e ∷ es) = last_of (some e) es

module _ (c : Config) (w : World) where
  -- The client after as many failed attempts, from one on.
  after_failures : ℕ → List ApiError → Client → Client
  after_failures a [] s = s
  after_failures a (e ∷ es) s =
      after_failures (a + 1) es (on_failure c w a (record s { sent = s.sent + 1 }))

  pub attempts_step :
      (e : ApiError) (left a : ℕ) (last : Option ApiError) (s : Client)
      → Fails w a e
      → attempts c w (suc left) a last s
        ≡ attempts c w left (a + 1) (some e) (on_failure c w a (record s { sent = s.sent + 1 }))
  unfolding attempts
  attempts_step e left a last s h = rw (h.0, attempts) (rw h.1)

  pub attempts_ok :
      (r : Response) (left a : ℕ) (last : Option ApiError) (s : Client)
      → send w.is_float (w.answer a) ≡ ok r
      → attempts c w (suc left) a last s
        ≡ (returned r, on_success c w (record s { sent = s.sent + 1 }))
  unfolding attempts
  attempts_ok r left a last s h = rw (h, attempts)

  pub attempts_final :
      (e : ApiError) (left a : ℕ) (last : Option ApiError) (s : Client)
      → send w.is_float (w.answer a) ≡ raised e
      → is_surfaced e.kind ≡ true
      → attempts c w (suc left) a last s ≡ (Reply.raised e, record s { sent = s.sent + 1 })
  unfolding attempts
  attempts_final e left a last s h final = rw (h, attempts) (rw final)

  attempts_skip :
      (es : List ApiError) (left a : ℕ) (last : Option ApiError) (s : Client)
      → FailsWith w a es
      → attempts c w (length es + left) a last s
        ≡ attempts c w left (a + length es) (last_of last es) (after_failures a es s)
  unfolding after_failures
  attempts_skip [] left a last s h =
      let p : 0 + left ≡ left = omega arith in let q : a + 0 ≡ a = omega arith in rw (p, q)
  attempts_skip (e ∷ es) left a last s h =
      let p : suc (length es) + left ≡ suc (length es + left) = omega arith in
      let q : a + suc (length es) ≡ a + 1 + length es = omega arith in
      rw (p, q)
        (attempts_step e (length es + left) a last s h.0
          ∙ attempts_skip es left (a + 1) (some e)
              (on_failure c w a (record s { sent = s.sent + 1 })) h.1)

  sent-after_failures :
      (es : List ApiError) (a : ℕ) (s : Client)
      → ((after_failures a es s).sent ≡ s.sent + length es)
        × ((after_failures a es s).usage_rows ≡ s.usage_rows)
        × ((after_failures a es s).breaker.failure_count ≡ s.breaker.failure_count + length es)
  unfolding after_failures on_failure Breaker.record_failure
  sent-after_failures [] a s = ground arith
  sent-after_failures (e ∷ es) a s =
      ground
        (arith, sent-after_failures es (a + 1) (on_failure c w a (record s { sent = s.sent + 1 })))

-- The gates of `request` let it through.
abbrev pub PassesGates : RateLimiter → ℕ → ℕ → Client → Type 0
PassesGates limiter monotonic now s =
    ((Breaker.allow_request monotonic s.breaker).1 ≡ true)
    × ((acquire limiter now 1000 s.bucket).1 ≡ true)

module _ (c : Config) (limiter : RateLimiter) (w : World) (monotonic now : ℕ) (s : Client) where
  -- The client behind both gates.
  abbrev pub admitted : Client
  admitted = record s {
    breaker = (Breaker.allow_request monotonic s.breaker).0;
    bucket = some (acquire limiter now 1000 s.bucket).0;
  }

  pub request-admitted :
      PassesGates limiter monotonic now s
      → request c limiter w monotonic now s ≡ attempts c w c.max_retries 1 none admitted
  unfolding request
  request-admitted h = rw (h.0, h.1)

  request_after :
      (es : List ApiError) (left : ℕ)
      → PassesGates limiter monotonic now s
      → FailsWith w 1 es
      → length es + left ≡ c.max_retries
      → request c limiter w monotonic now s
        ≡ attempts c w left (1 + length es) (last_of none es) (after_failures c w 1 es admitted)
  request_after es left g f m =
      request-admitted g
      ∙ ap (λ (n : ℕ). attempts c w n 1 none admitted) (sym m)
      ∙ attempts_skip c w es left 1 none admitted f

  -- A request that passes its gates and fails, with errors that are retried, fewer times than it
  -- may try, and then gets a 2xx response, returns that response: it has made one call for each
  -- failure and one more, has spawned one usage row, and leaves the breaker closed with no failure
  -- counted.
  pub request_succeeds :
      (es : List ApiError) (r : Response)
      → PassesGates limiter monotonic now s
      → FailsWith w 1 es
      → length es < c.max_retries
      → send w.is_float (w.answer (1 + length es)) ≡ ok r
      → (let (reply, s') = request c limiter w monotonic now s in
          (reply ≡ returned r)
          × (s'.sent ≡ s.sent + length es + 1)
          × (s'.usage_rows ≡ s.usage_rows + 1)
          × (s'.breaker.state ≡ Breaker.closed)
          × (s'.breaker.failure_count ≡ 0))
  unfolding on_success Breaker.record_success
  request_succeeds es r g f m ends =
      let left : ℕ = c.max_retries - length es - 1 in
      let counts = sent-after_failures c w es 1 admitted in
      let whole =
        request_after es (suc left) g f (omega arith)
        ∙ attempts_ok c w r left (1 + length es) (last_of none es)
            (after_failures c w 1 es admitted) ends in
      rw whole (refl, omega (arith, counts.0), omega (arith, counts.1), refl, refl)

  -- A request that passes its gates and fails, after failures that are retried and fewer than it may
  -- try, with an error that is never retried, raises that error at once and counts only the failures
  -- before it.
  pub request_surfaces :
      (es : List ApiError) (e : ApiError)
      → PassesGates limiter monotonic now s
      → FailsWith w 1 es
      → length es < c.max_retries
      → send w.is_float (w.answer (1 + length es)) ≡ raised e
      → is_surfaced e.kind ≡ true
      → (let (reply, s') = request c limiter w monotonic now s in
          (reply ≡ Reply.raised e)
          × (s'.sent ≡ s.sent + length es + 1)
          × (s'.usage_rows ≡ s.usage_rows)
          × (s'.breaker.failure_count ≡ admitted.breaker.failure_count + length es))
  request_surfaces es e g f m ends final =
      let left : ℕ = c.max_retries - length es - 1 in
      let counts = sent-after_failures c w es 1 admitted in
      let whole =
        request_after es (suc left) g f (omega arith)
        ∙ attempts_final c w e left (1 + length es) (last_of none es)
            (after_failures c w 1 es admitted) ends final in
      rw whole (refl, omega (arith, counts.0), counts.1, counts.2)

  -- A request that passes its gates and whose attempts all fail with errors that are retried raises
  -- the last of them.
  pub request_exhausts :
      (es : List ApiError)
      → PassesGates limiter monotonic now s
      → FailsWith w 1 es
      → length es ≡ c.max_retries
      → (let (reply, s') = request c limiter w monotonic now s in
          (reply ≡ raise_last (last_of none es))
          × (s'.sent ≡ s.sent + c.max_retries)
          × (s'.usage_rows ≡ s.usage_rows)
          × (s'.breaker.failure_count ≡ admitted.breaker.failure_count + c.max_retries))
  unfolding attempts
  request_exhausts es g f m =
      let counts = sent-after_failures c w es 1 admitted in
      rw (request_after es 0 g f (omega arith))
        (refl, omega (arith, counts.0), counts.1, omega (arith, counts.2))
