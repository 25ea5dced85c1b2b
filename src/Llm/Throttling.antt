-- ===== src/Llm/Throttling.antt =====
-- What rate limits do to the breaker of the language model: `_run` of
-- backend/app/services/llm/client.py.
use sales_lead_gen.Base.{
  ℕ, ◌≡◌, refl, ap, ◌∙◌, true, false, ◌⊎◌, inl, inr, List, [], ◌∷◌, ◌++◌, All, arith,
}
use sales_lead_gen.Texts.{Texts}
use sales_lead_gen.Api.Breaker
use sales_lead_gen.Api.Breaker.{CircuitBreaker, State, is_closed}
use sales_lead_gen.Llm.{Failure, is_rate_limit, AgentRun, failed, conclude, run}

-- Runs one after another, each with the times at which it starts and ends: the breaker after them.
unfoldable pub runs : Texts → List (ℕ × ℕ × AgentRun) → CircuitBreaker → CircuitBreaker
runs texts [] b = b
runs texts ((started, ended, agent) ∷ rest) b = runs texts rest (run texts started ended agent b).1

-- An exception says that it is a rate limit: by its status code, or by its message.
abbrev pub IsLimit : Texts → Failure → Type 0
IsLimit texts e =
    (texts.is_in "429" e.status_code ≡ true)
    ⊎ (texts.is_in "rate limit" (texts.lower e.message) ≡ true)

abbrev pub IsOther : Texts → Failure → Type 0
IsOther texts e =
    (texts.is_in "429" e.status_code ≡ false)
    × (texts.is_in "rate limit" (texts.lower e.message) ≡ false)

-- An agent's run fails by a rate limit: an exception of its chain of causes, at any depth, is one.
abbrev pub IsThrottled : Texts → AgentRun → Type 0
IsThrottled texts agent =
    (before : List Failure) × (e : Failure) × (after : List Failure) × (agent
      ≡ failed (before ++ e ∷ after))
    × IsLimit texts e

is_rate_limit-IsLimit :
    (texts : Texts) (before after : List Failure) (e : Failure)
    → IsLimit texts e
    → is_rate_limit texts (before ++ e ∷ after) ≡ true
unfolding is_rate_limit
is_rate_limit-IsLimit texts [] after e (inl h) = rw h refl
is_rate_limit-IsLimit texts [] after e (inr h) = ground arith
is_rate_limit-IsLimit texts (x ∷ xs) after e h =
    let found = is_rate_limit-IsLimit texts xs after e h in ground arith

is_rate_limit-IsOther :
    (texts : Texts) (causes : List Failure)
    → All (IsOther texts) causes
    → is_rate_limit texts causes ≡ false
unfolding is_rate_limit
is_rate_limit-IsOther texts [] other = refl
is_rate_limit-IsOther texts (x ∷ xs) ((a, b), other) =
    let rest = is_rate_limit-IsOther texts xs other in ground arith

allow_request-closed :
    (started : ℕ) (b : CircuitBreaker)
    → b.state ≡ State.closed
    → Breaker.allow_request started b ≡ (b, true)
unfolding Breaker.allow_request Breaker.read_state Breaker.admit
allow_request-closed started b shut = simp shut refl

conclude-throttled :
    (texts : Texts) (ended : ℕ) (agent : AgentRun) (b : CircuitBreaker)
    → IsThrottled texts agent
    → (conclude texts ended agent b).1 ≡ b
unfolding conclude
conclude-throttled texts ended agent b (before, e, after, same, limited) =
    rw same (rw (is_rate_limit-IsLimit texts before after e limited) refl)

run-throttled :
    (texts : Texts) (started ended : ℕ) (agent : AgentRun) (b : CircuitBreaker)
    → b.state ≡ State.closed
    → IsThrottled texts agent
    → (run texts started ended agent b).1 ≡ b
unfolding run
run-throttled texts started ended agent b shut limited =
    rw (allow_request-closed started b shut) (conclude-throttled texts ended agent b limited)

run-other :
    (texts : Texts) (started ended : ℕ) (causes : List Failure) (b : CircuitBreaker)
    → b.state ≡ State.closed
    → All (IsOther texts) causes
    → (run texts started ended (failed causes) b).1 ≡ Breaker.record_failure ended b
unfolding run conclude
run-other texts started ended causes b shut other =
    rw (allow_request-closed started b shut) (rw (is_rate_limit-IsOther texts causes other) refl)

runs-throttled-append :
    (texts : Texts) (rs more : List (ℕ × ℕ × AgentRun)) (b : CircuitBreaker)
    → b.state ≡ State.closed
    → All (λ r. IsThrottled texts r.2) rs
    → runs texts (rs ++ more) b ≡ runs texts more b
unfolding runs
runs-throttled-append texts [] more b shut limited = refl
runs-throttled-append texts ((started, ended, agent) ∷ rs) more b shut (first, rest) =
    let same = run-throttled texts started ended agent b shut first in
    ap (runs texts (rs ++ more)) same ∙ runs-throttled-append texts rs more b shut rest

runs-throttled :
    (texts : Texts) (rs : List (ℕ × ℕ × AgentRun)) (b : CircuitBreaker)
    → b.state ≡ State.closed
    → All (λ r. IsThrottled texts r.2) rs
    → runs texts rs b ≡ b
unfolding runs
runs-throttled texts [] b shut limited = refl
runs-throttled texts ((started, ended, agent) ∷ rs) b shut (first, rest) =
    let same = run-throttled texts started ended agent b shut first in
    rw same (runs-throttled texts rs b shut rest)

-- Runs that a closed breaker meets: if each fails with a chain of causes in which some exception, at
-- any depth, has 429 in its status code or "rate limit" in its message, they leave the breaker, its
-- failure count included, as it was. A failing run after them with no such exception in its chain is
-- counted as the one failure.
pub runs_throttled :
    (texts : Texts) (rs : List (ℕ × ℕ × AgentRun)) (started ended : ℕ) (causes : List Failure)
    (b : CircuitBreaker)
    → b.state ≡ State.closed
    → All (λ r. IsThrottled texts r.2) rs
    → All (IsOther texts) causes
    → (runs texts rs b ≡ b)
      × (runs texts (rs ++ (started, ended, failed causes) ∷ []) b ≡ Breaker.record_failure ended b)
unfolding runs
runs_throttled texts rs started ended causes b shut limited other = (
  runs-throttled texts rs b shut limited,
  runs-throttled-append texts rs _ b shut limited
      ∙ run-other texts started ended causes b shut other,
)
