-- ===== src/Llm.antt =====
-- backend/app/services/llm/client.py: how a call of the language model uses the circuit breaker.
pub mod Throttling
use sales_lead_gen.Base.{
  ℕ, zero, suc, ◌+◌, ◌-◌, ◌*◌, ◌/◌, ◌%◌, ◌^◌, ◌≤◌, ◌<◌, min, max, String, ◌≡◌, refl, sym, ap, ◌∙◌,
  subst, ◌≢◌, ◌↔◌, ◌⊎◌, inl, inr, Bool, true, false, not, ◌&&◌, ◌||◌, Option, none, some, List, [],
  ◌∷◌, ◌++◌, map, arith, str_eq, eq_iff, ltb, leb, ◌==◌, if◌then◌else◌, ==_iff, Bool-cases,
  Option-cases, is_some, length, length-append, select, any, find, All,
}
use sales_lead_gen.Texts.{Texts}
use sales_lead_gen.Api.Breaker
use sales_lead_gen.Api.Breaker.{CircuitBreaker}

-- An exception: the text of its status code, if it has one, and its message.
pub record Failure : Type 0 where
  pub status_code : String
  pub message : String

-- Whether an exception, given with the chain of its causes, signals a rate limit.
unfoldable pub is_rate_limit : Texts → List Failure → Bool
is_rate_limit texts [] = false
is_rate_limit texts (e ∷ causes) =
    let rest = is_rate_limit texts causes in
    if texts.is_in "429" e.status_code || texts.is_in "rate limit" (texts.lower e.message)
    then true
    else rest

-- What `agent.run` does: it returns an output, or raises an exception with its causes.
pub data AgentRun : Type 0 where
  completed : String → AgentRun
  failed : List Failure → AgentRun

pub data Answer : Type 0 where
  output : String → Answer
  unavailable : Answer

-- The end of a run that the breaker let through.
unfoldable pub conclude : Texts → ℕ → AgentRun → CircuitBreaker → Answer × CircuitBreaker
conclude texts now (completed o) b = (output o, Breaker.record_success b)
conclude texts now (failed causes) b =
    if is_rate_limit texts causes
    then (unavailable, b)
    else (unavailable, Breaker.record_failure now b)

-- `_run`: `started` is the time at the gate, and `ended` that at which the agent's run ends.
unfoldable pub run : Texts → ℕ → ℕ → AgentRun → CircuitBreaker → Answer × CircuitBreaker
run texts started ended agent b =
    let (b', allowed) = Breaker.allow_request started b in
    if not allowed then (unavailable, b') else conclude texts ended agent b'
