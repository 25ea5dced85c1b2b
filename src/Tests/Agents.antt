-- ===== src/Tests/Agents.antt =====
-- Runs of the language model at concrete inputs.
use sales_lead_gen.Base.{ℕ, ◌≡◌, refl, inl, false, some, List, [], ◌∷◌, ◌++◌, str_eq}
use sales_lead_gen.Texts.{Texts}
use sales_lead_gen.Api.Breaker
use sales_lead_gen.Api.Breaker.{CircuitBreaker}
use sales_lead_gen.Llm.{Failure, AgentRun, failed}
use sales_lead_gen.Llm.Throttling.{runs, runs_throttled}

-- Texts without capitals and blanks, where a text contains itself only.
abbrev plain : Texts
plain = record {
  lower = λ t. t;
  strip = λ t. t;
  is_in = λ part t. str_eq part t;
  before_slash = λ t. t;
  starts_with = λ part t. false;
  drop = λ n t. t;
  rstrip = λ part t. t;
  hostname = λ t. some t;
  token_sort_ratio = λ a b. 0;
  decimal = λ n. "";
  join = λ separator ts. "";
}

-- A validation error.
abbrev invalid : Failure
invalid = record { status_code = ""; message = "invalid" }

abbrev too_many : Failure
too_many = record { status_code = "429"; message = "slow down" }

abbrev breaker : CircuitBreaker
breaker = Breaker.new 1 60

-- Two runs with a validation error that a 429 caused, and one with the validation error alone.
abbrev throttled_twice : List (ℕ × ℕ × AgentRun)
throttled_twice =
    (1, 2, failed (invalid ∷ too_many ∷ [])) ∷ (3, 4, failed (invalid ∷ too_many ∷ [])) ∷ []

runs_throttled_example :
    (runs plain throttled_twice breaker ≡ breaker)
    × (runs plain (throttled_twice ++ (5, 6, failed (invalid ∷ [])) ∷ []) breaker
        ≡ Breaker.record_failure 6 breaker)
unfolding Breaker.new
runs_throttled_example =
    runs_throttled plain throttled_twice 5 6 (invalid ∷ []) breaker refl
      (
        (invalid ∷ [], too_many, [], refl, inl refl),
        ((invalid ∷ [], too_many, [], refl, inl refl), tt),
      )
      ((refl, refl), tt)
