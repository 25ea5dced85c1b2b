-- ===== src/Scoring/Average.antt =====
-- The strength of a company's signals is an average: backend/app/services/lead_scoring.py.
use sales_lead_gen.Base.{
  ℕ, ◌*◌, ◌≤◌, ◌≡◌, refl, ◌≢◌, Option, none, some, List, [], ◌∷◌, arith, select, All,
}
use native.Mathlib.Nat.{mul-le-mul_right, mul-add}
use sales_lead_gen.Models.{Signal}
use sales_lead_gen.Scoring.Fractions.{cap}
use sales_lead_gen.Scoring.{
  Env, is_counted, score_of, weight, weighted_sum, weight_total, calc_signal_strength,
}

-- A score that is there lies between two bounds.
abbrev pub IsWithin : ℕ → ℕ → Option ℕ → Type 0
IsWithin low high none = Unit
IsWithin low high (some n) = (low ≤ n) × (n ≤ high)

weight-within :
    (env : Env) (now low high : ℕ) (s : Signal)
    → IsWithin low high s.relevance_score
    → (low * weight env now s ≤ score_of s.relevance_score * weight env now s)
      × (score_of s.relevance_score * weight env now s ≤ high * weight env now s)
weight-within env now low high s h =
    weighed s.relevance_score (weight env now s) h (λ none_there. rw none_there refl)
  where
    weighed :
        (o : Option ℕ) (w : ℕ)
        → IsWithin low high o
        → (o ≡ none → w ≡ 0)
        → (low * w ≤ score_of o * w) × (score_of o * w ≤ high * w)
    weighed none w k weightless = rw (weightless refl) (omega arith, omega arith)
    weighed (some n) w (above, below) weightless =
        (mul-le-mul_right w above, mul-le-mul_right w below)

weighted_sum-within :
    (env : Env) (now low high : ℕ) (ss : List Signal)
    → All (λ (s : Signal). IsWithin low high s.relevance_score) ss
    → (low * weight_total env now ss ≤ weighted_sum env now ss)
      × (weighted_sum env now ss ≤ high * weight_total env now ss)
unfolding weighted_sum weight_total
weighted_sum-within env now low high [] h = (omega arith, omega arith)
weighted_sum-within env now low high (s ∷ ss) (p, h) =
    let (above, below) = weight-within env now low high s p in
    let (above', below') = weighted_sum-within env now low high ss h in
    (
      rw (mul-add low (weight env now s) (weight_total env now ss)) (omega (arith, above, above')),
      rw (mul-add high (weight env now s) (weight_total env now ss)) (omega (arith, below, below')),
    )

-- If each score of a company's processed signals that is there lies between two bounds, the upper one
-- at most 100, and a signal that is not too old has a weight, the strength lies between the bounds,
-- whatever the weights are.
pub calc_signal_strength_between :
    (env : Env) (now i low high : ℕ) (signals : List Signal)
    → high ≤ 100
    → All (λ (s : Signal). IsWithin low high s.relevance_score) (select (is_counted i) signals)
    → weight_total env now (select (is_counted i) signals) ≢ 0
    → (let f = calc_signal_strength env now i signals in
        (low * f.den ≤ f.num) × (f.num ≤ high * f.den))
unfolding calc_signal_strength cap
calc_signal_strength_between env now i low high signals small within weighty =
    let rows = select (is_counted i) signals in
    let (above, below) = weighted_sum-within env now low high rows within in
    let capped = mul-le-mul_right (weight_total env now rows) small in
    ground (arith, above, below, capped, weighty)
