-- ===== src/Intelligence/Actions.antt =====
-- The bands of scores.
use sales_lead_gen.Base.{ℕ, ◌≤◌, ◌<◌, ◌≡◌, ◌↔◌, arith}
use sales_lead_gen.Models.{SignalAction}
use sales_lead_gen.Intelligence.{score_to_action}

-- Each action is chosen exactly for the scores of its band: immediate notification from 75 on, the
-- digest from 50 to 74, further enrichment from 25 to 49, and nothing below 25.
pub score_to_action_bands :
    (n : ℕ)
    → ((score_to_action n ≡ SignalAction.notify_immediate) ↔ (75 ≤ n))
      × ((score_to_action n ≡ SignalAction.notify_digest) ↔ ((50 ≤ n) × (n < 75)))
      × ((score_to_action n ≡ SignalAction.enrich_further) ↔ ((25 ≤ n) × (n < 50)))
      × ((score_to_action n ≡ SignalAction.ignore) ↔ (n < 25))
unfolding score_to_action
score_to_action_bands n = (
  ((λ h. ground arith), (λ h. ground arith)),
  ((λ h. ground arith), (λ h. ground arith)),
  ((λ h. ground arith), (λ h. ground arith)),
  ((λ h. ground arith), (λ h. ground arith)),
)
