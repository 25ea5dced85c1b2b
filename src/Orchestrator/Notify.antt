-- ===== src/Orchestrator/Notify.antt =====
-- `_send_signal_notification` of backend/app/services/action_orchestrator.py.
use sales_lead_gen.Base.{
  ℕ, ◌+◌, Bool, true, false, not, ◌&&◌, Option, none, some, List, [], ◌∷◌, ◌++◌, leb, ◌==◌,
  if◌then◌else◌, is_some,
}
use sales_lead_gen.Models.{
  SignalAction, AuditLogTarget, ErrorMessage, Signal, Company, is_notify_immediate, company_by_id,
  put_company,
}
use sales_lead_gen.Orchestrator.Session.{
  Delivery, delivered, undelivered, raised, Env, Message, State, ActionResult, cooldown, add_entry,
  entry_of,
}

-- The rows that the query for the pending signals selects.
abbrev pub wants_notification : Option SignalAction → Bool
wants_notification none = false
wants_notification (some a) = is_notify_immediate a

unfoldable pub is_pending : ℕ → Signal → Bool
is_pending company_id s =
    (s.company_id == company_id)
    && s.is_processed
    && wants_notification s.action_taken
    && not (is_some s.action_executed_at)

-- `relevance_score.desc().nulls_last()`
unfoldable pub scores_before : Option ℕ → Option ℕ → Bool
scores_before none none = true
scores_before none (some m) = false
scores_before (some n) none = true
scores_before (some n) (some m) = leb m n

unfoldable pub insert_by_score : Signal → List Signal → List Signal
unfolding scores_before
insert_by_score s [] = s ∷ []
insert_by_score s (r ∷ rs) =
    if scores_before s.relevance_score r.relevance_score
    then s ∷ r ∷ rs
    else r ∷ insert_by_score s rs

unfoldable pub pending_for : ℕ → List Signal → List Signal
unfolding is_pending insert_by_score
pending_for company_id [] = []
pending_for company_id (s ∷ ss) =
    let rest = pending_for company_id ss in
    if is_pending company_id s then insert_by_score s rest else rest

-- The fallback to the signal itself.
unfoldable pub or_self : Signal → List Signal → List Signal
or_self s [] = s ∷ []
or_self s (p ∷ ps) = p ∷ ps

abbrev pub delivery_error : Delivery → Option ErrorMessage
delivery_error delivered = none
delivery_error undelivered = some ErrorMessage.webhook_delivery_failed
delivery_error (raised text) = some (ErrorMessage.exception_text text)

abbrev pub is_delivered : Delivery → Bool
is_delivered delivered = true
is_delivered _ = false

-- `slack_notified_at and slack_notified_at >= now - 24 hours`, with no subtraction.
unfoldable pub is_cooling : ℕ → Option ℕ → Bool
is_cooling now none = false
is_cooling now (some t) = leb now (t + cooldown)

-- The message, and the company's new `slack_notified_at`.
unfoldable pub notify :
    Env → (List Signal → Company → Delivery) → Signal → Company → State → State × Delivery
unfolding pending_for or_self
notify env slack s c st =
    let signals = or_self s (pending_for s.company_id st.db.signals) in
    let d = slack signals c in
    let sent : Message = record { company_id = c.id; signals = signals; delivery = d } in
    let companies =
      if is_delivered d
      then put_company (record c { slack_notified_at = some env.notified_at }) st.db.companies
      else st.db.companies in
    (
      record st {
        messages = st.messages ++ sent ∷ [];
        db = record (st.db) { companies = companies };
      },
      d,
    )

unfoldable pub send_signal_notification :
    Env
    → (List Signal → Company → Delivery)
    → Signal
    → SignalAction
    → ActionResult × State
    → ActionResult × State
unfolding notify is_cooling add_entry entry_of
send_signal_notification env slack s action (result, st) =
    elim (company_by_id s.company_id st.db.companies) [
      | none ↦ (result, st)
      | some c ↦
          if is_cooling env.checked_at c.slack_notified_at
          then (result, st)
          else let (st', d) = notify env slack s c st in
            add_entry (entry_of s action AuditLogTarget.slack none (delivery_error d)) (result, st')
    ]

unfoldable pub notify_if_immediate :
    Env → Signal → SignalAction → ActionResult × State → ActionResult × State
unfolding send_signal_notification
notify_if_immediate env s action r = elim env.slack [
  | none ↦ r
  | some slack ↦
      if is_notify_immediate action then send_signal_notification env slack s action r else r
]
