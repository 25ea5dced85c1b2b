-- ===== src/Orchestrator.antt =====
-- `ActionOrchestrator.execute` of backend/app/services/action_orchestrator.py and its dispatchers.
-- The database's reads and the final commit succeed; what Slack, the task queue and the clock
-- answer comes in an `Env`. `_push_to_crm` and `_dispatch_notify_immediate` have no effect here:
-- the first has no caller and the second has no body.
pub mod Session
pub mod Dispatch
pub mod Notify
pub mod Audit
pub mod Once
pub mod Cooldown
pub mod Notices
pub mod Enrichment
use sales_lead_gen.Base.{
  ℕ, zero, suc, ◌+◌, ◌-◌, ◌*◌, ◌/◌, ◌%◌, ◌^◌, ◌≤◌, ◌<◌, min, max, String, ◌≡◌, refl, sym, ap, ◌∙◌,
  subst, ◌≢◌, ◌↔◌, ◌⊎◌, inl, inr, Bool, true, false, not, ◌&&◌, ◌||◌, Option, none, some, List, [],
  ◌∷◌, ◌++◌, map, arith, str_eq, eq_iff, ltb, leb, ◌==◌, if◌then◌else◌, ==_iff, Bool-cases,
  Option-cases, is_some, length, length-append, select, any, find, All,
}
use sales_lead_gen.Models.{
  CompanyStatus, SignalAction, AuditLogTarget, AuditLogStatus, ErrorMessage, Signal, Company,
  AuditLog, EnrichmentJob, Db, is_notify_immediate, signal_by_id, company_by_id, put_signal,
  put_company,
}
use sales_lead_gen.Orchestrator.Session.{
  Delivery, delivered, undelivered, raised, Env, Message, State, SkippedReason, ActionResult,
  skipped, cooldown, add_entry, entry_of,
}
use sales_lead_gen.Orchestrator.Dispatch.{dispatch}
use sales_lead_gen.Orchestrator.Notify.{notify_if_immediate}

-- `signal.action_executed_at = utcnow()`, and the commit.
unfoldable pub mark_executed : Env → Signal → ActionResult × State → ActionResult × State
mark_executed env s (result, st) = (
  result,
  record st {
    db = record (st.db) {
      signals = put_signal (record s { action_executed_at = some env.executed_at }) st.db.signals;
    };
  },
)

abbrev pub or_ignore : Option SignalAction → SignalAction
or_ignore none = SignalAction.ignore
or_ignore (some a) = a

unfoldable pub started : Signal → SignalAction → ActionResult
started s action = record {
  signal_id = s.id;
  action_type = action;
  dispatched = true;
  skipped_reason = none;
  audit_entries = [];
}

-- What `execute` does with a signal that has an action and was not executed.
unfoldable pub perform : Env → Signal → SignalAction → State → ActionResult × State
unfolding dispatch notify_if_immediate mark_executed started
perform env s action st =
    mark_executed env s
      (notify_if_immediate env s action (dispatch env s action (started s action, st)))

unfoldable pub execute : Env → ℕ → State → ActionResult × State
unfolding perform skipped
execute env i st = elim (signal_by_id i st.db.signals) [
  | none ↦ (skipped i SignalAction.ignore SkippedReason.signal_not_found, st)
  | some s ↦
      if is_some s.action_executed_at
      then (skipped i (or_ignore s.action_taken) SkippedReason.already_executed, st)
      else elim s.action_taken [
        | none ↦ (skipped i SignalAction.ignore SkippedReason.no_action_taken, st)
        | some action ↦ perform env s action st
      ]
]
