-- ===== src/Orchestrator/Session.antt =====
-- The surroundings, the state and the result of one execution of
-- backend/app/services/action_orchestrator.py, and how an audit entry is recorded.
use sales_lead_gen.Base.{
  ℕ, ◌*◌, String, Bool, false, Option, some, List, [], ◌∷◌, ◌++◌, if◌then◌else◌, is_some,
}
use sales_lead_gen.Models.{
  SignalAction, AuditLogTarget, AuditLogStatus, ErrorMessage, Signal, Company, AuditLog, Db,
}

pub data Delivery : Type 0 where
  delivered undelivered : Delivery
  raised : String → Delivery

-- One execution's surroundings: the three readings of the clock, the start of the day, the limit of
-- the settings, the answer of `enrich_company.delay` (`some` is the text of an exception) and the
-- Slack service, if one is configured.
pub record Env : Type 0 where
  pub checked_at : ℕ
  pub notified_at : ℕ
  pub executed_at : ℕ
  pub today_start : ℕ
  pub max_enrichments_per_day : ℕ
  pub delay : ℕ → Option String
  pub slack : Option (List Signal → Company → Delivery)

-- A call of `send_consolidated_notification`: the company and the signals.
pub record Message : Type 0 where
  pub company_id : ℕ
  pub signals : List Signal
  pub delivery : Delivery

-- The tables, and what has gone out so far.
pub record State : Type 0 where
  pub db : Db
  pub messages : List Message
  pub queued : List ℕ

pub data SkippedReason : Type 0 where
  signal_not_found already_executed no_action_taken action_is_ignore : SkippedReason

pub record ActionResult : Type 0 where
  pub signal_id : ℕ
  pub action_type : SignalAction
  pub dispatched : Bool
  pub skipped_reason : Option SkippedReason
  pub audit_entries : List AuditLog

unfoldable pub skipped : ℕ → SignalAction → SkippedReason → ActionResult
skipped i action reason = record {
  signal_id = i;
  action_type = action;
  dispatched = false;
  skipped_reason = some reason;
  audit_entries = [];
}

abbrev pub cooldown : ℕ
cooldown = 24 * 3600

-- `session.add(entry)` and `result.audit_entries.append(entry)`
unfoldable pub add_entry : AuditLog → ActionResult × State → ActionResult × State
add_entry entry (result, st) = (
  record result { audit_entries = result.audit_entries ++ entry ∷ [] },
  record st { db = record (st.db) { audit_logs = st.db.audit_logs ++ entry ∷ [] } },
)

unfoldable pub entry_of :
    Signal → SignalAction → AuditLogTarget → Option ℕ → Option ErrorMessage → AuditLog
entry_of s action target target_id error = record {
  signal_id = s.id;
  action_type = action;
  target = target;
  target_id = target_id;
  status = if is_some error then AuditLogStatus.failure else AuditLogStatus.success;
  error_message = error;
}
