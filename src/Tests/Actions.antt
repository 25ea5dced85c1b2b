-- ===== src/Tests/Actions.antt =====
-- The execution of actions at concrete inputs.
use sales_lead_gen.Base.{
  ℕ, suc, ◌+◌, ◌≡◌, refl, true, Option, none, some, List, [], ◌∷◌, ◌++◌, arith,
}
use sales_lead_gen.Models.{
  SignalType, SignalAction, CompanyStatus, Signal, Company, EnrichmentJob, signal_by_id,
  company_by_id,
}
use sales_lead_gen.Orchestrator.{execute}
use sales_lead_gen.Orchestrator.Session.{Delivery, Env, State, SkippedReason, skipped}
use sales_lead_gen.Orchestrator.Notify.{is_cooling}
use sales_lead_gen.Orchestrator.Audit.{execute_audits}
use sales_lead_gen.Orchestrator.Once.{executes, execute_once}
use sales_lead_gen.Orchestrator.Cooldown.{IsNotified, messages_to, executes_silent}
use sales_lead_gen.Orchestrator.Notices.{execute_notifies_once}

abbrev signal : ℕ → SignalAction → Signal
signal i action = record {
  id = i;
  company_id = 1;
  signal_type = SignalType.expansion;
  relevance_score = some 80;
  llm_summary = none;
  raw_content_hash = none;
  action_taken = some action;
  raw_markdown = none;
  is_processed = true;
  action_executed_at = none;
  created_at = i;
}

abbrev company : Option ℕ → Company
company t = record {
  id = 1;
  name = "Acme";
  domain = "acme.nl";
  status = CompanyStatus.enriched;
  slack_notified_at = t;
}

abbrev state : Option ℕ → List EnrichmentJob → State
state t jobs = record {
  db = record {
    companies = company t ∷ [];
    signals = signal 7 SignalAction.notify_immediate ∷ signal 8 SignalAction.enrich_further ∷ [];
    audit_logs = [];
    enrichment_jobs = jobs;
  };
  messages = [];
  queued = [];
}

abbrev slack : List Signal → Company → Delivery
slack ss c = Delivery.delivered

abbrev env : ℕ → Env
env now = record {
  checked_at = now;
  notified_at = suc now;
  executed_at = suc (suc now);
  today_start = 0;
  max_enrichments_per_day = 2;
  delay = λ _. none;
  slack = some slack;
}

abbrev jobs_today : List EnrichmentJob
jobs_today =
    record { company_id = 1; created_at = 5 } ∷ record { company_id = 1; created_at = 6 } ∷ []

execute_audits_example :
    (let (result, st') = execute (env 10) 7 (state none []) in
      st'.db.audit_logs ≡ [] ++ result.audit_entries)
execute_audits_example = execute_audits (env 10) 7 (state none [])

execute_once_example :
    (let later = executes ((env 20, 8) ∷ []) (execute (env 10) 7 (state none [])).1 in
      execute (env 30) 7 later
      ≡ (skipped 7 SignalAction.notify_immediate SkippedReason.already_executed, later))
unfolding signal_by_id
execute_once_example =
    execute_once (env 10) (env 30) 7 (signal 7 SignalAction.notify_immediate)
      SignalAction.notify_immediate ((env 20, 8) ∷ []) (state none []) refl refl

executes_silent_example :
    (let st' = executes ((env 100, 7) ∷ (env 200, 8) ∷ []) (state (some 50) []) in
      (messages_to 1 st'.messages ≡ messages_to 1 []) × IsNotified 1 50 st')
unfolding company_by_id
executes_silent_example =
    executes_silent 1 50 ((env 100, 7) ∷ (env 200, 8) ∷ []) (state (some 50) [])
      (omega arith, (omega arith, tt)) (company (some 50), refl, refl)

execute_notifies_once_example :
    messages_to 1
      (executes ((env 100, 8) ∷ (env 200, 7) ∷ []) (execute (env 10) 7 (state none [])).1).messages
    ≡ messages_to 1 [] + 1
unfolding signal_by_id company_by_id is_cooling
execute_notifies_once_example =
    execute_notifies_once (env 10) slack 7 (signal 7 SignalAction.notify_immediate) (company none)
      (state none []) ((env 100, 8) ∷ (env 200, 7) ∷ []) refl refl refl refl refl refl refl
      (omega arith, (omega arith, tt))
