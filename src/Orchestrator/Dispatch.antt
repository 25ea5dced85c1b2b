-- ===== src/Orchestrator/Dispatch.antt =====
-- The dispatchers of backend/app/services/action_orchestrator.py.
use sales_lead_gen.Base.{
  ℕ, ◌+◌, String, Bool, true, false, Option, none, some, List, [], ◌∷◌, ◌++◌, leb, if◌then◌else◌,
}
use sales_lead_gen.Models.{
  CompanyStatus, SignalAction, AuditLogTarget, ErrorMessage, Signal, EnrichmentJob, company_by_id,
  put_company,
}
use sales_lead_gen.Orchestrator.Session.{
  Env, State, SkippedReason, ActionResult, add_entry, entry_of,
}

unfoldable pub dispatch_notify_digest : Signal → ActionResult × State → ActionResult × State
unfolding add_entry entry_of
dispatch_notify_digest s =
    add_entry (entry_of s SignalAction.notify_digest AuditLogTarget.slack none none)

-- `status not in ("monitoring", "qualified", "pushed")`
unfoldable pub is_before_monitoring : CompanyStatus → Bool
is_before_monitoring CompanyStatus.monitoring = false
is_before_monitoring CompanyStatus.qualified = false
is_before_monitoring CompanyStatus.pushed = false
is_before_monitoring _ = true

unfoldable pub start_monitoring : ℕ → State → State
unfolding is_before_monitoring
start_monitoring company_id st = elim (company_by_id company_id st.db.companies) [
  | none ↦ st
  | some c ↦
      if is_before_monitoring c.status
      then record st {
        db = record (st.db) {
          companies = put_company (record c { status = CompanyStatus.monitoring }) st.db.companies;
        };
      }
      else st
]

unfoldable pub enrichments_since : ℕ → List EnrichmentJob → ℕ
enrichments_since t [] = 0
enrichments_since t (j ∷ js) =
    let rest = enrichments_since t js in if leb t j.created_at then rest + 1 else rest

unfoldable pub exception_message : Option String → Option ErrorMessage
exception_message none = none
exception_message (some text) = some (ErrorMessage.exception_text text)

-- A task that could be handed over is queued.
unfoldable pub enqueue : Env → ℕ → State → State
enqueue env company_id st = elim (env.delay company_id) [
  | none ↦ record st { queued = st.queued ++ company_id ∷ [] }
  | some text ↦ st
]

unfoldable pub dispatch_enrich_further : Env → Signal → ActionResult × State → ActionResult × State
unfolding add_entry entry_of start_monitoring enqueue exception_message
dispatch_enrich_further env s (result, st) =
    if leb env.max_enrichments_per_day (enrichments_since env.today_start st.db.enrichment_jobs)
    then add_entry
        (entry_of s SignalAction.enrich_further AuditLogTarget.enrichment (some s.company_id)
          (some (ErrorMessage.daily_limit_reached env.max_enrichments_per_day)))
        (result, st)
    else let entry =
        entry_of s SignalAction.enrich_further AuditLogTarget.enrichment (some s.company_id)
          (exception_message (env.delay s.company_id)) in
      let (result', st') = add_entry entry (result, enqueue env s.company_id st) in
      (result', start_monitoring s.company_id st')

unfoldable pub record_ignore : ActionResult × State → ActionResult × State
record_ignore (result, st) =
    (record result { dispatched = false; skipped_reason = some SkippedReason.action_is_ignore }, st)

unfoldable pub dispatch : Env → Signal → SignalAction → ActionResult × State → ActionResult × State
unfolding dispatch_notify_digest dispatch_enrich_further record_ignore
dispatch env s SignalAction.notify_immediate r = r
dispatch env s SignalAction.notify_digest r = dispatch_notify_digest s r
dispatch env s SignalAction.enrich_further r = dispatch_enrich_further env s r
dispatch env s SignalAction.ignore r = record_ignore r
