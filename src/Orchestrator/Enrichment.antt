-- ===== src/Orchestrator/Enrichment.antt =====
-- Further enrichment: the daily limit, and the company's status.
use sales_lead_gen.Base.{
  ℕ, ◌≤◌, ◌<◌, ◌≡◌, refl, ap, ◌∙◌, inl, inr, true, false, none, some, [], ◌∷◌, ◌++◌, arith, leb,
  if◌then◌else◌, ==_iff, Bool-cases, Option-cases, is_some,
}
use sales_lead_gen.Models.{
  CompanyStatus, SignalAction, AuditLogTarget, ErrorMessage, Signal, Company, signal_by_id,
  company_by_id, company_by_id-put_company, id-company_by_id,
}
use sales_lead_gen.Orchestrator.Session.{Env, State, ActionResult, entry_of}
use sales_lead_gen.Orchestrator.Dispatch.{
  is_before_monitoring, start_monitoring, enqueue, dispatch_enrich_further, enrichments_since,
}
use sales_lead_gen.Orchestrator.Notify.{notify_if_immediate}
use sales_lead_gen.Orchestrator.{mark_executed, started, perform, execute}
use sales_lead_gen.Orchestrator.Once.{execute_acts}

notify_skips :
    (env : Env) (s : Signal) (r : ActionResult × State)
    → notify_if_immediate env s SignalAction.enrich_further r ≡ r
unfolding notify_if_immediate
notify_skips env s r = elim (Option-cases env.slack) [
  | inl e ↦ rw (e, notify_if_immediate)
  | inr (slack, e) ↦ rw (e, notify_if_immediate)
]

perform_enrichment :
    (env : Env) (s : Signal) (st : State)
    → perform env s SignalAction.enrich_further st
      ≡ mark_executed env s
          (dispatch_enrich_further env s (started s SignalAction.enrich_further, st))
unfolding perform
perform_enrichment env s st =
    ap (mark_executed env s) (
      notify_skips env s
        (dispatch_enrich_further env s (started s SignalAction.enrich_further, st)))

module _ (env : Env) (i : ℕ) (s : Signal) (st : State)
    (found : signal_by_id i st.db.signals ≡ some s) (fresh : is_some s.action_executed_at ≡ false)
    (taken : s.action_taken ≡ some SignalAction.enrich_further) where
  -- With the day's limit of enrichment jobs reached, an execution of a fresh signal for further
  -- enrichment queues no task, changes no company, and records the limit as its one failure.
  pub execute_limited :
      env.max_enrichments_per_day ≤ enrichments_since env.today_start st.db.enrichment_jobs
      → (let (result, st') = execute env i st in
          (st'.queued ≡ st.queued)
          × (st'.db.companies ≡ st.db.companies)
          × (result.audit_entries
              ≡ entry_of s SignalAction.enrich_further AuditLogTarget.enrichment
                  (some s.company_id)
                  (some (ErrorMessage.daily_limit_reached env.max_enrichments_per_day))
                ∷ []))
  unfolding dispatch_enrich_further mark_executed started
  execute_limited h =
      let over : leb env.max_enrichments_per_day
            (enrichments_since env.today_start st.db.enrichment_jobs)
          ≡ true =
        ground arith in
      rw
        (execute_acts env i s SignalAction.enrich_further st found fresh taken
          ∙ perform_enrichment env s st)
        (rw over (refl, refl, refl))

  -- Below the limit, with a company that is there and a task queue that takes the task, an execution
  -- of a fresh signal for further enrichment queues one task for the company, and moves the company to monitoring unless it is monitored, qualified or pushed already.
  pub execute_enriches :
      (c : Company)
      → enrichments_since env.today_start st.db.enrichment_jobs < env.max_enrichments_per_day
      → env.delay s.company_id ≡ none
      → company_by_id s.company_id st.db.companies ≡ some c
      → (let st' = (execute env i st).1 in
          (st'.queued ≡ st.queued ++ s.company_id ∷ [])
          × (company_by_id s.company_id st'.db.companies
              ≡ some (
                  if is_before_monitoring c.status
                  then record c { status = CompanyStatus.monitoring }
                  else c)))
  unfolding dispatch_enrich_further mark_executed started
  execute_enriches c h accepted owner =
      let under : leb env.max_enrichments_per_day
            (enrichments_since env.today_start st.db.enrichment_jobs)
          ≡ false =
        ground arith in
      let c' : Company = record c { status = CompanyStatus.monitoring } in
      rw
        (execute_acts env i s SignalAction.enrich_further st found fresh taken
          ∙ perform_enrichment env s st)
        (rw under (
          rw (accepted, enqueue)
            (rw (owner, start_monitoring)
              (elim (Bool-cases (is_before_monitoring c.status)) [
                | inl x ↦ simp x (
                  refl,
                  ground (
                    arith,
                    company_by_id-put_company s.company_id c' st.db.companies,
                    owner,
                    id-company_by_id s.company_id st.db.companies c,
                    ==_iff c.id s.company_id,
                  ),
                )
                | inr x ↦ simp x (refl, owner)
              ]))))
