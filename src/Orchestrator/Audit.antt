-- ===== src/Orchestrator/Audit.antt =====
-- Every audit entry of a result is in the audit log, and the log has gained nothing else.
use mathlib.Core.List.{append_assoc, append-nil}
use sales_lead_gen.Base.{
  ℕ, ◌≡◌, sym, inl, inr, none, some, List, [], ◌∷◌, ◌++◌, arith, leb, Bool-cases, Option-cases,
  is_some,
}
use sales_lead_gen.Models.{
  SignalAction, AuditLogTarget, Signal, Company, AuditLog, is_notify_immediate, signal_by_id,
  company_by_id,
}
use sales_lead_gen.Orchestrator.Session.{Delivery, Env, State, ActionResult, add_entry, entry_of}
use sales_lead_gen.Orchestrator.Dispatch.{
  dispatch_notify_digest, start_monitoring, enqueue, dispatch_enrich_further, dispatch,
  exception_message, enrichments_since,
}
use sales_lead_gen.Orchestrator.Notify.{
  notify, is_cooling, send_signal_notification, notify_if_immediate, delivery_error,
}
use sales_lead_gen.Orchestrator.{started, perform, execute}

-- The audit log is a base with the result's entries behind it.
abbrev pub IsAudited : List AuditLog → ActionResult × State → Type 0
IsAudited base r = r.1.db.audit_logs ≡ base ++ r.0.audit_entries

module _ (base : List AuditLog) where
  add_entry-IsAudited :
      (e : AuditLog) (r : ActionResult × State) → IsAudited base r → IsAudited base (add_entry e r)
  unfolding add_entry
  add_entry-IsAudited e (result, st) h = rw h (append_assoc base result.audit_entries (e ∷ []))

  start_monitoring-IsAudited :
      (company_id : ℕ) (result : ActionResult) (st : State)
      → IsAudited base (result, st)
      → IsAudited base (result, start_monitoring company_id st)
  unfolding start_monitoring
  start_monitoring-IsAudited company_id result st h = ground arith

  enqueue-IsAudited :
      (env : Env) (company_id : ℕ) (result : ActionResult) (st : State)
      → IsAudited base (result, st)
      → IsAudited base (result, enqueue env company_id st)
  unfolding enqueue
  enqueue-IsAudited env company_id result st h = ground arith

  dispatch-IsAudited :
      (env : Env) (s : Signal) (a : SignalAction) (r : ActionResult × State)
      → IsAudited base r
      → IsAudited base (dispatch env s a r)
  unfolding dispatch
  dispatch-IsAudited env s SignalAction.notify_immediate r h = h
  dispatch-IsAudited env s SignalAction.notify_digest r h =
      unfold dispatch_notify_digest in add_entry-IsAudited _ r h
  dispatch-IsAudited env s SignalAction.enrich_further (result, st) h =
      unfold dispatch_enrich_further in
      elim (Bool-cases (
        leb env.max_enrichments_per_day
          (enrichments_since env.today_start st.db.enrichment_jobs))) [
            | inl e ↦ rw e (add_entry-IsAudited _ (result, st) h)
            | inr e ↦
                let entry : AuditLog =
                  entry_of s SignalAction.enrich_further AuditLogTarget.enrichment
                    (some s.company_id) (exception_message (env.delay s.company_id)) in
                let after : ActionResult × State =
                  add_entry entry (result, enqueue env s.company_id st) in
                rw e (
                  start_monitoring-IsAudited s.company_id after.0 after.1 (
                    add_entry-IsAudited entry (result, enqueue env s.company_id st)
                      (enqueue-IsAudited env s.company_id result st h)))
          ]
  dispatch-IsAudited env s SignalAction.ignore r h = h

  send-IsAudited :
      (env : Env) (slack : List Signal → Company → Delivery) (s : Signal) (a : SignalAction)
      (result : ActionResult) (st : State)
      → IsAudited base (result, st)
      → IsAudited base (send_signal_notification env slack s a (result, st))
  unfolding send_signal_notification
  send-IsAudited env slack s a result st h =
      elim (Option-cases (company_by_id s.company_id st.db.companies)) [
        | inl e ↦ rw (e, send_signal_notification) h
        | inr (c, e) ↦ elim (Bool-cases (is_cooling env.checked_at c.slack_notified_at)) [
          | inl x ↦ rw (e, send_signal_notification) (simp x h)
          | inr x ↦
              let sent : State × Delivery = notify env slack s c st in
              rw (e, send_signal_notification)
                (simp x (
                  add_entry-IsAudited
                    (entry_of s a AuditLogTarget.slack none (delivery_error sent.1))
                    (result, sent.0) h))
        ]
      ]

  notify_if_immediate-IsAudited :
      (env : Env) (s : Signal) (a : SignalAction) (r : ActionResult × State)
      → IsAudited base r
      → IsAudited base (notify_if_immediate env s a r)
  unfolding notify_if_immediate
  notify_if_immediate-IsAudited env s a (result, st) h = elim (Option-cases env.slack) [
    | inl e ↦ rw (e, notify_if_immediate) h
    | inr (slack, e) ↦ elim (Bool-cases (is_notify_immediate a)) [
      | inl x ↦ rw (e, notify_if_immediate) (simp x (send-IsAudited env slack s a result st h))
      | inr x ↦ rw (e, notify_if_immediate) (simp x h)
    ]
  ]

perform-IsAudited :
    (env : Env) (s : Signal) (a : SignalAction) (st : State)
    → IsAudited st.db.audit_logs (perform env s a st)
unfolding perform
perform-IsAudited env s a st = notify_if_immediate-IsAudited st.db.audit_logs env s a _ (
    dispatch-IsAudited st.db.audit_logs env s a (started s a, st)
      (sym (append-nil st.db.audit_logs)))

-- Whatever the branch, an execution appends to the audit log exactly the entries of its result.
pub execute_audits :
    (env : Env) (i : ℕ) (st : State)
    → (let (result, st') = execute env i st in
        st'.db.audit_logs ≡ st.db.audit_logs ++ result.audit_entries)
unfolding execute
execute_audits env i st = elim (Option-cases (signal_by_id i st.db.signals)) [
  | inl e ↦ rw (e, execute) (sym (append-nil st.db.audit_logs))
  | inr (s, e) ↦ elim (Bool-cases (is_some s.action_executed_at)) [
    | inl x ↦ rw (e, execute) (simp x (sym (append-nil st.db.audit_logs)))
    | inr x ↦ elim (Option-cases s.action_taken) [
      | inl a ↦ rw (e, execute) (simp (x, a) (sym (append-nil st.db.audit_logs)))
      | inr (a, eq) ↦ rw (e, execute) (simp (x, eq) (perform-IsAudited env s a st))
    ]
  ]
]
