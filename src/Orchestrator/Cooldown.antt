-- ===== src/Orchestrator/Cooldown.antt =====
-- A company gets one Slack message in 24 hours.
use sales_lead_gen.Base.{
  ℕ, ◌+◌, ◌≤◌, ◌≡◌, refl, sym, ap, ◌∙◌, inl, inr, true, false, some, List, [], ◌∷◌, ◌++◌, arith,
  leb, ◌==◌, if◌then◌else◌, ==_iff, Bool-cases, Option-cases, All,
}
use mathlib.Core.Bool.{false≢true}
use sales_lead_gen.Models.{
  CompanyStatus, SignalAction, AuditLogTarget, Signal, Company, AuditLog, is_notify_immediate,
  company_by_id, put_company, id-company_by_id, company_by_id-put_company,
}
use sales_lead_gen.Orchestrator.Session.{
  Delivery, Env, Message, State, ActionResult, add_entry, entry_of, cooldown,
}
use sales_lead_gen.Orchestrator.Dispatch.{
  is_before_monitoring, start_monitoring, enqueue, dispatch, enrichments_since, exception_message,
}
use sales_lead_gen.Orchestrator.Notify.{
  pending_for, or_self, notify, is_cooling, send_signal_notification, notify_if_immediate,
}
use sales_lead_gen.Orchestrator.{started, perform, execute}
use sales_lead_gen.Orchestrator.Once.{execute_cases, executes}

-- The company was notified at this time.
abbrev pub IsNotified : ℕ → ℕ → State → Type 0
IsNotified c t st =
    (k : Company) × (company_by_id c st.db.companies ≡ some k) × (k.slack_notified_at ≡ some t)

-- How many messages were sent about a company.
unfoldable pub messages_to : ℕ → List Message → ℕ
messages_to c [] = 0
messages_to c (m ∷ ms) = let rest = messages_to c ms in if m.company_id == c then rest + 1 else rest

pub messages_to-append :
    (c : ℕ) (ms : List Message) (m : Message)
    → messages_to c (ms ++ m ∷ [])
      ≡ (if m.company_id == c then messages_to c ms + 1 else messages_to c ms)
unfolding messages_to
messages_to-append c [] m = ground arith
messages_to-append c (x ∷ xs) m = ground (arith, messages_to-append c xs m)

-- Silence about a company: no message was added, and the time of its last one stands.
record IsSilent (c t : ℕ) (st st' : State) : Type 0 where
  unsent : messages_to c st'.messages ≡ messages_to c st.messages
  still : IsNotified c t st'

module _ (c t : ℕ) where
  put_company-IsNotified :
      (d : Company) (i : ℕ) (st : State)
      → company_by_id i st.db.companies ≡ some d
      → (d' : Company) → d'.id ≡ d.id
      → d'.slack_notified_at ≡ d.slack_notified_at
      → IsNotified c t st
      → IsNotified c t
          (record st { db = record (st.db) { companies = put_company d' st.db.companies } })
  put_company-IsNotified d i st found d' same_id same_time (k, there, at) =
      let read = company_by_id-put_company c d' st.db.companies in
      elim (Bool-cases (d'.id == c)) [
        | inl e ↦
            let here : i ≡ c =
              sym (id-company_by_id i st.db.companies d found)
              ∙ sym same_id
              ∙ (==_iff d'.id c).0 e in
            let same : d ≡ k =
              cc (found, there, ap (λ (j : ℕ). company_by_id j st.db.companies) here) in
            (
              d',
              ground (arith, read, e, there),
              same_time ∙ ap (λ (x : Company). x.slack_notified_at) same ∙ at,
            )
        | inr e ↦ (k, ground (arith, read, e, there), at)
      ]

  start_monitoring-IsNotified :
      (i : ℕ) (st : State) → IsNotified c t st → IsNotified c t (start_monitoring i st)
  unfolding start_monitoring
  start_monitoring-IsNotified i st h = elim (Option-cases (company_by_id i st.db.companies)) [
    | inl e ↦ rw (e, start_monitoring) h
    | inr (d, e) ↦ elim (Bool-cases (is_before_monitoring d.status)) [
      | inl x ↦
          rw (e, start_monitoring)
            (simp x (
              put_company-IsNotified d i st e (record d { status = CompanyStatus.monitoring }) refl
                refl h))
      | inr x ↦ rw (e, start_monitoring) (simp x h)
    ]
  ]

  enqueue-IsSilent :
      (env : Env) (i : ℕ) (st : State) → IsNotified c t st → IsSilent c t st (enqueue env i st)
  unfolding enqueue
  enqueue-IsSilent env i st h = elim (Option-cases (env.delay i)) [
    | inl e ↦ rw (e, enqueue) (record { unsent = refl; still = h })
    | inr (text, e) ↦ rw (e, enqueue) (record { unsent = refl; still = h })
  ]

  start_monitoring-IsSilent :
      (i : ℕ) (st : State) → IsNotified c t st → IsSilent c t st (start_monitoring i st)
  start_monitoring-IsSilent i st h = record {
    unsent = ap (messages_to c) (messages-start_monitoring i st);
    still = start_monitoring-IsNotified i st h;
  }
    where
      messages-start_monitoring :
          (i : ℕ) (st : State) → (start_monitoring i st).messages ≡ st.messages
      messages-start_monitoring i st = unfold start_monitoring in ground arith

  dispatch-IsSilent :
      (env : Env) (s : Signal) (a : SignalAction) (result : ActionResult) (st : State)
      → IsNotified c t st
      → IsSilent c t st (dispatch env s a (result, st)).1
  unfolding dispatch
  dispatch-IsSilent env s SignalAction.enrich_further result st h =
      elim (Bool-cases (
        leb env.max_enrichments_per_day
          (enrichments_since env.today_start st.db.enrichment_jobs))) [
            | inl e ↦ rw e (record { unsent = refl; still = h })
            | inr e ↦
                let q = enqueue-IsSilent env s.company_id st h in
                let entry : AuditLog =
                  entry_of s SignalAction.enrich_further AuditLogTarget.enrichment
                    (some s.company_id) (exception_message (env.delay s.company_id)) in
                let after : State = (add_entry entry (result, enqueue env s.company_id st)).1 in
                let m = start_monitoring-IsSilent s.company_id after q.still in
                rw e (record { unsent = m.unsent ∙ q.unsent; still = m.still })
          ]
  dispatch-IsSilent env s SignalAction.notify_immediate result st h = record {
    unsent = refl;
    still = h;
  }
  dispatch-IsSilent env s SignalAction.notify_digest result st h = record {
    unsent = refl;
    still = h;
  }
  dispatch-IsSilent env s SignalAction.ignore result st h = record { unsent = refl; still = h }

  cooling :
      (now : ℕ) (k : Company)
      → k.slack_notified_at ≡ some t
      → now ≤ t + cooldown
      → is_cooling now k.slack_notified_at ≡ true
  unfolding is_cooling
  cooling now k e h = rw e (ground arith)

  -- A message about another company.
  notify-IsSilent :
      (env : Env) (slack : List Signal → Company → Delivery) (s : Signal) (d : Company) (st : State)
      → company_by_id s.company_id st.db.companies ≡ some d
      → (d.id == c) ≡ false
      → IsNotified c t st
      → IsSilent c t st (notify env slack s d st).0
  unfolding notify
  notify-IsSilent env slack s d st found other h =
      let (k, there, at) = h in
      let d' : Company = record d { slack_notified_at = some env.notified_at } in
      let signals = or_self s (pending_for s.company_id st.db.signals) in
      let m : Message = record {
        company_id = d.id;
        signals = signals;
        delivery = slack signals d;
      } in
      record {
        unsent = messages_to-append c st.messages m ∙ rw other;
        still =
            (k, ground (arith, company_by_id-put_company c d' st.db.companies, other, there), at);
      }

  send-IsSilent :
      (env : Env) (slack : List Signal → Company → Delivery) (s : Signal) (a : SignalAction)
      (result : ActionResult) (st : State)
      → env.checked_at ≤ t + cooldown
      → IsNotified c t st
      → IsSilent c t st (send_signal_notification env slack s a (result, st)).1
  unfolding send_signal_notification
  send-IsSilent env slack s a result st soon h =
      elim (Option-cases (company_by_id s.company_id st.db.companies)) [
        | inl e ↦ rw (e, send_signal_notification) (record { unsent = refl; still = h })
        | inr (d, e) ↦ elim (Bool-cases (is_cooling env.checked_at d.slack_notified_at)) [
          | inl x ↦ rw (e, send_signal_notification) (simp x (record { unsent = refl; still = h }))
          | inr x ↦ elim (Bool-cases (d.id == c)) [
            | inl y ↦
                let (k, there, at) = h in
                let here : s.company_id ≡ c =
                  sym (id-company_by_id s.company_id st.db.companies d e) ∙ (==_iff d.id c).0 y in
                let same : d ≡ k =
                  cc (e, there, ap (λ (j : ℕ). company_by_id j st.db.companies) here) in
                let wait =
                  cooling env.checked_at d (ap (λ (x : Company). x.slack_notified_at) same ∙ at)
                    soon in
                absurd (false≢true (sym x ∙ wait))
            | inr y ↦
                let q = notify-IsSilent env slack s d st e y h in
                rw (e, send_signal_notification)
                  (simp x (record { unsent = q.unsent; still = q.still }))
          ]
        ]
      ]

  notify_if_immediate-IsSilent :
      (env : Env) (s : Signal) (a : SignalAction) (result : ActionResult) (st : State)
      → env.checked_at ≤ t + cooldown
      → IsNotified c t st
      → IsSilent c t st (notify_if_immediate env s a (result, st)).1
  unfolding notify_if_immediate
  notify_if_immediate-IsSilent env s a result st soon h = elim (Option-cases env.slack) [
    | inl e ↦ rw (e, notify_if_immediate) (record { unsent = refl; still = h })
    | inr (slack, e) ↦ elim (Bool-cases (is_notify_immediate a)) [
      | inl x ↦ rw (e, notify_if_immediate) (simp x (send-IsSilent env slack s a result st soon h))
      | inr x ↦ rw (e, notify_if_immediate) (simp x (record { unsent = refl; still = h }))
    ]
  ]

  perform-IsSilent :
      (env : Env) (s : Signal) (a : SignalAction) (st : State)
      → env.checked_at ≤ t + cooldown
      → IsNotified c t st
      → IsSilent c t st (perform env s a st).1
  unfolding perform
  perform-IsSilent env s a st soon h =
      let (result, st') = dispatch env s a (started s a, st) in
      let d = dispatch-IsSilent env s a (started s a) st h in
      let n = notify_if_immediate-IsSilent env s a result st' soon d.still in
      record { unsent = n.unsent ∙ d.unsent; still = n.still }

  execute-IsSilent :
      (env : Env) (i : ℕ) (st : State)
      → env.checked_at ≤ t + cooldown
      → IsNotified c t st
      → IsSilent c t st (execute env i st).1
  execute-IsSilent env i st soon h = elim (execute_cases env i st) [
    | inl e ↦ rw e (record { unsent = refl; still = h })
    | inr (s, a, found, fresh, taken, e) ↦ rw e (perform-IsSilent env s a st soon h)
  ]

  -- Once a company was notified at a time, executions of any signals that check the cooldown within
  -- the next 24 hours send no message about it, and leave that time as it is.
  pub executes_silent :
      (runs : List (Env × ℕ)) (st : State)
      → All (λ run. run.0.checked_at ≤ t + cooldown) runs
      → IsNotified c t st
      → (messages_to c (executes runs st).messages ≡ messages_to c st.messages)
        × IsNotified c t (executes runs st)
  unfolding executes
  executes_silent [] st soon h = (refl, h)
  executes_silent ((env, i) ∷ rest) st soon h =
      let q = execute-IsSilent env i st soon.0 h in
      let (unsent, still) = executes_silent rest (execute env i st).1 soon.1 q.still in
      (unsent ∙ q.unsent, still)
