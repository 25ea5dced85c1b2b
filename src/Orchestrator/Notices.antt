-- ===== src/Orchestrator/Notices.antt =====
-- A company whose cooldown is over is notified once: the execution of backend/app/services/action_orchestrator.py.
use sales_lead_gen.Base.{
  ℕ, ◌+◌, ◌≤◌, ◌≡◌, refl, sym, subst, ◌∙◌, true, false, some, List, arith, ==_iff, is_some, All,
}
use sales_lead_gen.Models.{
  SignalAction, Signal, Company, signal_by_id, company_by_id, id-company_by_id,
  company_by_id-put_company,
}
use sales_lead_gen.Orchestrator.Session.{Delivery, Env, Message, State, cooldown}
use sales_lead_gen.Orchestrator.Notify.{
  pending_for, or_self, is_cooling, send_signal_notification, notify_if_immediate, is_delivered,
}
use sales_lead_gen.Orchestrator.{perform, execute}
use sales_lead_gen.Orchestrator.Once.{execute_acts, executes}
use sales_lead_gen.Orchestrator.Cooldown.{
  IsNotified, messages_to, messages_to-append, executes_silent,
}

module _ (env : Env) (slack : List Signal → Company → Delivery) (i : ℕ) (s : Signal) (c : Company)
    (st : State) where
  -- If Slack is configured, an execution of a fresh signal for immediate notification, whose company is
  -- there and was not notified within the cooldown, sends one message about the company; if that is
  -- delivered, the company was notified at that time, and if not, its row is left alone.
  execute_notifies :
      signal_by_id i st.db.signals ≡ some s
      → is_some s.action_executed_at ≡ false
      → s.action_taken ≡ some SignalAction.notify_immediate
      → company_by_id s.company_id st.db.companies ≡ some c
      → is_cooling env.checked_at c.slack_notified_at ≡ false
      → env.slack ≡ some slack
      → (let st' = (execute env i st).1 in
          let d = slack (or_self s (pending_for s.company_id st.db.signals)) c in
          (messages_to c.id st'.messages ≡ messages_to c.id st.messages + 1)
          × (is_delivered d ≡ true → IsNotified s.company_id env.notified_at st')
          × (is_delivered d ≡ false → st'.db.companies ≡ st.db.companies))
  unfolding perform
  execute_notifies found fresh taken owner warm service =
      let d' : Company = record c { slack_notified_at = some env.notified_at } in
      let signals = or_self s (pending_for s.company_id st.db.signals) in
      let m : Message = record {
        company_id = c.id;
        signals = signals;
        delivery = slack signals c;
      } in
      rw (execute_acts env i s SignalAction.notify_immediate st found fresh taken) (
        rw (service, notify_if_immediate)
          (rw (owner, send_signal_notification)
            (simp warm (
              messages_to-append c.id st.messages m ∙ ground (arith, ==_iff c.id c.id),
              (λ sent. (
                d',
                ground (
                  arith,
                  company_by_id-put_company s.company_id d' st.db.companies,
                  owner,
                  sent,
                  id-company_by_id s.company_id st.db.companies c,
                  ==_iff c.id s.company_id,
                ),
                refl,
              )),
              (λ lost. rw lost),
            ))))

  -- If Slack is configured and delivers the message, then from the execution of a fresh signal for
  -- immediate notification, whose company is there and not in its cooldown, until 24 hours after the
  -- time that this execution notes, exactly one message about the company is sent, whatever signals
  -- are executed after it in that time, further ones for immediate notification included.
  pub execute_notifies_once :
      (later : List (Env × ℕ))
      → signal_by_id i st.db.signals ≡ some s
      → is_some s.action_executed_at ≡ false
      → s.action_taken ≡ some SignalAction.notify_immediate
      → company_by_id s.company_id st.db.companies ≡ some c
      → is_cooling env.checked_at c.slack_notified_at ≡ false
      → env.slack ≡ some slack
      → is_delivered (slack (or_self s (pending_for s.company_id st.db.signals)) c) ≡ true
      → All (λ run. run.0.checked_at ≤ env.notified_at + cooldown) later
      → messages_to c.id (executes later (execute env i st).1).messages
        ≡ messages_to c.id st.messages + 1
  execute_notifies_once later found fresh taken owner warm service sent soon =
      let (one, noted, kept) = execute_notifies found fresh taken owner warm service in
      let same = id-company_by_id s.company_id st.db.companies c owner in
      let (unsent, still) =
        executes_silent s.company_id env.notified_at later (execute env i st).1 soon (noted sent) in
      subst
        (λ (d : ℕ).
          messages_to d (executes later (execute env i st).1).messages
          ≡ messages_to d (execute env i st).1.messages)
        (sym same) unsent
      ∙ one
