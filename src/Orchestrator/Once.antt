-- ===== src/Orchestrator/Once.antt =====
-- A signal is dispatched at most once.
use sales_lead_gen.Base.{
  ℕ, ◌≡◌, refl, sym, ap, ◌∙◌, ◌⊎◌, inl, inr, true, false, some, List, [], ◌∷◌, arith, ◌==◌, ==_iff,
  Bool-cases, Option-cases, is_some,
}
use mathlib.Core.Bool.{false≢true}
use mathlib.Core.Bool.{false≢true}
use sales_lead_gen.Models.{
  SignalAction, Signal, signal_by_id, put_signal, id-signal_by_id, signal_by_id-put_signal,
}
use sales_lead_gen.Orchestrator.Session.{Env, State, SkippedReason, ActionResult, skipped}
use sales_lead_gen.Orchestrator.Dispatch.{dispatch}
use sales_lead_gen.Orchestrator.Notify.{notify_if_immediate}
use sales_lead_gen.Orchestrator.{started, perform, execute}

signals-dispatch :
    (env : Env) (s : Signal) (a : SignalAction) (r : ActionResult × State)
    → (dispatch env s a r).1.db.signals ≡ r.1.db.signals
unfolding dispatch
signals-dispatch env s SignalAction.enrich_further (result, st) = ground arith
signals-dispatch env s SignalAction.notify_immediate r = refl
signals-dispatch env s SignalAction.notify_digest r = refl
signals-dispatch env s SignalAction.ignore r = refl

signals-notify :
    (env : Env) (s : Signal) (a : SignalAction) (r : ActionResult × State)
    → (notify_if_immediate env s a r).1.db.signals ≡ r.1.db.signals
unfolding notify_if_immediate
signals-notify env s a (result, st) = elim (Option-cases env.slack) [
  | inl e ↦ rw (e, notify_if_immediate)
  | inr (slack, e) ↦ rw (e, notify_if_immediate) (ground arith)
]

signals-perform :
    (env : Env) (s : Signal) (a : SignalAction) (st : State)
    → (perform env s a st).1.db.signals
      ≡ put_signal (record s { action_executed_at = some env.executed_at }) st.db.signals
unfolding perform
signals-perform env s a st = rw (
  signals-notify env s a (dispatch env s a (started s a, st)),
  signals-dispatch env s a (started s a, st),
)

-- The signal is there, with this action, and was executed.
abbrev pub IsExecuted : ℕ → SignalAction → State → Type 0
IsExecuted i a st =
    (s : Signal) × (signal_by_id i st.db.signals ≡ some s)
    × (is_some s.action_executed_at ≡ true)
    × (s.action_taken ≡ some a)

perform-IsExecuted :
    (env : Env) (i : ℕ) (a : SignalAction) (s : Signal) (st : State)
    → signal_by_id i st.db.signals ≡ some s
    → s.action_taken ≡ some a
    → IsExecuted i a (perform env s a st).1
perform-IsExecuted env i a s st found taken = (
  record s { action_executed_at = some env.executed_at },
  ap (signal_by_id i) (signals-perform env s a st)
      ∙ ground (
        arith,
        signal_by_id-put_signal i (record s { action_executed_at = some env.executed_at })
            st.db.signals,
        found,
        id-signal_by_id i st.db.signals s,
        ==_iff i i,
      ),
  refl,
  taken,
)

-- What is executed stays executed, whatever is executed later.
IsExecuted-perform :
    (env : Env) (i j : ℕ) (a b : SignalAction) (s : Signal) (st : State)
    → signal_by_id j st.db.signals ≡ some s
    → is_some s.action_executed_at ≡ false
    → IsExecuted i a st
    → IsExecuted i a (perform env s b st).1
IsExecuted-perform env i j a b s st found fresh (t, there, done, taken) =
    let s' : Signal = record s { action_executed_at = some env.executed_at } in
    let at =
      ap (signal_by_id i) (signals-perform env s b st)
      ∙ signal_by_id-put_signal i s' st.db.signals in
    elim (Bool-cases (s.id == i)) [
      | inl e ↦
          let here : j ≡ i = sym (id-signal_by_id j st.db.signals s found) ∙ (==_iff s.id i).0 e in
          let same : s ≡ t = cc (found, there, ap (λ (k : ℕ). signal_by_id k st.db.signals) here) in
          absurd
            (false≢true (sym fresh ∙ ap (λ (x : Signal). is_some x.action_executed_at) same ∙ done))
      | inr e ↦ (t, at ∙ ground (arith, e, there), done, taken)
    ]

-- Whether an execution acts, and on what.
pub execute_cases :
    (env : Env) (j : ℕ) (st : State)
    → ((execute env j st).1 ≡ st)
      ⊎ ((s : Signal) × (b : SignalAction) × (signal_by_id j st.db.signals ≡ some s)
          × (is_some s.action_executed_at ≡ false)
          × (s.action_taken ≡ some b)
          × (execute env j st ≡ perform env s b st))
unfolding execute
execute_cases env j st = elim (Option-cases (signal_by_id j st.db.signals)) [
  | inl e ↦ inl (rw (e, execute))
  | inr (s, e) ↦ elim (Bool-cases (is_some s.action_executed_at)) [
    | inl x ↦ inl (rw (e, execute) (simp x))
    | inr x ↦ elim (Option-cases s.action_taken) [
      | inl a ↦ inl (rw (e, execute) (simp (x, a)))
      | inr (b, a) ↦ inr (s, b, e, x, a, rw (e, execute) (simp (x, a)))
    ]
  ]
]

execute-IsExecuted :
    (env : Env) (i j : ℕ) (a : SignalAction) (st : State)
    → IsExecuted i a st
    → IsExecuted i a (execute env j st).1
execute-IsExecuted env i j a st h = elim (execute_cases env j st) [
  | inl e ↦ rw e h
  | inr (s, b, found, fresh, taken, e) ↦ rw e (IsExecuted-perform env i j a b s st found fresh h)
]

execute_executed :
    (env : Env) (i : ℕ) (a : SignalAction) (st : State)
    → IsExecuted i a st
    → execute env i st ≡ (skipped i a SkippedReason.already_executed, st)
unfolding execute
execute_executed env i a st (s, found, done, taken) = rw (found, execute) (simp (done, taken))

-- An execution that is not skipped.
pub execute_acts :
    (env : Env) (i : ℕ) (s : Signal) (a : SignalAction) (st : State)
    → signal_by_id i st.db.signals ≡ some s
    → is_some s.action_executed_at ≡ false
    → s.action_taken ≡ some a
    → execute env i st ≡ perform env s a st
unfolding execute
execute_acts env i s a st found fresh taken = rw (found, execute) (simp (fresh, taken))

execute_makes-IsExecuted :
    (env : Env) (i : ℕ) (s : Signal) (a : SignalAction) (st : State)
    → signal_by_id i st.db.signals ≡ some s
    → s.action_taken ≡ some a
    → IsExecuted i a (execute env i st).1
execute_makes-IsExecuted env i s a st found taken =
    elim (Bool-cases (is_some s.action_executed_at)) [
      | inl x ↦ rw (execute_executed env i a st (s, found, x, taken)) (s, found, x, taken)
      | inr x ↦
          rw (execute_acts env i s a st found x taken) (perform-IsExecuted env i a s st found taken)
    ]

-- Executions one after another, each in its own surroundings.
unfoldable pub executes : List (Env × ℕ) → State → State
executes [] st = st
executes ((env, j) ∷ rest) st = executes rest (execute env j st).1

executes-IsExecuted :
    (runs : List (Env × ℕ)) (i : ℕ) (a : SignalAction) (st : State)
    → IsExecuted i a st
    → IsExecuted i a (executes runs st)
unfolding executes
executes-IsExecuted [] i a st h = h
executes-IsExecuted ((env, j) ∷ rest) i a st h =
    executes-IsExecuted rest i a (execute env j st).1 (execute-IsExecuted env i j a st h)

-- Once a signal with an action has been executed, each later execution of it, after any executions
-- of any signals, is skipped as already executed and changes nothing: no table, no message, no task.
pub execute_once :
    (env env' : Env) (i : ℕ) (s : Signal) (a : SignalAction) (runs : List (Env × ℕ)) (st : State)
    → signal_by_id i st.db.signals ≡ some s
    → s.action_taken ≡ some a
    → (let later = executes runs (execute env i st).1 in
        execute env' i later ≡ (skipped i a SkippedReason.already_executed, later))
execute_once env env' i s a runs st found taken =
    execute_executed env' i a _
      (executes-IsExecuted runs i a _ (execute_makes-IsExecuted env i s a st found taken))
