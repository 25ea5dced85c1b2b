-- ===== src/Concurrency.antt =====
-- backend/app/utils/concurrency.py: calls in parallel, each retried on a rate limit. The tasks of the
-- event loop take steps in any order; a task is between two steps where it awaits the semaphore, a call
-- or a sleep. The semaphore lets in any waiting task, so that the order of `asyncio.Semaphore`, which
-- serves the first one that came, is one of those modelled. A delay is in milliseconds.
pub mod Slots
pub mod Retries
pub mod Progress
use sales_lead_gen.Base.{
  ℕ, zero, suc, ◌+◌, ◌-◌, ◌*◌, ◌/◌, ◌%◌, ◌^◌, ◌≤◌, ◌<◌, min, max, String, ◌≡◌, refl, sym, ap, ◌∙◌,
  subst, ◌≢◌, ◌↔◌, ◌⊎◌, inl, inr, Bool, true, false, not, ◌&&◌, ◌||◌, Option, none, some, List, [],
  ◌∷◌, ◌++◌, map, arith, str_eq, eq_iff, ltb, leb, ◌==◌, if◌then◌else◌, ==_iff, Bool-cases,
  Option-cases, is_some, length, length-append, select, any, find, All, All-append,
}

-- The end of one call: it returns, is rate limited, or raises another exception. An exception is its text.
pub data Attempt (T : Type 0) : Type 0 where
  done : T → Attempt T
  rate_limited : String → Attempt T
  failed : String → Attempt T

-- An entry of the result list: a value or an exception.
pub data Entry (T : Type 0) : Type 0 where
  value : T → Entry T
  exception : String → Entry T

-- `raise last_exc`: with no call made, `None` is raised, which is a `TypeError`.
abbrev pub raise_last : {T : Type 0} → Option String → Entry T
raise_last none = exception "exceptions must derive from BaseException"
raise_last (some e) = exception e

pub record Settings : Type 0 where
  pub max_concurrency : ℕ
  pub max_rate_retries : ℕ
  pub rate_retry_base_delay : ℕ

abbrev pub defaults : Settings
defaults = record { max_concurrency = 5; max_rate_retries = 4; rate_retry_base_delay = 1500 }

-- `uniform(-jitter, jitter)` with a jitter of three tenths of the delay: a draw goes from 0, for the lowest
-- value, to 600, for the highest.
unfoldable pub wait_of : Settings → ℕ → ℕ → ℕ
wait_of settings attempt draw =
    let delay = settings.rate_retry_base_delay * 2 ^ attempt in (delay * (700 + draw)) / 1000

-- A coroutine factory: what its calls do, one after another, and what is drawn after each.
pub record Coro (T : Type 0) : Type 0 where
  pub call : ℕ → Attempt T
  pub draw : ℕ → ℕ

-- Where a task is: at the semaphore, before an attempt with the last exception and the sleeps so far,
-- or at its end.
pub data Slot (T : Type 0) : Type 0 where
  waiting : Slot T
  running : ℕ → Option String → List ℕ → Slot T
  ended : Entry T → Slot T

-- The end of an attempt, with the sleep after it unless it was the last.
unfoldable pub conclude : {T : Type 0} → Settings → Coro T → ℕ → List ℕ → Attempt T → Slot T
conclude settings c attempt waits (done v) = ended (value v)
conclude settings c attempt waits (failed e) = ended (exception e)
conclude settings c attempt waits (rate_limited e) = running (suc attempt) (some e) (
    if ltb attempt settings.max_rate_retries
    then waits ++ wait_of settings attempt (c.draw attempt) ∷ []
    else waits)

-- One step of `_run`, with whether the semaphore lets a task in.
unfoldable pub step_slot : {T : Type 0} → Settings → Bool → Coro T → Slot T → Slot T
step_slot settings room c waiting = if room then running 0 none [] else waiting
step_slot settings room c (running attempt last_exc waits) =
    if ltb attempt (settings.max_rate_retries + 1)
    then conclude settings c attempt waits (c.call attempt)
    else ended (raise_last last_exc)
step_slot settings room c (ended e) = ended e

unfoldable pub step_at :
    {T : Type 0} → Settings → Bool → ℕ → List (Coro T × Slot T) → List (Coro T × Slot T)
step_at settings room k [] = []
step_at settings room zero ((c, s) ∷ tasks) = (c, step_slot settings room c s) ∷ tasks
step_at settings room (suc k) (task ∷ tasks) = task ∷ step_at settings room k tasks

abbrev pub is_running : {T : Type 0} → Slot T → ℕ
is_running waiting = 0
is_running (running attempt last_exc waits) = 1
is_running (ended e) = 0

-- How many tasks hold the semaphore.
unfoldable pub holders : {T : Type 0} → List (Coro T × Slot T) → ℕ
holders [] = 0
holders ((c, s) ∷ tasks) = is_running s + holders tasks

-- What `asyncio.gather` has come to.
pub data Outcome (T : Type 0) : Type 0 where
  pending : Outcome T
  returned : List (Entry T) → Outcome T
  raised : String → Outcome T

abbrev pub add_entry : {T : Type 0} → Entry T → Outcome T → Outcome T
add_entry e pending = pending
add_entry e (returned es) = returned (e ∷ es)
add_entry e (raised x) = raised x

-- The ends of all tasks in the order of the factories, once each has ended.
unfoldable pub collect : {T : Type 0} → List (Coro T × Slot T) → Outcome T
collect [] = returned []
collect ((c, waiting) ∷ tasks) = pending
collect ((c, running attempt last_exc waits) ∷ tasks) = pending
collect ((c, ended e) ∷ tasks) = add_entry e (collect tasks)

-- The exception with which a task has ended, if one has.
unfoldable pub exception_in : {T : Type 0} → List (Coro T × Slot T) → Option String
exception_in [] = none
exception_in ((c, ended (exception e)) ∷ tasks) = some e
exception_in ((c, ended (value v)) ∷ tasks) = exception_in tasks
exception_in ((c, waiting) ∷ tasks) = exception_in tasks
exception_in ((c, running attempt last_exc waits) ∷ tasks) = exception_in tasks

-- What a step makes of the outcome, where ended tasks stay as they are. Without `return_exceptions`, the first exception is raised.
unfoldable pub settle : {T : Type 0} → Bool → List (Coro T × Slot T) → Outcome T → Outcome T
settle return_exceptions tasks (raised e) = raised e
settle return_exceptions tasks (returned es) = collect tasks
settle true tasks pending = collect tasks
settle false tasks pending = elim (exception_in tasks) [ none ↦ collect tasks | some e ↦ raised e ]

pub record Gather (T : Type 0) : Type 0 where
  pub tasks : List (Coro T × Slot T)
  pub outcome : Outcome T

-- The task of an index takes a step.
unfoldable pub step : {T : Type 0} → Settings → Bool → ℕ → Gather T → Gather T
step settings return_exceptions k g =
    let tasks = step_at settings (ltb (holders g.tasks) settings.max_concurrency) k g.tasks in
    record { tasks = tasks; outcome = settle return_exceptions tasks g.outcome }

-- The steps of a schedule, which names the task of each.
unfoldable pub steps : {T : Type 0} → Settings → Bool → List ℕ → Gather T → Gather T
steps settings return_exceptions [] g = g
steps settings return_exceptions (k ∷ ks) g =
    steps settings return_exceptions ks (step settings return_exceptions k g)

abbrev pub start : {T : Type 0} → List (Coro T) → List (Coro T × Slot T)
start [] = []
start (c ∷ cs) = (c, waiting) ∷ start cs

-- `gather_rate_limited` when the event loop has taken the steps of a schedule.
unfoldable pub gather_rate_limited : {T : Type 0} → Settings → List (Coro T) → List ℕ → Gather T
gather_rate_limited settings coros schedule =
    steps settings true schedule record { tasks = start coros; outcome = collect (start coros) }
