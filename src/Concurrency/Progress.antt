-- ===== src/Concurrency/Progress.antt =====
-- The tasks of `gather_rate_limited` do not wait for each other for ever.
use sales_lead_gen.Base.{
  ℕ, zero, suc, ◌+◌, ◌-◌, ◌*◌, ◌≤◌, ◌<◌, String, ◌≡◌, refl, ap, ◌∙◌, ◌⊎◌, inl, inr, Bool, true,
  false, Option, List, [], ◌∷◌, ◌++◌, arith, ltb, Bool-cases, length,
}
use native.Mathlib.Nat.{suc-mul}
use sales_lead_gen.Concurrency.{
  Entry, Settings, Coro, Slot, waiting, running, ended, conclude, step_slot, step_at, holders,
  pending, returned, add_entry, collect, Gather, step, steps, start, gather_rate_limited,
}
use sales_lead_gen.Concurrency.Slots.{AreEnds, finished, limited, fails, Attempt-cases}
use sales_lead_gen.Concurrency.Retries.{
  IsGathered, step-IsGathered, gather-IsGathered, gather-AreEnds,
}

module _ {T : Type 0} (settings : Settings) where
  -- How many steps a task can still take, and all of them.
  abbrev left : Slot T → ℕ
  left waiting = settings.max_rate_retries + 3
  left (running attempt last_exc waits) = (settings.max_rate_retries + 1 - attempt) + 1
  left (ended e) = 0

  all_left : List (Coro T × Slot T) → ℕ
  all_left [] = 0
  all_left ((c, s) ∷ tasks) = left s + all_left tasks

  left-waiting : (c : Coro T) → left (step_slot settings true c waiting) < left waiting
  unfolding step_slot
  left-waiting c = omega arith

  left-running :
      (room : Bool) (c : Coro T) (attempt : ℕ) (last_exc : Option String) (waits : List ℕ)
      → left (step_slot settings room c (running attempt last_exc waits))
        < left (running attempt last_exc waits)
  unfolding step_slot conclude
  left-running room c attempt last_exc waits =
      elim (Bool-cases (ltb attempt (settings.max_rate_retries + 1))) [
        | inr over ↦ rw over (omega arith)
        | inl more ↦ elim (Attempt-cases (c.call attempt)) [
          | finished v e ↦ rw (more, e) (omega arith)
          | fails x e ↦ rw (more, e) (omega arith)
          | limited x e ↦ rw (more, e) (ground arith)
        ]
      ]

  left-step_slot :
      (room : Bool) (c : Coro T) (s : Slot T) → left (step_slot settings room c s) ≤ left s
  unfolding step_slot
  left-step_slot true c waiting = omega arith
  left-step_slot false c waiting = omega arith
  left-step_slot room c (ended e) = omega arith
  left-step_slot room c (running attempt last_exc waits) =
      omega (arith, left-running room c attempt last_exc waits)

  all_left-step_at :
      (room : Bool) (k : ℕ) (tasks : List (Coro T × Slot T))
      → all_left (step_at settings room k tasks) ≤ all_left tasks
  unfolding all_left step_at
  all_left-step_at room k [] = omega arith
  all_left-step_at room zero ((c, s) ∷ tasks) = omega (arith, left-step_slot room c s)
  all_left-step_at room (suc k) ((c, s) ∷ tasks) = omega (arith, all_left-step_at room k tasks)

  all_left-steps :
      (ks : List ℕ) (g : Gather T) → all_left (steps settings true ks g).tasks ≤ all_left g.tasks
  unfolding steps step
  all_left-steps [] g = omega arith
  all_left-steps (k ∷ ks) g =
      let room = ltb (holders g.tasks) settings.max_concurrency in
      omega (arith, all_left-steps ks (step settings true k g), all_left-step_at room k g.tasks)

  -- A task whose step brings the end nearer.
  Advances : Bool → List (Coro T × Slot T) → Type 0
  Advances room tasks = (k : ℕ) × (all_left (step_at settings room k tasks) < all_left tasks)

  Advances-tail :
      (room : Bool) (t : Coro T × Slot T) (tasks : List (Coro T × Slot T))
      → Advances room tasks
      → Advances room (t ∷ tasks)
  unfolding Advances all_left step_at
  Advances-tail room t tasks (k, less) = (suc k, omega (arith, less))

  Advances-running :
      (room : Bool) (tasks : List (Coro T × Slot T)) → 0 < holders tasks → Advances room tasks
  unfolding Advances all_left step_at holders
  Advances-running room [] h = absurd (omega arith)
  Advances-running room ((c, waiting) ∷ tasks) h =
      Advances-tail room (c, waiting) tasks (Advances-running room tasks (omega arith))
  Advances-running room ((c, running attempt last_exc waits) ∷ tasks) h =
      (0, omega (arith, left-running room c attempt last_exc waits))
  Advances-running room ((c, ended e) ∷ tasks) h =
      Advances-tail room (c, ended e) tasks (Advances-running room tasks (omega arith))

  Advances-room :
      (tasks : List (Coro T × Slot T))
      → ((es : List (Entry T)) × (collect tasks ≡ returned es)) ⊎ Advances true tasks
  unfolding Advances all_left step_at collect
  Advances-room [] = inl ([], refl)
  Advances-room ((c, waiting) ∷ tasks) = inr (0, omega (arith, left-waiting c))
  Advances-room ((c, running attempt last_exc waits) ∷ tasks) =
      inr (0, omega (arith, left-running true c attempt last_exc waits))
  Advances-room ((c, ended e) ∷ tasks) = elim (Advances-room tasks) [
    | inl (es, q) ↦ inl (e ∷ es, ap (add_entry e) q)
    | inr a ↦ inr (Advances-tail true (c, ended e) tasks a)
  ]

  -- While a task has not ended, one can take a step, if the semaphore has a place at all.
  advances :
      (tasks : List (Coro T × Slot T))
      → 0 < settings.max_concurrency
      → ((es : List (Entry T)) × (collect tasks ≡ returned es))
        ⊎ Advances (ltb (holders tasks) settings.max_concurrency) tasks
  advances tasks places = elim (Bool-cases (ltb 0 (holders tasks))) [
    | inl some_holder ↦ inr (Advances-running _ tasks (ground arith))
    | inr no_holder ↦
        let room : ltb (holders tasks) settings.max_concurrency ≡ true = ground arith in
        rw room (Advances-room tasks)
  ]

  all_left-start :
      (coros : List (Coro T))
      → all_left (start coros) ≡ length coros * (settings.max_rate_retries + 3)
  unfolding all_left
  all_left-start [] = omega arith
  all_left-start (c ∷ cs) =
      omega (arith, all_left-start cs, suc-mul (length cs) (settings.max_rate_retries + 3))

  steps-append :
      (ks more : List ℕ) (g : Gather T)
      → steps settings true (ks ++ more) g ≡ steps settings true more (steps settings true ks g)
  unfolding steps
  steps-append [] more g = refl
  steps-append (k ∷ ks) more g = steps-append ks more (step settings true k g)

  -- From any time of a gathering there is a way to its end.
  Ends : ℕ → Gather T → Type 0
  Ends n g =
      (later : List ℕ) × (es : List (Entry T)) × (length later ≤ n)
      × ((steps settings true later g).outcome ≡ returned es)

  steps-Ends :
      (n : ℕ) (coros : List (Coro T)) (g : Gather T)
      → 0 < settings.max_concurrency
      → IsGathered settings coros g
      → all_left g.tasks ≤ n
      → Ends n g
  unfolding Ends steps step Advances
  steps-Ends zero coros g places h few = elim (advances g.tasks places) [
    | inl (es, e) ↦ ([], es, omega arith, h.settled ∙ e)
    | inr (k, less) ↦ absurd (omega (arith, less, few))
  ]
  steps-Ends (suc n) coros g places h few = elim (advances g.tasks places) [
    | inl (es, e) ↦ ([], es, omega arith, h.settled ∙ e)
    | inr (k, less) ↦
        let h' = step-IsGathered settings k coros g h in
        let (later, es, short, end) =
          steps-Ends n coros (step settings true k g) places h' (omega (arith, less, few)) in
        (k ∷ later, es, omega (arith, short), end)
  ]

ends-later :
    {T : Type 0} (settings : Settings) (coros : List (Coro T)) (schedule : List ℕ)
    → 0 < settings.max_concurrency
    → ((later : List ℕ) × (es : List (Entry T)) × (length later
          ≤ length coros * (settings.max_rate_retries + 3))
        × ((gather_rate_limited settings coros (schedule ++ later)).outcome ≡ returned es))
unfolding gather_rate_limited Ends
ends-later settings coros schedule places =
    let first : Gather _ = record { tasks = start coros; outcome = collect (start coros) } in
    let before = all_left-steps settings schedule first in
    let (later, es, short, end) =
      steps-Ends settings (length coros * (settings.max_rate_retries + 3)) coros
        (steps settings true schedule first) places (gather-IsGathered settings coros schedule)
        (omega (arith, before, all_left-start settings coros)) in
    (
      later,
      es,
      short,
      ap (λ (g : Gather _). g.outcome) (steps-append settings schedule later first) ∙ end,
    )

-- Whatever steps the tasks have taken, in any order, with a semaphore of at least one place: no more
-- tasks hold it than it has places; the gathering is pending, or has returned a list with one entry for
-- each factory, in the order of the factories, each of which is what its own factory's first call that
-- is not rate limited returns or raises, or the last rate limit's exception if the calls that may be
-- made are all limited, whatever becomes of the other tasks; and there is no deadlock, as some further
-- steps, at most as many as the factories times the retries and three, make it return.
pub gather_rate_limited_isolates :
    {T : Type 0} (settings : Settings) (coros : List (Coro T)) (schedule : List ℕ)
    → 0 < settings.max_concurrency
    → (let g = gather_rate_limited settings coros schedule in
        (holders g.tasks ≤ settings.max_concurrency)
        × ((g.outcome ≡ pending)
            ⊎ ((es : List (Entry T)) × (g.outcome ≡ returned es) × AreEnds settings coros es))
        × ((later : List ℕ) × (es : List (Entry T)) × (length later
              ≤ length coros * (settings.max_rate_retries + 3))
            × ((gather_rate_limited settings coros (schedule ++ later)).outcome ≡ returned es)))
gather_rate_limited_isolates settings coros schedule places = (
  (gather-IsGathered settings coros schedule).few,
  gather-AreEnds settings coros schedule,
  ends-later settings coros schedule places,
)
