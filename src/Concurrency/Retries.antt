-- ===== src/Concurrency/Retries.antt =====
-- What `gather_rate_limited` returns, whatever the order of the tasks' steps.
use sales_lead_gen.Base.{
  ℕ, zero, suc, ◌+◌, ◌≤◌, String, ◌≡◌, refl, sym, ap, ◌∙◌, subst, ◌≢◌, ◌⊎◌, inl, inr, Bool, true,
  false, List, [], ◌∷◌, arith, ltb, if◌then◌else◌, Bool-cases,
}
use sales_lead_gen.Concurrency.{
  Entry, Settings, Coro, Slot, waiting, running, ended, conclude, step_slot, step_at, is_running,
  holders, Outcome, pending, returned, raised, add_entry, collect, settle, Gather, step, steps,
  start, gather_rate_limited,
}
use sales_lead_gen.Concurrency.Slots.{
  finished, limited, fails, Attempt-cases, AreEnds, no_ends, add_end, AreSound, coros_of,
  step_at-AreSound, coros_of-step_at,
}

data OutcomeCase {T : Type 0} (o : Outcome T) : Type 0 where
  still_pending : o ≡ pending → OutcomeCase o
  has_returned : (es : List (Entry T)) → o ≡ returned es → OutcomeCase o
  has_raised : (x : String) → o ≡ raised x → OutcomeCase o

Outcome-cases : {T : Type 0} (o : Outcome T) → OutcomeCase o
Outcome-cases pending = still_pending refl
Outcome-cases (returned es) = has_returned es refl
Outcome-cases (raised x) = has_raised x refl

collect-never_raised :
    {T : Type 0} (tasks : List (Coro T × Slot T)) (x : String) → collect tasks ≢ raised x
unfolding collect
collect-never_raised [] x e = cc
collect-never_raised ((c, waiting) ∷ tasks) x e = cc
collect-never_raised ((c, running attempt last_exc waits) ∷ tasks) x e = cc
collect-never_raised ((c, ended y) ∷ tasks) x e = elim (Outcome-cases (collect tasks)) [
  | still_pending q ↦ cc
  | has_returned ys q ↦ cc
  | has_raised z q ↦ collect-never_raised tasks z q
]

module _ {T : Type 0} (settings : Settings) where
  collect-AreEnds :
      (tasks : List (Coro T × Slot T)) (es : List (Entry T))
      → AreSound settings tasks
      → collect tasks ≡ returned es
      → AreEnds settings (coros_of tasks) es
  unfolding collect
  collect-AreEnds [] [] h e = no_ends
  collect-AreEnds [] (x ∷ es) h e = cc
  collect-AreEnds ((c, waiting) ∷ tasks) es h e = cc
  collect-AreEnds ((c, running attempt last_exc waits) ∷ tasks) es h e = cc
  collect-AreEnds ((c, ended x) ∷ tasks) es (h, hs) e = elim (Outcome-cases (collect tasks)) [
    | still_pending q ↦ cc
    | has_raised y q ↦ cc
    | has_returned ys q ↦
        let ends : returned (x ∷ ys) ≡ returned es = ap (add_entry x) (sym q) ∙ e in
        let same : es ≡ x ∷ ys = cc in
        subst (AreEnds settings (c ∷ coros_of tasks)) (sym same)
          (add_end c x (coros_of tasks) ys h (collect-AreEnds tasks ys hs q))
  ]

  -- No more tasks hold the semaphore than it has places.
  step_slot-is_running :
      (room : Bool) (c : Coro T) (s : Slot T)
      → is_running (step_slot settings room c s) ≤ is_running s + (if room then 1 else 0)
  unfolding step_slot conclude
  step_slot-is_running true c waiting = omega arith
  step_slot-is_running false c waiting = omega arith
  step_slot-is_running room c (ended e) = omega arith
  step_slot-is_running room c (running attempt last_exc waits) =
      elim (Bool-cases (ltb attempt (settings.max_rate_retries + 1))) [
        | inr over ↦ rw over (omega arith)
        | inl more ↦ elim (Attempt-cases (c.call attempt)) [
          | finished v e ↦ rw (more, e) (omega arith)
          | fails x e ↦ rw (more, e) (omega arith)
          | limited x e ↦ rw (more, e) (omega arith)
        ]
      ]

  step_at-holders :
      (room : Bool) (k : ℕ) (tasks : List (Coro T × Slot T))
      → holders (step_at settings room k tasks) ≤ holders tasks + (if room then 1 else 0)
  unfolding step_at holders
  step_at-holders room k [] = omega arith
  step_at-holders room zero ((c, s) ∷ tasks) = omega (arith, step_slot-is_running room c s)
  step_at-holders room (suc k) ((c, s) ∷ tasks) = omega (arith, step_at-holders room k tasks)

  step_at-few :
      (k : ℕ) (tasks : List (Coro T × Slot T))
      → holders tasks ≤ settings.max_concurrency
      → holders (step_at settings (ltb (holders tasks) settings.max_concurrency) k tasks)
        ≤ settings.max_concurrency
  step_at-few k tasks few =
      let grown = step_at-holders (ltb (holders tasks) settings.max_concurrency) k tasks in
      elim (Bool-cases (ltb (holders tasks) settings.max_concurrency)) [
        | inl room ↦ ground (arith, grown)
        | inr full ↦ ground (arith, grown)
      ]

  -- What holds at any time of the gathering of some factories.
  pub record IsGathered (coros : List (Coro T)) (g : Gather T) : Type 0 where
    pub sound : AreSound settings g.tasks
    pub same_coros : coros_of g.tasks ≡ coros
    pub few : holders g.tasks ≤ settings.max_concurrency
    pub settled : g.outcome ≡ collect g.tasks

  collect-settle :
      (tasks : List (Coro T × Slot T)) (later : List (Coro T × Slot T)) (o : Outcome T)
      → o ≡ collect tasks
      → settle true later o ≡ collect later
  unfolding settle
  collect-settle tasks later pending e = refl
  collect-settle tasks later (returned es) e = refl
  collect-settle tasks later (raised x) e = absurd (collect-never_raised tasks x (sym e))

  pub step-IsGathered :
      (k : ℕ) (coros : List (Coro T)) (g : Gather T)
      → IsGathered coros g
      → IsGathered coros (step settings true k g)
  unfolding step
  step-IsGathered k coros g h =
      let room = ltb (holders g.tasks) settings.max_concurrency in
      record {
        sound = step_at-AreSound settings room k g.tasks h.sound;
        same_coros = coros_of-step_at settings room k g.tasks ∙ h.same_coros;
        few = step_at-few k g.tasks h.few;
        settled = collect-settle g.tasks (step_at settings room k g.tasks) g.outcome h.settled;
      }

  steps-IsGathered :
      (ks : List ℕ) (coros : List (Coro T)) (g : Gather T)
      → IsGathered coros g
      → IsGathered coros (steps settings true ks g)
  unfolding steps
  steps-IsGathered [] coros g h = h
  steps-IsGathered (k ∷ ks) coros g h =
      steps-IsGathered ks coros (step settings true k g) (step-IsGathered k coros g h)

  start-AreSound : (coros : List (Coro T)) → AreSound settings (start coros)
  start-AreSound [] = tt
  start-AreSound (c ∷ cs) = (refl, start-AreSound cs)

  coros_of-start : (coros : List (Coro T)) → coros_of (start coros) ≡ coros
  coros_of-start [] = refl
  coros_of-start (c ∷ cs) = ap (λ (ds : List (Coro T)). c ∷ ds) (coros_of-start cs)

  holders-start : (coros : List (Coro T)) → holders (start coros) ≡ 0
  unfolding holders
  holders-start [] = refl
  holders-start (c ∷ cs) = omega (arith, holders-start cs)

  pub gather-IsGathered :
      (coros : List (Coro T)) (schedule : List ℕ)
      → IsGathered coros (gather_rate_limited settings coros schedule)
  unfolding gather_rate_limited
  gather-IsGathered coros schedule = steps-IsGathered schedule coros _ record {
    sound = start-AreSound coros;
    same_coros = coros_of-start coros;
    few = omega (arith, holders-start coros);
    settled = refl;
  }

  -- A gathering is still pending, or has returned the ends of its factories' tasks.
  pub gather-AreEnds :
      (coros : List (Coro T)) (schedule : List ℕ)
      → (let o = (gather_rate_limited settings coros schedule).outcome in
          (o ≡ pending) ⊎ ((es : List (Entry T)) × (o ≡ returned es) × AreEnds settings coros es))
  gather-AreEnds coros schedule =
      let g = gather_rate_limited settings coros schedule in
      let h = gather-IsGathered coros schedule in
      elim (Outcome-cases g.outcome) [
        | still_pending e ↦ inl e
        | has_raised x e ↦ absurd (collect-never_raised g.tasks x (sym h.settled ∙ e))
        | has_returned es e ↦ inr (
          es,
          e,
          subst (λ (cs : List (Coro T)). AreEnds settings cs es) h.same_coros
              (collect-AreEnds g.tasks es h.sound (sym h.settled ∙ e)),
        )
      ]
