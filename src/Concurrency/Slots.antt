-- ===== src/Concurrency/Slots.antt =====
-- How one task of `gather_rate_limited` may end, whenever it takes its steps.
use sales_lead_gen.Base.{
  ℕ, zero, suc, ◌+◌, ◌≤◌, ◌<◌, String, ◌≡◌, refl, sym, ap, ◌∙◌, subst, inl, inr, Bool, true, false,
  Option, none, some, List, [], ◌∷◌, map, arith, ltb, ◌==◌, ==_iff, Bool-cases, All,
}
use sales_lead_gen.Concurrency.{
  Attempt, done, rate_limited, failed, Entry, value, exception, raise_last, Settings, Coro, Slot,
  waiting, running, ended, conclude, step_slot, step_at,
}

pub data AttemptCase {T : Type 0} (a : Attempt T) : Type 0 where
  finished : (v : T) → a ≡ done v → AttemptCase a
  limited : (e : String) → a ≡ rate_limited e → AttemptCase a
  fails : (e : String) → a ≡ failed e → AttemptCase a

pub Attempt-cases : {T : Type 0} (a : Attempt T) → AttemptCase a
Attempt-cases (done v) = finished v refl
Attempt-cases (rate_limited e) = limited e refl
Attempt-cases (failed e) = fails e refl

-- The factories of the tasks.
abbrev pub coros_of : {T : Type 0} → List (Coro T × Slot T) → List (Coro T)
coros_of tasks = map (λ t. t.0) tasks

module _ {T : Type 0} (settings : Settings) where
  -- The first calls of a factory are all rate limited.
  abbrev pub AllLimited : Coro T → ℕ → Type 0
  AllLimited c n = (k : ℕ) → k < n → (x : String) × (c.call k ≡ rate_limited x)

  -- How a factory's task may end: its first call that is not rate limited, which is one of those it may
  -- make, returns or raises, or all of them are rate limited and it raises the last one's exception.
  pub data IsEnd (c : Coro T) : Entry T → Type 0 where
    returns :
        (n : ℕ) (v : T)
        → n ≤ settings.max_rate_retries
        → AllLimited c n
        → c.call n ≡ done v
        → IsEnd c (value v)
    raises :
        (n : ℕ) (x : String)
        → n ≤ settings.max_rate_retries
        → AllLimited c n
        → c.call n ≡ failed x
        → IsEnd c (exception x)
    exhausts :
        (x : String)
        → AllLimited c (suc settings.max_rate_retries)
        → c.call settings.max_rate_retries ≡ rate_limited x
        → IsEnd c (exception x)

  pub data AreEnds : List (Coro T) → List (Entry T) → Type 0 where
    no_ends : AreEnds [] []
    add_end :
        (c : Coro T) (e : Entry T) (cs : List (Coro T)) (es : List (Entry T))
        → IsEnd c e
        → AreEnds cs es
        → AreEnds (c ∷ cs) (e ∷ es)

  -- The last exception of so many attempts.
  abbrev pub IsLast : Coro T → ℕ → Option String → Type 0
  IsLast c zero last_exc = last_exc ≡ none
  IsLast c (suc n) last_exc = (x : String) × (c.call n ≡ rate_limited x) × (last_exc ≡ some x)

  abbrev pub IsSound : Coro T → Slot T → Type 0
  IsSound c waiting = true ≡ true
  IsSound c (running attempt last_exc waits) =
      (attempt ≤ suc settings.max_rate_retries) × AllLimited c attempt × IsLast c attempt last_exc
  IsSound c (ended e) = IsEnd c e

  AllLimited-suc :
      (c : Coro T) (n : ℕ) (x : String)
      → c.call n ≡ rate_limited x
      → AllLimited c n
      → AllLimited c (suc n)
  AllLimited-suc c n x e h k less = elim (Bool-cases (k == n)) [
    | inl same ↦ (x, ap c.call ((==_iff k n).0 same) ∙ e)
    | inr other ↦ h k (ground arith)
  ]

  raise_last-IsEnd :
      (c : Coro T) (attempt : ℕ) (last_exc : Option String)
      → attempt ≡ suc settings.max_rate_retries
      → AllLimited c attempt
      → IsLast c attempt last_exc
      → IsEnd c (raise_last last_exc)
  raise_last-IsEnd c attempt last_exc e h l =
      let all : AllLimited c (suc settings.max_rate_retries) = subst (AllLimited c) e h in
      let (x, call, last) : IsLast c (suc settings.max_rate_retries) last_exc =
        subst (λ (n : ℕ). IsLast c n last_exc) e l in
      subst (λ (o : Option String). IsEnd c (raise_last o)) (sym last) (exhausts x all call)

  step_slot-IsSound :
      (room : Bool) (c : Coro T) (s : Slot T)
      → IsSound c s
      → IsSound c (step_slot settings room c s)
  unfolding step_slot conclude
  step_slot-IsSound true c waiting h = (omega arith, (λ k less. absurd (omega arith)), refl)
  step_slot-IsSound false c waiting h = h
  step_slot-IsSound room c (ended e) h = h
  step_slot-IsSound room c (running attempt last_exc waits) (few, all, last) =
      elim (Bool-cases (ltb attempt (settings.max_rate_retries + 1))) [
        | inr over ↦ rw over (raise_last-IsEnd c attempt last_exc (ground arith) all last)
        | inl more ↦
            let allowed : attempt ≤ settings.max_rate_retries = ground arith in
            elim (Attempt-cases (c.call attempt)) [
              | finished v e ↦ rw (more, e) (returns attempt v allowed all e)
              | fails x e ↦ rw (more, e) (raises attempt x allowed all e)
              | limited x e ↦
                  rw (more, e) (omega arith, AllLimited-suc c attempt x e all, (x, e, refl))
            ]
      ]

  abbrev pub AreSound : List (Coro T × Slot T) → Type 0
  AreSound tasks = All (λ t. IsSound t.0 t.1) tasks

  pub step_at-AreSound :
      (room : Bool) (k : ℕ) (tasks : List (Coro T × Slot T))
      → AreSound tasks
      → AreSound (step_at settings room k tasks)
  unfolding step_at
  step_at-AreSound room k [] h = h
  step_at-AreSound room zero ((c, s) ∷ tasks) (h, hs) = (step_slot-IsSound room c s h, hs)
  step_at-AreSound room (suc k) (t ∷ tasks) (h, hs) = (h, step_at-AreSound room k tasks hs)

  pub coros_of-step_at :
      (room : Bool) (k : ℕ) (tasks : List (Coro T × Slot T))
      → coros_of (step_at settings room k tasks) ≡ coros_of tasks
  unfolding step_at
  coros_of-step_at room k [] = refl
  coros_of-step_at room zero ((c, s) ∷ tasks) = refl
  coros_of-step_at room (suc k) (t ∷ tasks) =
      ap (λ (cs : List (Coro T)). t.0 ∷ cs) (coros_of-step_at room k tasks)
