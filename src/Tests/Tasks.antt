-- ===== src/Tests/Tasks.antt =====
-- Parallel calls at concrete inputs.
use sales_lead_gen.Base.{
  ℕ, ◌≤◌, ◌≡◌, refl, ◌⊎◌, List, [], ◌∷◌, ◌++◌, arith, ltb, if◌then◌else◌, length,
}
use sales_lead_gen.Concurrency.{
  done, rate_limited, failed, Entry, value, exception, Settings, Coro, holders, pending, returned,
  gather_rate_limited, step_slot, step_at, conclude, collect, settle, step, steps,
}
use sales_lead_gen.Concurrency.Slots.{AreEnds}
use sales_lead_gen.Concurrency.Progress.{gather_rate_limited_isolates}

-- A factory that is limited twice and then returns, and one that fails.
abbrev limited_twice : Coro ℕ
limited_twice = record {
  call = λ n. if ltb n 2 then rate_limited "429" else done 7;
  draw = λ _. 300;
}

abbrev broken : Coro ℕ
broken = record { call = λ n. failed "500"; draw = λ _. 300 }

-- One place, and two retries.
abbrev narrow : Settings
narrow = record { max_concurrency = 1; max_rate_retries = 2; rate_retry_base_delay = 1500 }

-- The second task gets the place first and fails, which does not end the gathering.
abbrev order : List ℕ
order = 1 ∷ 0 ∷ 1 ∷ 0 ∷ 0 ∷ 0 ∷ []

still_pending_after_failure :
    (gather_rate_limited narrow (limited_twice ∷ broken ∷ []) order).outcome ≡ pending
unfolding gather_rate_limited steps step step_at step_slot conclude collect settle holders
still_pending_after_failure = refl

returned_in_order :
    (gather_rate_limited narrow (limited_twice ∷ broken ∷ []) (order ++ 0 ∷ [])).outcome
    ≡ returned (value 7 ∷ exception "500" ∷ [])
unfolding gather_rate_limited steps step step_at step_slot conclude collect settle holders
returned_in_order = refl

gather_rate_limited_isolates_example :
    (let coros = limited_twice ∷ broken ∷ [] in
      let g = gather_rate_limited narrow coros order in
      (holders g.tasks ≤ 1)
      × ((g.outcome ≡ pending)
          ⊎ ((es : List (Entry ℕ)) × (g.outcome ≡ returned es) × AreEnds narrow coros es))
      × ((later : List ℕ) × (es : List (Entry ℕ)) × (length later ≤ 10)
          × ((gather_rate_limited narrow coros (order ++ later)).outcome ≡ returned es)))
gather_rate_limited_isolates_example =
    gather_rate_limited_isolates narrow (limited_twice ∷ broken ∷ []) order (omega arith)
