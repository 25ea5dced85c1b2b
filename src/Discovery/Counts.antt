-- ===== src/Discovery/Counts.antt =====
-- What a discovery run counts: backend/app/services/discovery.py.
use sales_lead_gen.Base.{
  ℕ, suc, ◌+◌, ◌≤◌, ◌<◌, String, ◌≡◌, refl, ◌≢◌, Option, none, some, List, [], ◌∷◌, arith, length,
  length-append,
}
use sales_lead_gen.Discovery.Score.{IcpProfile}
use sales_lead_gen.Discovery.{
  DiscoveryResult, Known, Env, Round, time_out, reach_cap, skip_company, store_company,
  fail_company, round_of, examine, process, run, Search, returned, raised, with_search,
  ExistingCompany, cap_reached, empty_result, load_existing_companies, find_one, skip_one, learn,
}
use sales_lead_gen.Discovery.Rows.{BedrijfsdataCompany, NewCompany}

-- The cases of a round, with the equation that each gives.
pub data RoundCase (o : Round) : Type 0 where
  times_out : o ≡ time_out → RoundCase o
  reaches_cap : o ≡ reach_cap → RoundCase o
  skips : o ≡ skip_company → RoundCase o
  stores : (row : NewCompany) → o ≡ store_company row → RoundCase o
  fails : (row : NewCompany) → o ≡ fail_company row → RoundCase o

pub Round-cases : (o : Round) → RoundCase o
Round-cases time_out = times_out refl
Round-cases reach_cap = reaches_cap refl
Round-cases skip_company = skips refl
Round-cases (store_company row) = stores row refl
Round-cases (fail_company row) = fails row refl

examine-goes_on :
    (env : Env) (profile : IcpProfile) (stored : List NewCompany) (known : Known)
    (c : BedrijfsdataCompany) (d : Option String)
    → (examine env profile stored known c d ≢ time_out)
      × (examine env profile stored known c d ≢ reach_cap)
unfolding examine
examine-goes_on env profile stored known c none = ((λ e. cc), λ e. cc)
examine-goes_on env profile stored known c (some d) = (ground arith, ground arith)

-- What holds of the counters and the rows stored when a loop is under way, `left` companies before
-- its end.
record IsSound (max_companies left : ℕ) (r : DiscoveryResult) (stored : List NewCompany)
    : Type 0 where
  sums : r.companies_found ≡ r.companies_added + r.companies_skipped
  rows : r.companies_added ≡ length stored
  cap : (0 < max_companies) → r.companies_added ≤ max_companies
  seen : r.companies_found + left ≤ r.bedrijfsdata_found

module _ {max_companies : ℕ} {r : DiscoveryResult} {stored : List NewCompany} {left : ℕ} where
  skipped_row :
      IsSound max_companies (suc left) r stored
      → IsSound max_companies left (skip_one (find_one r)) stored
  skipped_row s = record {
    sums = omega (arith, s.sums);
    rows = s.rows;
    cap = s.cap;
    seen = omega (arith, s.seen);
  }

round_of-below_cap :
    (env : Env) (profile : IcpProfile) (n : ℕ) (stored : List NewCompany) (known : Known)
    (r : DiscoveryResult) (c : BedrijfsdataCompany) (row : NewCompany)
    → round_of env profile n stored known r c ≡ store_company row
    → (0 < env.max_companies)
    → r.companies_added < env.max_companies
unfolding round_of cap_reached
round_of-below_cap env profile n stored known r c row h pos = ground arith

process-IsSound :
    (env : Env) (profile : IcpProfile) (n : ℕ) (stored : List NewCompany) (known : Known)
    (r : DiscoveryResult) (cs : List BedrijfsdataCompany)
    → IsSound env.max_companies (length cs) r stored
    → (let (r', stored') = process env profile n stored known r cs in
        IsSound env.max_companies 0 r' stored')
unfolding process
process-IsSound env profile n stored known r [] s = s
process-IsSound env profile n stored known r (c ∷ cs) s =
    elim (Round-cases (round_of env profile n stored known r c)) [
      | times_out e ↦
          rw (e, process)
            record { sums = s.sums; rows = s.rows; cap = s.cap; seen = omega (arith, s.seen) }
      | reaches_cap e ↦
          rw (e, process)
            record { sums = s.sums; rows = s.rows; cap = s.cap; seen = omega (arith, s.seen) }
      | skips e ↦
          rw (e, process) (process-IsSound env profile (suc n) stored known _ cs (skipped_row s))
      | stores row e ↦
          rw (e, process)
            (process-IsSound env profile (suc n) _ (learn row known) _ cs record {
              sums = omega (arith, s.sums);
              rows = omega (arith, s.rows, length-append stored (row ∷ []));
              cap = λ pos.
                  ground (arith, round_of-below_cap env profile n stored known r c row e pos);
              seen = omega (arith, s.seen);
            })
      | fails row e ↦
          rw (e, process) (process-IsSound env profile (suc n) stored known _ cs (skipped_row s))
    ]

start-IsSound :
    (max_companies : ℕ) (found : Search)
    → (let (r, cs) = with_search found empty_result in IsSound max_companies (length cs) r [])
unfolding with_search
start-IsSound max_companies (returned cs) = record {
  sums = refl;
  rows = refl;
  cap = λ _. omega arith;
  seen = omega arith;
}
start-IsSound max_companies (raised e) = record {
  sums = refl;
  rows = refl;
  cap = λ _. omega arith;
  seen = omega arith;
}

-- The counters of a run add up: each company found was added or skipped, each one added is a row
-- stored, and no more are found than the search returned; the rows stored do not exceed the cap of
-- the run, if it has one.
pub run_counts :
    (env : Env) (profile : Option IcpProfile) (search : IcpProfile → Search)
    (rows : List ExistingCompany)
    → (let (r, stored) = run env profile search rows in
        (r.companies_found ≡ r.companies_added + r.companies_skipped)
        × (r.companies_added ≡ length stored)
        × (r.companies_found ≤ r.bedrijfsdata_found)
        × ((0 < env.max_companies) → length stored ≤ env.max_companies))
unfolding run
run_counts env none search rows = (refl, refl, omega arith, λ _. omega arith)
run_counts env (some profile) search rows =
    let sound =
      process-IsSound env profile 0 [] (load_existing_companies rows) _ _
        (start-IsSound env.max_companies (search profile)) in
    (
      sound.sums,
      sound.rows,
      omega (arith, sound.seen),
      λ pos. omega (arith, sound.rows, sound.cap pos),
    )
