-- ===== src/Discovery.antt =====
-- backend/app/services/discovery.py: a discovery run, which searches companies by the active profile,
-- drops those that are known and stores the others.
pub mod Score
pub mod Rows
pub mod Ranking
pub mod Counts
pub mod Novelty
use sales_lead_gen.Base.{
  ℕ, zero, suc, ◌+◌, ◌-◌, ◌*◌, ◌/◌, ◌%◌, ◌^◌, ◌≤◌, ◌<◌, min, max, String, ◌≡◌, refl, sym, ap, ◌∙◌,
  subst, ◌≢◌, ◌↔◌, ◌⊎◌, inl, inr, Bool, true, false, not, ◌&&◌, ◌||◌, Option, none, some, List, [],
  ◌∷◌, ◌++◌, map, arith, str_eq, eq_iff, ltb, leb, ◌==◌, if◌then◌else◌, ==_iff, Bool-cases,
  Option-cases, is_some, length, length-append, select, any, find, All,
}
use sales_lead_gen.Texts.{
  Texts, normalize_domain, company_name_similarity, name_similarity_threshold, str_append,
}
use sales_lead_gen.Models.{CompanyStatus, is_archived}
use sales_lead_gen.Discovery.Score.{IcpProfile}
use sales_lead_gen.Discovery.Rows.{BedrijfsdataCompany, NewCompany, new_company}

pub data Failure : Type 0 where
  no_active_profile : Failure
  search_failed : String → Failure
  runtime_limit : Failure

pub record DiscoveryResult : Type 0 where
  pub companies_found : ℕ
  pub companies_added : ℕ
  pub companies_skipped : ℕ
  pub bedrijfsdata_found : ℕ
  pub errors : List Failure

abbrev pub empty_result : DiscoveryResult
empty_result = record {
  companies_found = 0;
  companies_added = 0;
  companies_skipped = 0;
  bedrijfsdata_found = 0;
  errors = [];
}

-- A row of `SELECT domain, name, status FROM companies`.
pub record ExistingCompany : Type 0 where
  pub name : String
  pub domain : String
  pub status : CompanyStatus

pub record Known : Type 0 where
  pub existing_pairs : List (String × String)
  pub existing_names : List String

unfoldable pub load_existing_companies : List ExistingCompany → Known
load_existing_companies [] = record { existing_pairs = []; existing_names = [] }
load_existing_companies (r ∷ rs) =
    let rest = load_existing_companies rs in
    if is_archived r.status then rest else record {
      existing_pairs =
          if str_eq r.domain ""
          then rest.existing_pairs
          else (r.name, r.domain) ∷ rest.existing_pairs;
      existing_names = r.name ∷ rest.existing_names;
    }

abbrev pub has_pair : String → String → List (String × String) → Bool
has_pair name domain = any (λ p. str_eq p.0 name && str_eq p.1 domain)

abbrev pub has_similar : Texts → String → List String → Bool
has_similar texts name =
    any (λ n. leb name_similarity_threshold (company_name_similarity texts name n))

-- `_is_duplicate` of a company with a domain, which the code calls it with.
unfoldable pub is_duplicate : Texts → String → String → Known → Bool
is_duplicate texts name domain known =
    if has_pair name (normalize_domain texts domain) known.existing_pairs
    then true
    else has_similar texts name known.existing_names

unfoldable pub cap_reached : ℕ → DiscoveryResult → Bool
cap_reached max_companies result = ltb 0 max_companies && leb max_companies result.companies_added

abbrev pub max_runtime_seconds : ℕ
max_runtime_seconds = 1800

abbrev pub is_timed_out : ℕ → Bool
is_timed_out elapsed = leb max_runtime_seconds elapsed

-- The run's settings, and what comes from outside: the clock at each round of the loop, in seconds
-- since the start, and whether the nested transaction that inserts a row is committed, given the rows
-- of this run so far.
pub record Env : Type 0 where
  pub texts : Texts
  pub max_companies : ℕ
  pub elapsed : ℕ → ℕ
  pub is_stored : List NewCompany → NewCompany → Bool

abbrev pub with_error : Failure → DiscoveryResult → DiscoveryResult
with_error e r = record r { errors = r.errors ++ (e ∷ []) }

abbrev pub find_one : DiscoveryResult → DiscoveryResult
find_one r = record r { companies_found = suc r.companies_found }

abbrev pub skip_one : DiscoveryResult → DiscoveryResult
skip_one r = record r { companies_skipped = suc r.companies_skipped }

abbrev pub add_one : DiscoveryResult → DiscoveryResult
add_one r = record r { companies_added = suc r.companies_added }

unfoldable pub learn : NewCompany → Known → Known
learn c known = record {
  existing_pairs = (c.name, c.domain) ∷ known.existing_pairs;
  existing_names = known.existing_names ++ (c.name ∷ []);
}

-- What one round of the loop does: end it, skip the company, or store a row.
pub data Round : Type 0 where
  time_out reach_cap skip_company : Round
  store_company fail_company : NewCompany → Round

unfoldable pub examine :
    Env → IcpProfile → List NewCompany → Known → BedrijfsdataCompany → Option String → Round
examine env profile stored known c none = skip_company
examine env profile stored known c (some domain) =
    if str_eq domain ""
    then skip_company
    else if is_duplicate env.texts c.name domain known
    then skip_company
    else if env.is_stored stored (new_company env.texts profile c domain)
    then store_company (new_company env.texts profile c domain)
    else fail_company (new_company env.texts profile c domain)

unfoldable pub round_of :
    Env → IcpProfile → ℕ → List NewCompany → Known → DiscoveryResult → BedrijfsdataCompany → Round
round_of env profile n stored known r c =
    if is_timed_out (env.elapsed n)
    then time_out
    else if cap_reached env.max_companies r
    then reach_cap
    else examine env profile stored known c c.domain

-- `_process_bedrijfsdata_results` from round `n` on: the result, and all rows stored.
unfoldable pub process :
    Env
    → IcpProfile
    → ℕ
    → List NewCompany
    → Known
    → DiscoveryResult
    → List BedrijfsdataCompany
    → DiscoveryResult × List NewCompany
process env profile n stored known r [] = (r, stored)
process env profile n stored known r (c ∷ cs) = elim (round_of env profile n stored known r c) [
  | time_out ↦ (with_error runtime_limit r, stored)
  | reach_cap ↦ (r, stored)
  | skip_company ↦ process env profile (suc n) stored known (skip_one (find_one r)) cs
  | store_company row ↦
      process env profile (suc n) (stored ++ (row ∷ [])) (learn row known) (add_one (find_one r)) cs
  | fail_company _ ↦ process env profile (suc n) stored known (skip_one (find_one r)) cs
]

pub data Search : Type 0 where
  returned : List BedrijfsdataCompany → Search
  raised : String → Search

unfoldable pub with_search : Search → DiscoveryResult → DiscoveryResult × List BedrijfsdataCompany
with_search (returned cs) r = (record r { bedrijfsdata_found = length cs }, cs)
with_search (raised e) r = (with_error (search_failed e) r, [])

-- `run`, with the active profile and what the search does for it.
unfoldable pub run :
    Env
    → Option IcpProfile
    → (IcpProfile → Search)
    → List ExistingCompany
    → DiscoveryResult × List NewCompany
run env none search rows = (with_error no_active_profile empty_result, [])
run env (some profile) search rows =
    let (r, cs) = with_search (search profile) empty_result in
    process env profile 0 [] (load_existing_companies rows) r cs
