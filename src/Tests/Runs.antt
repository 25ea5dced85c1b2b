-- ===== src/Tests/Runs.antt =====
-- Discovery runs and profiles at concrete inputs.
use sales_lead_gen.Base.{
  ◌+◌, ◌≤◌, ◌<◌, String, ◌≡◌, refl, ◌≢◌, true, false, none, some, List, [], ◌∷◌, str_eq,
  if◌then◌else◌, length,
}
use sales_lead_gen.Models.{CompanyStatus}
use sales_lead_gen.Texts.{Texts}
use sales_lead_gen.Discovery.{Env, ExistingCompany, Search, returned, run, load_existing_companies}
use sales_lead_gen.Discovery.Rows.{BedrijfsdataCompany}
use sales_lead_gen.Discovery.Score.{IcpProfile, Facts}
use sales_lead_gen.Discovery.Counts.{run_counts}
use sales_lead_gen.Discovery.Novelty.{AllNew, run-AllNew}
use sales_lead_gen.Profiles.{
  ProfileCreate, ProfileUpdate, validate_update, updated, get_active_icp, multiple_results,
  has_positive,
}
use sales_lead_gen.Profiles.Filters.{is_positive, validate_update_clears}
use sales_lead_gen.Profiles.Active.{no_profiles, get_active_icp_single}
use sales_lead_gen.Profiles.Handlers.{create, activate, handle_all}

-- Texts without capitals, blanks, paths and prefixes.
abbrev pub plain : Texts
plain = record {
  lower = λ t. t;
  strip = λ t. t;
  is_in = λ part t. str_eq part t;
  before_slash = λ t. t;
  starts_with = λ part t. false;
  drop = λ n t. t;
  rstrip = λ part t. t;
  hostname = λ t. some t;
  token_sort_ratio = λ a b. if str_eq a b then 100 else 20;
  decimal = λ n. "50";
  join = λ separator ts. "utrecht";
}

abbrev pub profile : IcpProfile
profile = record {
  id = 1;
  name = "Logistics";
  industry_filter = some ("logistics" ∷ []);
  size_filter = none;
  geo_filter = none;
  tech_filter = none;
  negative_filters = none;
  is_active = true;
}

abbrev facts : Facts
facts = record { industry = some "logistics"; employees = none; location = none; techs = none }

abbrev company : String → String → BedrijfsdataCompany
company name domain = record {
  id = some 4;
  coc = none;
  name = name;
  domain = some domain;
  city = some "utrecht";
  province = none;
  employees = some 50;
  sbi_codes = [];
  industry_labels = "logistics" ∷ [];
  apps = [];
  latitude = none;
  longitude = none;
}

abbrev env : Env
env = record { texts = plain; max_companies = 2; elapsed = λ n. n; is_stored = λ rows row. true }

abbrev search_result : IcpProfile → Search
search_result p = returned (
    company "Acme" "acme.nl"
    ∷ company "Acme" "acme.com"
    ∷ company "Bolt" "bolt.nl"
    ∷ company "Cargo" "cargo.nl"
    ∷ [])

abbrev existing : List ExistingCompany
existing = record { name = "Dock"; domain = "dock.nl"; status = CompanyStatus.enriched } ∷ []

run_counts_example :
    (let (r, stored) = run env (some profile) search_result existing in
      (r.companies_found ≡ r.companies_added + r.companies_skipped)
      × (r.companies_added ≡ length stored)
      × (r.companies_found ≤ r.bedrijfsdata_found)
      × ((0 < 2) → length stored ≤ 2))
run_counts_example = run_counts env (some profile) search_result existing

run-AllNew_example :
    AllNew plain
      (("Dock", "dock.nl") ∷ [])
      ("Dock" ∷ [])
      (run env (some profile) search_result existing).1
unfolding load_existing_companies
run-AllNew_example = run-AllNew env (some profile) search_result existing

abbrev clearing : ProfileUpdate
clearing = record {
  name = none;
  industry_filter = some none;
  size_filter = none;
  geo_filter = none;
  tech_filter = none;
  negative_filters = none;
}

validate_update_clears_example :
    (validate_update clearing ≡ true) × (is_positive (updated clearing profile) ≡ false)
unfolding has_positive
validate_update_clears_example = validate_update_clears clearing profile refl refl refl refl refl

abbrev logistics : ProfileCreate
logistics = record {
  name = "Logistics";
  industry_filter = some ("logistics" ∷ []);
  size_filter = none;
  geo_filter = none;
  tech_filter = none;
  negative_filters = none;
}

get_active_icp_single_example :
    get_active_icp
      (handle_all (create logistics ∷ create logistics ∷ activate 1 ∷ activate 2 ∷ []) no_profiles)
    ≢ multiple_results
get_active_icp_single_example =
    get_active_icp_single (create logistics ∷ create logistics ∷ activate 1 ∷ activate 2 ∷ [])
