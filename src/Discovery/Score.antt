-- ===== src/Discovery/Score.antt =====
-- `calculate_icp_score` of backend/app/services/discovery.py, and the filters of a profile that it
-- reads. A score is in tenths of a point, to which the code rounds.
use sales_lead_gen.Base.{
  ℕ, zero, suc, ◌+◌, ◌*◌, ◌/◌, String, Bool, true, false, ◌&&◌, ◌||◌, Option, none, some, List, [],
  ◌∷◌, ◌++◌, map, str_eq, leb, if◌then◌else◌, is_some, any,
}
use sales_lead_gen.Texts.{Texts}

pub record SizeFilter : Type 0 where
  pub min_employees : Option ℕ
  pub max_employees : Option ℕ
  pub min_revenue : Option ℕ
  pub max_revenue : Option ℕ

pub record GeoFilter : Type 0 where
  pub countries : List String
  pub regions : List String
  pub cities : List String

pub record NegativeFilters : Type 0 where
  pub excluded_industries : List String
  pub excluded_domains : List String

pub record IcpProfile : Type 0 where
  pub id : ℕ
  pub name : String
  pub industry_filter : Option (List String)
  pub size_filter : Option SizeFilter
  pub geo_filter : Option GeoFilter
  pub tech_filter : Option (List String)
  pub negative_filters : Option NegativeFilters
  pub is_active : Bool

-- What the score is computed from, besides the profile.
pub record Facts : Type 0 where
  pub industry : Option String
  pub employees : Option ℕ
  pub location : Option String
  pub techs : Option (List String)

-- A criterion does not count, counts and fails, or counts and matches.
pub data Criterion : Type 0 where
  absent failed matched : Criterion

abbrev pub criterion : Bool → Criterion
criterion true = matched
criterion false = failed

-- The texts of a list that may be missing: an empty list is a missing one.
abbrev pub or_empty : Option (List String) → List String
or_empty none = []
or_empty (some xs) = xs

-- A truthy text passes a test.
abbrev pub text_passes : (String → Bool) → Option String → Bool
text_passes p none = false
text_passes p (some t) = if str_eq t "" then false else p t

unfoldable pub industry_criterion : Texts → List String → Option String → Criterion
industry_criterion texts [] industry = absent
industry_criterion texts (i ∷ is) industry = criterion (
    text_passes
      (λ t.
        any
          (λ ind.
            texts.is_in (texts.lower ind) (texts.lower t)
            || texts.is_in (texts.lower t) (texts.lower ind))
          (i ∷ is))
      industry)

abbrev pub at_least : Option ℕ → ℕ → Bool
at_least none n = true
at_least (some low) n = leb low n

abbrev pub at_most : Option ℕ → ℕ → Bool
at_most none n = true
at_most (some high) n = leb n high

abbrev pub within : SizeFilter → Option ℕ → Bool
within size none = false
within size (some n) = at_least size.min_employees n && at_most size.max_employees n

unfoldable pub size_criterion : Option SizeFilter → Option ℕ → Criterion
size_criterion none employees = absent
size_criterion (some size) employees =
    if is_some size.min_employees || is_some size.max_employees
    then criterion (within size employees)
    else absent

unfoldable pub location_criterion : Texts → List String → Option String → Criterion
location_criterion texts [] location = absent
location_criterion texts (l ∷ ls) location =
    criterion (text_passes (λ t. any (λ loc. texts.is_in loc (texts.lower t)) (l ∷ ls)) location)

abbrev pub all_locations : Texts → Option GeoFilter → List String
all_locations texts none = []
all_locations texts (some geo) =
    map texts.lower geo.countries ++ (map texts.lower geo.regions ++ map texts.lower geo.cities)

unfoldable pub tech_criterion : Texts → List String → List String → Criterion
tech_criterion texts [] techs = absent
tech_criterion texts (tf ∷ tfs) techs =
    criterion (any (λ f. any (λ t. str_eq (texts.lower t) (texts.lower f)) techs) (tf ∷ tfs))

unfoldable pub criteria : Texts → IcpProfile → Facts → List Criterion
criteria texts profile facts =
    industry_criterion texts (or_empty profile.industry_filter) facts.industry
    ∷ size_criterion profile.size_filter facts.employees
    ∷ location_criterion texts (all_locations texts profile.geo_filter) facts.location
    ∷ tech_criterion texts (or_empty profile.tech_filter) (or_empty facts.techs)
    ∷ []

abbrev pub counts : Criterion → ℕ
counts absent = 0
counts failed = 1
counts matched = 1

abbrev pub matches : Criterion → ℕ
matches absent = 0
matches failed = 0
matches matched = 1

unfoldable pub total_criteria : List Criterion → ℕ
total_criteria [] = 0
total_criteria (c ∷ cs) = counts c + total_criteria cs

unfoldable pub matching_criteria : List Criterion → ℕ
matching_criteria [] = 0
matching_criteria (c ∷ cs) = matches c + matching_criteria cs

-- `round(matching / total * 100, 1)` in tenths. With four criteria at most, no quotient lies half
-- way between two tenths.
unfoldable pub percentage : ℕ → ℕ → ℕ
percentage matching zero = 500
percentage matching (suc total) = (2000 * matching + suc total) / (2 * suc total)

unfoldable pub calculate_icp_score : Texts → IcpProfile → Facts → ℕ
calculate_icp_score texts profile facts =
    let cs = criteria texts profile facts in percentage (matching_criteria cs) (total_criteria cs)
