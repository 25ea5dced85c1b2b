-- ===== src/Profiles.antt =====
-- The ideal-customer profiles: backend/app/services/icp_profile.py, and the validators of
-- backend/app/schemas/icp_profile.py. A revenue is in whole euros.
pub mod Handlers
pub mod Active
pub mod Filters
use sales_lead_gen.Base.{
  ℕ, zero, suc, ◌+◌, ◌-◌, ◌*◌, ◌/◌, ◌%◌, ◌^◌, ◌≤◌, ◌<◌, min, max, String, ◌≡◌, refl, sym, ap, ◌∙◌,
  subst, ◌≢◌, ◌↔◌, ◌⊎◌, inl, inr, Bool, true, false, not, ◌&&◌, ◌||◌, Option, none, some, List, [],
  ◌∷◌, ◌++◌, map, arith, str_eq, eq_iff, ltb, leb, ◌==◌, if◌then◌else◌, ==_iff, Bool-cases,
  Option-cases, is_some, length, length-append, select, any, find, All,
}
use sales_lead_gen.Discovery.Score.{IcpProfile, SizeFilter, GeoFilter, NegativeFilters}

-- `ICPProfileCreate`
pub record ProfileCreate : Type 0 where
  pub name : String
  pub industry_filter : Option (List String)
  pub size_filter : Option SizeFilter
  pub geo_filter : Option GeoFilter
  pub tech_filter : Option (List String)
  pub negative_filters : Option NegativeFilters

-- `ICPProfileUpdate`: a field that is not set is `none`, a filter set to null is `some none`.
pub record ProfileUpdate : Type 0 where
  pub name : Option String
  pub industry_filter : Option (Option (List String))
  pub size_filter : Option (Option SizeFilter)
  pub geo_filter : Option (Option GeoFilter)
  pub tech_filter : Option (Option (List String))
  pub negative_filters : Option (Option NegativeFilters)

abbrev pub is_filled : List String → Bool
is_filled [] = false
is_filled (x ∷ xs) = true

abbrev pub has_texts : Option (List String) → Bool
has_texts none = false
has_texts (some xs) = is_filled xs

abbrev pub has_size : Option SizeFilter → Bool
has_size none = false
has_size (some f) =
    is_some f.min_employees
    || (is_some f.max_employees || (is_some f.min_revenue || is_some f.max_revenue))

abbrev pub has_geo : Option GeoFilter → Bool
has_geo none = false
has_geo (some f) = is_filled f.countries || (is_filled f.regions || is_filled f.cities)

-- Whether one of the four positive filters is there: `require_at_least_one_positive_filter`.
unfoldable pub has_positive :
    Option (List String) → Option SizeFilter → Option GeoFilter → Option (List String) → Bool
has_positive industry size geo tech =
    has_texts industry || (has_size size || (has_geo geo || has_texts tech))

unfoldable pub validate_create : ProfileCreate → Bool
validate_create data' =
    has_positive data'.industry_filter data'.size_filter data'.geo_filter data'.tech_filter

-- A positive filter of an update: not set, set and empty, or set and filled.
pub data Provided : Type 0 where
  unset empty filled : Provided

abbrev pub provided : {A : Type 0} → (A → Bool) → Option A → Provided
provided has none = unset
provided has (some v) = if has v then filled else empty

abbrev pub is_set : Provided → Bool
is_set unset = false
is_set empty = true
is_set filled = true

abbrev pub is_filled_filter : Provided → Bool
is_filled_filter unset = false
is_filled_filter empty = false
is_filled_filter filled = true

unfoldable pub provided_filters : ProfileUpdate → List Provided
provided_filters u =
    provided has_texts u.industry_filter
    ∷ provided has_size u.size_filter
    ∷ provided has_geo u.geo_filter
    ∷ provided has_texts u.tech_filter
    ∷ []

-- `require_at_least_one_positive_filter_if_clearing`
unfoldable pub validate_update : ProfileUpdate → Bool
validate_update u =
    let fields = provided_filters u in
    let all_provided_empty = not (any is_filled_filter fields) in
    let set_fields = select is_set fields in
    if length set_fields == 0
    then true
    else if all_provided_empty && (length set_fields == 4)
    then false
    else true

-- The table, with the identifier that its sequence gives next.
pub record Profiles : Type 0 where
  pub next_id : ℕ
  pub rows : List IcpProfile

unfoldable pub get_profile : ℕ → List IcpProfile → Option IcpProfile
get_profile i [] = none
get_profile i (r ∷ rs) = let rest = get_profile i rs in if r.id == i then some r else rest

unfoldable pub create_profile : ProfileCreate → Profiles → Profiles
create_profile data' t = record {
  next_id = suc t.next_id;
  rows =
      record {
        id = t.next_id;
        name = data'.name;
        industry_filter = data'.industry_filter;
        size_filter = data'.size_filter;
        geo_filter = data'.geo_filter;
        tech_filter = data'.tech_filter;
        negative_filters = data'.negative_filters;
        is_active = false;
      }
      ∷ t.rows;
}

abbrev pub set_or_keep : {A : Type 0} → Option A → A → A
set_or_keep none old = old
set_or_keep (some new) old = new

unfoldable pub updated : ProfileUpdate → IcpProfile → IcpProfile
updated u p = record p {
  name = set_or_keep u.name p.name;
  industry_filter = set_or_keep u.industry_filter p.industry_filter;
  size_filter = set_or_keep u.size_filter p.size_filter;
  geo_filter = set_or_keep u.geo_filter p.geo_filter;
  tech_filter = set_or_keep u.tech_filter p.tech_filter;
  negative_filters = set_or_keep u.negative_filters p.negative_filters;
}

-- `UPDATE icp_profiles SET … WHERE id = i`
unfoldable pub update_where : ℕ → (IcpProfile → IcpProfile) → List IcpProfile → List IcpProfile
update_where i f [] = []
update_where i f (r ∷ rs) = (if r.id == i then f r else r) ∷ update_where i f rs

unfoldable pub set_active : Bool → IcpProfile → IcpProfile
set_active b p = record p { is_active = b }

unfoldable pub update_profile : ℕ → ProfileUpdate → Profiles → Profiles
update_profile i u t = record t { rows = update_where i (updated u) t.rows }

unfoldable pub deactivate_all : List IcpProfile → List IcpProfile
deactivate_all [] = []
deactivate_all (r ∷ rs) = set_active false r ∷ deactivate_all rs

unfoldable pub activate_profile : ℕ → Profiles → Profiles
activate_profile i t = record t { rows = update_where i (set_active true) (deactivate_all t.rows) }

unfoldable pub deactivate_profile : ℕ → Profiles → Profiles
deactivate_profile i t = record t { rows = update_where i (set_active false) t.rows }

unfoldable pub delete_profile : ℕ → Profiles → Profiles
delete_profile i t = record t { rows = select (λ (p : IcpProfile). not (p.id == i)) t.rows }

-- `scalar_one_or_none()`, which raises `MultipleResultsFound`.
pub data OneOrNone : Type 0 where
  no_row multiple_results : OneOrNone
  one_row : IcpProfile → OneOrNone

abbrev pub scalar_one_or_none : List IcpProfile → OneOrNone
scalar_one_or_none [] = no_row
scalar_one_or_none (p ∷ []) = one_row p
scalar_one_or_none (p ∷ q ∷ ps) = multiple_results

unfoldable pub get_active_icp : Profiles → OneOrNone
get_active_icp t = scalar_one_or_none (select (λ (p : IcpProfile). p.is_active) t.rows)
