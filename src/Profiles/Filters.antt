-- ===== src/Profiles/Filters.antt =====
-- What the validators of backend/app/schemas/icp_profile.py accept.
use sales_lead_gen.Base.{◌≡◌, refl, Bool, true, false, none, some}
use sales_lead_gen.Discovery.Score.{IcpProfile}
use sales_lead_gen.Profiles.{
  ProfileUpdate, has_positive, validate_update, updated, provided_filters,
}

-- Whether a row has one of the four positive filters.
abbrev pub is_positive : IcpProfile → Bool
is_positive p = has_positive p.industry_filter p.size_filter p.geo_filter p.tech_filter

-- A profile whose only positive filter is on industries loses it by an update that the validator
-- accepts: one that sets this filter to null and no other.
pub validate_update_clears :
    (u : ProfileUpdate) (p : IcpProfile)
    → u.industry_filter ≡ some none
    → u.size_filter ≡ none
    → u.geo_filter ≡ none
    → u.tech_filter ≡ none
    → has_positive none p.size_filter p.geo_filter p.tech_filter ≡ false
    → (validate_update u ≡ true) × (is_positive (updated u p) ≡ false)
unfolding validate_update provided_filters updated
validate_update_clears u p i s g t only = (rw (i, s, g, t) refl, rw (i, s, g, t) only)
