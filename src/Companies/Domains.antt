-- ===== src/Companies/Domains.antt =====
-- `validate_public_domain` of backend/app/services/deduplication.py.
use sales_lead_gen.Base.{
  String, Bool, not, ◌||◌, Option, none, some, List, [], ◌∷◌, str_eq, if◌then◌else◌,
}
use sales_lead_gen.Texts.{Texts, normalize_domain}
use sales_lead_gen.Dedup.Rows.{contains}

-- The text operations, and what the libraries `ipaddress` and `re` say of a text.
pub record DomainTexts : Type 0 where
  pub texts : Texts
  -- `s.endswith(suffix)` with the suffix first
  pub ends_with : String → String → Bool
  -- Whether `ip_address(s)` returns, and whether `_DOMAIN_RE.match(s)` finds a match
  pub is_ip_address : String → Bool
  pub matches_domain : String → Bool

pub data DomainError : Type 0 where
  empty_domain ip_address internal_domain invalid_format : DomainError

abbrev pub blocked : List String
blocked = "localhost" ∷ "127.0.0.1" ∷ "0.0.0.0" ∷ "metadata.google.internal" ∷ []

abbrev pub is_internal : DomainTexts → String → Bool
is_internal d t = contains t blocked || (d.ends_with ".local" t || d.ends_with ".internal" t)

unfoldable pub validate_public_domain : DomainTexts → String → Option DomainError
validate_public_domain d domain =
    let normalized = normalize_domain d.texts domain in
    if str_eq normalized ""
    then some empty_domain
    else if d.is_ip_address normalized
    then some ip_address
    else if is_internal d normalized
    then some internal_domain
    else if not (d.matches_domain normalized)
    then some invalid_format
    else none
