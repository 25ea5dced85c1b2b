-- ===== src/Discovery/Rows.antt =====
-- The row that a search result gives: `_process_bedrijfsdata_results` of
-- backend/app/services/discovery.py, from the location string to the `Company`.
use sales_lead_gen.Base.{
  ℕ, String, Bool, Option, none, some, List, [], ◌∷◌, ◌++◌, str_eq, leb, ◌==◌, if◌then◌else◌,
}
use sales_lead_gen.Texts.{Texts, normalize_domain, str_append}
use sales_lead_gen.Models.{CompanyStatus}
use sales_lead_gen.Discovery.Score.{IcpProfile, Facts, calculate_icp_score}

-- A company as the search returns it; a coordinate is its decimal text. Columns that are only copied
-- into the new row (address, telephone and the like) are left out.
pub record BedrijfsdataCompany : Type 0 where
  pub id : Option ℕ
  pub coc : Option String
  pub name : String
  pub domain : Option String
  pub city : Option String
  pub province : Option String
  pub employees : Option ℕ
  pub sbi_codes : List String
  pub industry_labels : List String
  pub apps : List String
  pub latitude : Option String
  pub longitude : Option String

-- The columns of a new row that are computed; all others are copied from the search result.
pub record NewCompany : Type 0 where
  pub name : String
  pub domain : String
  pub industry : Option String
  pub size : Option String
  pub location : Option String
  pub status : CompanyStatus
  pub icp_score : ℕ
  pub monitor : Bool
  pub website_url : String
  pub bedrijfsdata : List (String × String)
  pub source : BedrijfsdataCompany

-- The texts of a list that are there and not empty.
unfoldable pub truthy : List (Option String) → List String
truthy [] = []
truthy (none ∷ ts) = truthy ts
truthy (some t ∷ ts) = let rest = truthy ts in if str_eq t "" then rest else t ∷ rest

abbrev pub join_parts : Texts → List String → Option String
join_parts texts [] = none
join_parts texts (p ∷ ps) = some (texts.join ", " (p ∷ ps))

abbrev pub head_of : List String → Option String
head_of [] = none
head_of (x ∷ xs) = some x

abbrev pub truthy_list : List String → Option (List String)
truthy_list [] = none
truthy_list (x ∷ xs) = some (x ∷ xs)

abbrev pub size_text : Texts → Option ℕ → Option String
size_text texts none = none
size_text texts (some n) = if n == 0 then none else some (str_append (texts.decimal n) " employees")

abbrev pub joined_entry : Texts → String → List String → List (String × String)
joined_entry texts key [] = []
joined_entry texts key (x ∷ xs) = (key, texts.join "," (x ∷ xs)) ∷ []

abbrev pub id_entry : Texts → Option ℕ → List (String × String)
id_entry texts none = []
id_entry texts (some n) = ("bedrijfsdata_id", texts.decimal n) ∷ []

abbrev pub coordinates_entry : Option String → Option String → List (String × String)
coordinates_entry (some lat) (some lon) = ("coordinaten", str_append lat (str_append "," lon)) ∷ []
coordinates_entry _ _ = []

unfoldable pub meta_of : Texts → BedrijfsdataCompany → List (String × String)
meta_of texts c =
    id_entry texts c.id
    ++ (joined_entry texts "sbi_codes" c.sbi_codes
        ++ (joined_entry texts "apps" c.apps ++ coordinates_entry c.latitude c.longitude))

unfoldable pub facts_of : Texts → BedrijfsdataCompany → Facts
facts_of texts c = record {
  industry = head_of c.industry_labels;
  employees = c.employees;
  location = join_parts texts (truthy (c.city ∷ c.province ∷ []));
  techs = truthy_list c.apps;
}

unfoldable pub new_company : Texts → IcpProfile → BedrijfsdataCompany → String → NewCompany
new_company texts profile c domain =
    let facts = facts_of texts c in
    let icp_score = calculate_icp_score texts profile facts in
    record {
      name = c.name;
      domain = normalize_domain texts domain;
      industry = facts.industry;
      size = size_text texts c.employees;
      location = facts.location;
      status = CompanyStatus.discovered;
      icp_score = icp_score;
      monitor = leb 850 icp_score;
      website_url = str_append "https://" domain;
      bedrijfsdata = meta_of texts c;
      source = c;
    }
