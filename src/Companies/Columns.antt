-- ===== src/Companies/Columns.antt =====
-- The columns of an import: backend/app/api/v1/companies.py.
use sales_lead_gen.Base.{
  ℕ, zero, suc, String, Bool, Option, none, some, List, [], ◌∷◌, str_eq, if◌then◌else◌, is_some,
}
use sales_lead_gen.Texts.{Texts}

-- A row of the sheet: a cell is what `str` makes of its value, without `.0` at the end of a number.
abbrev pub Cells : Type 0
Cells = List (Option String)

abbrev pub column_names : List (String × String)
column_names =
    ("bedrijfsnaam", "name")
    ∷ ("domein", "domain")
    ∷ ("kvk", "kvk_number")
    ∷ ("adres", "address")
    ∷ ("postcode", "postal_code")
    ∷ ("plaats", "city")
    ∷ ("provincie", "province")
    ∷ ("land", "country")
    ∷ ("telefoon", "phone")
    ∷ ("telefoon_volledig", "phone")
    ∷ ("website", "website_url")
    ∷ ("emailadres", "email")
    ∷ ("oprichtingsjaar", "founded_year")
    ∷ ("medewerkers", "employee_count")
    ∷ ("medewerkers_range", "size")
    ∷ ("branches_kvk", "industry")
    ∷ ("linkedin_link", "linkedin_url")
    ∷ ("facebook_link", "facebook_url")
    ∷ ("twitter_link", "twitter_url")
    ∷ ("organisatietype", "organization_type")
    ∷ ("bedrijfsdata_id", "_bd.bedrijfsdata_id")
    ∷ ("gemeente", "_bd.gemeente")
    ∷ ("vestigingstype", "_bd.vestigingstype")
    ∷ ("btwnummer", "_bd.btwnummer")
    ∷ ("sbi_codes", "_bd.sbi_codes")
    ∷ ("coordinaten", "_bd.coordinaten")
    ∷ ("cms", "_bd.cms")
    ∷ ("website_analytics", "_bd.website_analytics")
    ∷ ("cdn", "_bd.cdn")
    ∷ ("advertentienetwerken", "_bd.advertentienetwerken")
    ∷ ("caching_server", "_bd.caching_server")
    ∷ ("webshop", "_bd.webshop")
    ∷ ("emailprovider", "_bd.emailprovider")
    ∷ ("apps", "_bd.apps")
    ∷ ("bedrijfsprofiel", "_bd.bedrijfsprofiel")
    ∷ ("youtube_link", "_bd.youtube_link")
    ∷ ("instagram_link", "_bd.instagram_link")
    ∷ ("pinterest_link", "_bd.pinterest_link")
    ∷ []

unfoldable pub renamed : List (String × String) → String → String
renamed [] h = h
renamed ((dutch, name) ∷ rest) h = if str_eq dutch h then name else renamed rest h

abbrev pub header_of : Texts → Option String → String
header_of texts none = ""
header_of texts (some cell) = texts.lower (texts.strip cell)

-- The columns from an index on; a later one of the same name is found first.
unfoldable pub columns_from : Texts → ℕ → Cells → List (String × ℕ) → List (String × ℕ)
columns_from texts n [] columns = columns
columns_from texts n (cell ∷ cells) columns =
    columns_from texts (suc n) cells ((renamed column_names (header_of texts cell), n) ∷ columns)

unfoldable pub col_map : Texts → Cells → List (String × ℕ)
col_map texts header = columns_from texts 0 header []

unfoldable pub column_index : String → List (String × ℕ) → Option ℕ
column_index key [] = none
column_index key ((name, n) ∷ rest) = if str_eq name key then some n else column_index key rest

abbrev pub has_column : String → List (String × ℕ) → Bool
has_column key columns = is_some (column_index key columns)

abbrev pub cell_at : ℕ → Cells → Option String
cell_at n [] = none
cell_at zero (cell ∷ cells) = cell
cell_at (suc n) (cell ∷ cells) = cell_at n cells

unfoldable pub cell_str : Texts → List (String × ℕ) → Cells → String → Option String
cell_str texts columns row key = elim (column_index key columns) [
  | none ↦ none
  | some n ↦ elim (cell_at n row) [
    | none ↦ none
    | some cell ↦ let text = texts.strip cell in if str_eq text "" then none else some text
  ]
]
