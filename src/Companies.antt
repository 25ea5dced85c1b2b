-- ===== src/Companies.antt =====
-- The handlers of backend/app/api/v1/companies.py that change the table of companies, with the columns
-- that they check.
pub mod Domains
pub mod Columns
pub mod Public
pub mod Imports
pub mod Repeat
use sales_lead_gen.Base.{
  ℕ, zero, suc, ◌+◌, ◌-◌, ◌*◌, ◌/◌, ◌%◌, ◌^◌, ◌≤◌, ◌<◌, min, max, String, ◌≡◌, refl, sym, ap, ◌∙◌,
  subst, ◌≢◌, ◌↔◌, ◌⊎◌, inl, inr, Bool, true, false, not, ◌&&◌, ◌||◌, Option, none, some, List, [],
  ◌∷◌, ◌++◌, map, arith, str_eq, eq_iff, ltb, leb, ◌==◌, if◌then◌else◌, ==_iff, Bool-cases,
  Option-cases, is_some, length, length-append, select, any, find, All, All-append,
}
use sales_lead_gen.Models.{CompanyStatus, is_archived}
use sales_lead_gen.Texts.{normalize_domain, or_text}
use sales_lead_gen.Companies.Domains.{DomainTexts, DomainError, validate_public_domain}
use sales_lead_gen.Companies.Columns.{Cells, col_map, has_column, cell_str}

pub record CompanyRow : Type 0 where
  pub id : ℕ
  pub name : String
  pub domain : String
  pub status : CompanyStatus
  pub monitor : Bool
  pub monitor_pinned : Bool

pub record Table : Type 0 where
  pub rows : List CompanyRow
  pub next_id : ℕ

-- What lies outside: the texts, and whether the database takes the values of a row, apart from its keys.
pub record Env : Type 0 where
  pub domains : DomainTexts
  pub accepts : String → String → Bool

pub data HttpError : Type 0 where
  unprocessable : DomainError → HttpError
  conflict not_found internal_error : HttpError

pub data Response (A : Type 0) : Type 0 where
  ok : A → Response A
  error : HttpError → Response A

-- The unique index on names and domains.
unfoldable pub has_pair : String → String → List CompanyRow → Bool
has_pair name domain [] = false
has_pair name domain (r ∷ rs) =
    (str_eq r.name name && str_eq r.domain domain) || has_pair name domain rs

-- The row of an import.
abbrev pub new_row : String → String → CompanyRow
new_row name domain = record {
  id = 0;
  name = name;
  domain = domain;
  status = CompanyStatus.discovered;
  monitor = false;
  monitor_pinned = false;
}

-- An insert takes the next id, whether or not it is accepted.
unfoldable pub insert_company : Env → CompanyRow → Table → Option CompanyRow × Table
insert_company env row t =
    let c = record row { id = t.next_id } in
    if env.accepts row.name row.domain && not (has_pair row.name row.domain t.rows)
    then (some c, record { rows = c ∷ t.rows; next_id = suc t.next_id })
    else (none, record t { next_id = suc t.next_id })

pub record CompanyCreate : Type 0 where
  pub name : String
  pub domain : String
  pub monitor : Bool
  pub monitor_pinned : Bool
  pub status : CompanyStatus

abbrev pub row_of : CompanyCreate → String → CompanyRow
row_of body domain = record {
  id = 0;
  name = body.name;
  domain = domain;
  status = body.status;
  monitor = body.monitor;
  monitor_pinned = body.monitor_pinned;
}

abbrev pub created : Option CompanyRow × Table → Response CompanyRow × Table
created (some row, t) = (ok row, t)
created (none, t) = (error conflict, t)

-- `create_company`, with the rows at its check, and the table at its commit, when others may have
-- changed it.
unfoldable pub create_company :
    Env → CompanyCreate → List CompanyRow → Table → Response CompanyRow × Table
create_company env body seen t =
    let normalized = normalize_domain env.domains.texts body.domain in
    elim (validate_public_domain env.domains body.domain) [
      | some e ↦ (error (unprocessable e), t)
      | none ↦
          if has_pair body.name normalized seen
          then (error conflict, t)
          else created (insert_company env (row_of body normalized) t)
    ]

-- A field of an update: absent, null, or a value.
pub data Field (A : Type 0) : Type 0 where
  unset null : Field A
  set : A → Field A

pub record CompanyUpdate : Type 0 where
  pub name : Field String
  pub domain : Field String
  pub monitor : Field Bool
  pub monitor_pinned : Field Bool
  pub status : Field CompanyStatus

-- What becomes of a column that may not be null.
abbrev pub or_old : {A : Type 0} → A → Field A → Option A
or_old old unset = some old
or_old old null = none
or_old old (set new) = some new

-- The domain of an update: its normal form, or a refusal. A null domain has no `strip`.
abbrev pub new_domain : Env → String → Field String → Response String
new_domain env old unset = ok old
new_domain env old null = error internal_error
new_domain env old (set raw) = elim (validate_public_domain env.domains raw) [
  | some e ↦ error (unprocessable e)
  | none ↦ ok (normalize_domain env.domains.texts raw)
]

-- A monitor that is set without a pin is pinned.
abbrev pub new_pin : CompanyUpdate → Field Bool
new_pin u = elim u.monitor_pinned [
  | unset ↦ (elim u.monitor [ unset ↦ unset | _ ↦ set true ])
  | null ↦ null
  | set b ↦ set b
]

unfoldable pub find_row : ℕ → List CompanyRow → Option CompanyRow
find_row i rows = find (λ r. r.id == i) rows

unfoldable pub put_row : CompanyRow → List CompanyRow → List CompanyRow
put_row c [] = []
put_row c (r ∷ rs) = let rest = put_row c rs in if r.id == c.id then c ∷ rest else r ∷ rest

-- The rows of other companies.
abbrev pub others : ℕ → List CompanyRow → List CompanyRow
others i rows = select (λ r. not (r.id == i)) rows

-- The commit of an update: a column that is null, or a pair that another row has, is an integrity error.
unfoldable pub commit_update :
    CompanyRow
    → Option String
    → String
    → Option Bool
    → Option Bool
    → Option CompanyStatus
    → List CompanyRow
    → Option CompanyRow
commit_update c (some name) domain (some monitor) (some pinned) (some status) rows =
    if has_pair name domain (others c.id rows)
    then none
    else some (record c {
      name = name;
      domain = domain;
      monitor = monitor;
      monitor_pinned = pinned;
      status = status;
    })
commit_update c _ domain _ _ _ rows = none

abbrev pub updated : Option CompanyRow → Table → Response CompanyRow × Table
updated none t = (error conflict, t)
updated (some c) t = (ok c, record t { rows = put_row c t.rows })

abbrev pub is_changed : String → String → CompanyRow → Bool
is_changed name domain c = not (str_eq name c.name && str_eq domain c.domain)

-- The name that the check looks for: a null name matches no row.
abbrev pub is_pair_taken : Option String → String → CompanyRow → List CompanyRow → Bool
is_pair_taken none domain c rows = false
is_pair_taken (some name) domain c rows =
    is_changed name domain c && has_pair name domain (others c.id rows)

unfoldable pub update_row :
    Env
    → CompanyUpdate
    → CompanyRow
    → String
    → List CompanyRow
    → Table
    → Response CompanyRow × Table
update_row env u c domain seen t =
    let name = or_old c.name u.name in
    if is_pair_taken name domain c seen
    then (error conflict, t)
    else updated
        (commit_update c name domain (or_old c.monitor u.monitor)
          (or_old c.monitor_pinned (new_pin u)) (or_old c.status u.status) t.rows)
        t

unfoldable pub update_company :
    Env → ℕ → CompanyUpdate → List CompanyRow → Table → Response CompanyRow × Table
update_company env i u seen t = elim (find_row i t.rows) [
  | none ↦ (error not_found, t)
  | some c ↦
      if is_archived c.status
      then (error not_found, t)
      else elim (new_domain env c.domain u.domain) [
        | error e ↦ (error e, t)
        | ok domain ↦ update_row env u c domain seen t
      ]
]

abbrev pub archive : CompanyRow → CompanyRow
archive c = record c { status = CompanyStatus.archived }

unfoldable pub delete_company : ℕ → Table → Response CompanyRow × Table
delete_company i t = elim (find_row i t.rows) [
  | none ↦ (error not_found, t)
  | some c ↦
      if is_archived c.status
      then (error not_found, t)
      else (ok (archive c), record t { rows = put_row (archive c) t.rows })
]

-- The rows that are archived at once, and their number.
unfoldable pub bulk_delete_companies : List ℕ → List CompanyRow → ℕ × List CompanyRow
bulk_delete_companies ids [] = (0, [])
bulk_delete_companies ids (r ∷ rs) =
    let (n, rest) = bulk_delete_companies ids rs in
    if any (λ i. i == r.id) ids && not (is_archived r.status)
    then (suc n, archive r ∷ rest)
    else (n, r ∷ rest)

pub data RowError : Type 0 where
  name_and_domain_required database_error : RowError
  invalid_domain : DomainError → RowError

pub record Import : Type 0 where
  pub imported : ℕ
  pub skipped : ℕ
  pub errors : List (ℕ × RowError)
  pub existing_pairs : List (String × String)
  pub table : Table

abbrev pub is_pair_known : String → String → List (String × String) → Bool
is_pair_known name domain pairs = any (λ p. str_eq p.0 name && str_eq p.1 domain) pairs

abbrev pub add_error : ℕ → RowError → Import → Import
add_error n e s = record s { errors = s.errors ++ (n, e) ∷ [] }

-- A row that is valid and not known: it is imported, unless the database refuses it.
abbrev pub imported_row : ℕ → String → String → Option CompanyRow × Table → Import → Import
imported_row n name domain (none, t) s = add_error n database_error (record s { table = t })
imported_row n name domain (some row, t) s = record s {
  imported = suc s.imported;
  existing_pairs = (name, domain) ∷ s.existing_pairs;
  table = t;
}

unfoldable pub import_row : Env → ℕ → String → String → Import → Import
import_row env n name domain s =
    let normalized = normalize_domain env.domains.texts domain in
    if str_eq name "" || str_eq domain ""
    then add_error n name_and_domain_required s
    else elim (validate_public_domain env.domains domain) [
      | some e ↦ add_error n (invalid_domain e) s
      | none ↦
          if is_pair_known name normalized s.existing_pairs
          then record s { skipped = suc s.skipped }
          else imported_row n name normalized (insert_company env (new_row name normalized) s.table)
              s
    ]

abbrev pub name_of : Env → List (String × ℕ) → Cells → String
name_of env columns row = or_text (cell_str env.domains.texts columns row "name") ""

-- The column of domains, or else that of websites.
abbrev pub domain_of : Env → List (String × ℕ) → Cells → String
domain_of env columns row =
    or_text (cell_str env.domains.texts columns row "domain")
      (or_text (cell_str env.domains.texts columns row "website_url") "")

unfoldable pub import_rows : Env → List (String × ℕ) → ℕ → List Cells → Import → Import
import_rows env columns n [] s = s
import_rows env columns n (row ∷ rows) s =
    import_rows env columns (suc n) rows
      (import_row env n (name_of env columns row) (domain_of env columns row) s)

abbrev pub active_pairs : List CompanyRow → List (String × String)
active_pairs rows =
    map (λ (r : CompanyRow). (r.name, r.domain))
      (select (λ r. not (is_archived r.status) && not (str_eq r.domain "")) rows)

abbrev pub take {ℓ} : {A : Type ℓ} → ℕ → List A → List A
take zero xs = []
take (suc n) [] = []
take (suc n) (x ∷ xs) = x ∷ take n xs

abbrev pub start_import : Table → Import
start_import t = record {
  imported = 0;
  skipped = 0;
  errors = [];
  existing_pairs = active_pairs t.rows;
  table = t;
}

-- The import of the rows of a sheet, after its header; `none` is the answer 422.
unfoldable pub import_companies : Env → Cells → List Cells → Table → Option Import
import_companies env header data_rows t =
    let columns = col_map env.domains.texts header in
    if not (ltb 0 (length data_rows))
    then none
    else if not (has_column "name" columns)
        || not (has_column "domain" columns || has_column "website_url" columns)
    then none
    else some (import_rows env columns 2 (take 500 data_rows) (start_import t))

-- The requests that change the table; what a creation or an update has seen is any list of rows.
pub data Request : Type 0 where
  create : CompanyCreate → List CompanyRow → Request
  update : ℕ → CompanyUpdate → List CompanyRow → Request
  delete : ℕ → Request
  bulk_delete : List ℕ → Request
  import : Cells → List Cells → Request

abbrev pub table_of : Table → Option Import → Table
table_of t none = t
table_of t (some s) = s.table

unfoldable pub handle : Env → Request → Table → Table
handle env (create body seen) t = (create_company env body seen t).1
handle env (update i u seen) t = (update_company env i u seen t).1
handle env (delete i) t = (delete_company i t).1
handle env (bulk_delete ids) t = record t { rows = (bulk_delete_companies ids t.rows).1 }
handle env (import header data_rows) t = table_of t (import_companies env header data_rows t)

unfoldable pub handle_all : Env → List Request → Table → Table
handle_all env [] t = t
handle_all env (q ∷ qs) t = handle_all env qs (handle env q t)
