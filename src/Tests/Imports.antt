-- ===== src/Tests/Imports.antt =====
-- Requests on the table of companies at concrete inputs.
use sales_lead_gen.Base.{◌≡◌, refl, true, false, not, Option, none, some, List, [], ◌∷◌, str_eq}
use sales_lead_gen.Texts.{normalize_domain}
use sales_lead_gen.Dedup.Rows.{contains}
use sales_lead_gen.Companies.Domains.{validate_public_domain}
use sales_lead_gen.Companies.Columns.{Cells, renamed, columns_from, col_map, column_index, cell_str}
use sales_lead_gen.Companies.{
  Table, Env, Import, unset, set, handle_all, update, bulk_delete, import, CompanyUpdate, has_pair,
  insert_company, import_row, import_rows, import_companies,
}
use sales_lead_gen.Companies.Public.{ArePublic, handle_all-ArePublic}
use sales_lead_gen.Companies.Repeat.{import_companies_repeat}
use sales_lead_gen.Tests.Runs.{plain}

abbrev env : Env
env = record {
  domains = record {
    texts = plain;
    ends_with = λ suffix t. false;
    is_ip_address = λ t. str_eq t "10.0.0.1";
    matches_domain = λ t. not (str_eq t "intranet");
  };
  accepts = λ name domain. true;
}

abbrev header : Cells
header = some "bedrijfsnaam" ∷ some "domein" ∷ []

abbrev data_rows : List Cells
data_rows =
    (some "Acme" ∷ some "acme.nl" ∷ [])
    ∷ (some "Evil" ∷ some "10.0.0.1" ∷ [])
    ∷ (some "Acme" ∷ some "acme.nl" ∷ [])
    ∷ []

abbrev no_companies : Table
no_companies = record { rows = []; next_id = 1 }

abbrev moved : CompanyUpdate
moved = record {
  name = unset;
  domain = set "acme.eu";
  monitor = set true;
  monitor_pinned = unset;
  status = unset;
}

handle_all-ArePublic_example :
    ArePublic env
      (handle_all env
        (import header data_rows ∷ update 1 moved [] ∷ bulk_delete (1 ∷ []) ∷ [])
        no_companies).rows
handle_all-ArePublic_example =
    handle_all-ArePublic env
      (import header data_rows ∷ update 1 moved [] ∷ bulk_delete (1 ∷ []) ∷ []) no_companies tt

abbrev done : Option Import → Import
done none = record {
  imported = 0;
  skipped = 0;
  errors = [];
  existing_pairs = [];
  table = no_companies;
}
done (some s) = s

abbrev first : Import
first = done (import_companies env header data_rows no_companies)

first_imports : import_companies env header data_rows no_companies ≡ some first
unfolding import_companies import_rows import_row insert_company has_pair renamed columns_from
    col_map column_index cell_str validate_public_domain normalize_domain contains
first_imports = refl

second_imports :
    import_companies env header data_rows first.table
    ≡ some (done (import_companies env header data_rows first.table))
unfolding import_companies import_rows import_row insert_company has_pair renamed columns_from
    col_map column_index cell_str validate_public_domain normalize_domain contains
second_imports = refl

import_companies_repeat_example :
    ((done (import_companies env header data_rows first.table)).imported ≡ 0)
    × ((done (import_companies env header data_rows first.table)).table.rows ≡ first.table.rows)
import_companies_repeat_example =
    import_companies_repeat env header data_rows no_companies first
      (done (import_companies env header data_rows first.table)) first_imports second_imports
