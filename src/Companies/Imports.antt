-- ===== src/Companies/Imports.antt =====
-- What an import of companies comes to: backend/app/api/v1/companies.py.
use sales_lead_gen.Base.{
  ℕ, zero, suc, ◌+◌, min, String, ◌≡◌, subst, inl, inr, not, ◌&&◌, ◌||◌, some, List, [], ◌∷◌, arith,
  str_eq, ltb, Bool-cases, Option-cases, length, length-append,
}
use sales_lead_gen.Texts.{normalize_domain}
use sales_lead_gen.Companies.Domains.{validate_public_domain}
use sales_lead_gen.Companies.Columns.{Cells, col_map, has_column}
use sales_lead_gen.Companies.{
  CompanyRow, Table, Env, Import, new_row, insert_company, has_pair, is_pair_known, imported_row,
  import_row, import_rows, name_of, domain_of, take, start_import, import_companies,
}

-- Each row is imported, skipped or an error, and each imported row is a new row of the table.
pub record HasCounted (n : ℕ) (s s' : Import) : Type 0 where
  pub handled :
      s'.imported + s'.skipped + length s'.errors ≡ s.imported + s.skipped + length s.errors + n
  pub stored : length s'.table.rows + s.imported ≡ length s.table.rows + s'.imported

module _ (env : Env) where
  imported_row-HasCounted :
      (n : ℕ) (row : CompanyRow) (name domain : String) (s : Import)
      → HasCounted 1 s (imported_row n name domain (insert_company env row s.table) s)
  unfolding insert_company
  imported_row-HasCounted n row name domain s =
      elim (Bool-cases
        (env.accepts row.name row.domain && not (has_pair row.name row.domain s.table.rows))) [
          | inl accepted ↦ rw accepted record { handled = omega arith; stored = omega arith }
          | inr refused ↦ rw refused record {
            handled = omega (arith, length-append s.errors (_ ∷ []));
            stored = omega arith;
          }
        ]

  import_row-HasCounted :
      (n : ℕ) (name domain : String) (s : Import) → HasCounted 1 s (import_row env n name domain s)
  unfolding import_row
  import_row-HasCounted n name domain s = elim (Bool-cases (str_eq name "" || str_eq domain "")) [
    | inl empty ↦
        rw empty
          record { handled = omega (arith, length-append s.errors (_ ∷ [])); stored = omega arith }
    | inr full ↦ elim (Option-cases (validate_public_domain env.domains domain)) [
      | inr (e, invalid) ↦
          rw (full, invalid, import_row)
            record {
              handled = omega (arith, length-append s.errors (_ ∷ []));
              stored = omega arith;
            }
      | inl valid ↦
          let normalized = normalize_domain env.domains.texts domain in
          elim (Bool-cases (is_pair_known name normalized s.existing_pairs)) [
            | inl known ↦
                rw (full, valid, known, import_row)
                  record { handled = omega arith; stored = omega arith }
            | inr new ↦
                rw (full, valid, new, import_row)
                  (imported_row-HasCounted n (new_row name normalized) name normalized s)
          ]
    ]
  ]

  import_rows-HasCounted :
      (columns : List (String × ℕ)) (n : ℕ) (rows : List Cells) (s : Import)
      → HasCounted (length rows) s (import_rows env columns n rows s)
  unfolding import_rows
  import_rows-HasCounted columns n [] s = record { handled = omega arith; stored = omega arith }
  import_rows-HasCounted columns n (row ∷ rows) s =
      let s' = import_row env n (name_of env columns row) (domain_of env columns row) s in
      let c = import_row-HasCounted n (name_of env columns row) (domain_of env columns row) s in
      let cs = import_rows-HasCounted columns (suc n) rows s' in
      record {
        handled = omega (arith, c.handled, cs.handled);
        stored = omega (arith, c.stored, cs.stored);
      }

length-take : (n : ℕ) (rows : List Cells) → length (take n rows) ≡ min n (length rows)
length-take zero rows = omega arith
length-take (suc n) [] = omega arith
length-take (suc n) (row ∷ rows) = omega (arith, length-take n rows)

some-injective {ℓ} : {A : Type ℓ} (x y : A) → some x ≡ some y → x ≡ y
some-injective x y e = cc e

-- An import that is not refused is the loop over the first 500 rows.
pub import_companies_rows :
    (env : Env) (header : Cells) (data_rows : List Cells) (t : Table) (s : Import)
    → import_companies env header data_rows t ≡ some s
    → import_rows env (col_map env.domains.texts header) 2 (take 500 data_rows) (start_import t) ≡ s
unfolding import_companies
import_companies_rows env header data_rows t s done =
    let columns = col_map env.domains.texts header in
    elim (Bool-cases (not (ltb 0 (length data_rows)))) [
      | inl empty ↦ cc (rw empty at done)
      | inr full ↦
          elim (Bool-cases (
            not (has_column "name" columns)
            || not (has_column "domain" columns || has_column "website_url" columns))) [
              | inl lacking ↦ cc (rw (full, lacking) at done)
              | inr complete ↦ some-injective _ s (rw (full, complete) at done)
            ]
    ]

-- Of the first 500 rows, each is imported, skipped or reported as an error, and the table has a new row
-- for each that is imported.
pub import_companies_counts :
    (env : Env) (header : Cells) (data_rows : List Cells) (t : Table) (s : Import)
    → import_companies env header data_rows t ≡ some s
    → (s.imported + s.skipped + length s.errors ≡ min 500 (length data_rows))
      × (length s.table.rows ≡ length t.rows + s.imported)
import_companies_counts env header data_rows t s done =
    let c =
      subst (HasCounted (length (take 500 data_rows)) (start_import t))
        (import_companies_rows env header data_rows t s done)
        (import_rows-HasCounted env (col_map env.domains.texts header) 2 (take 500 data_rows)
          (start_import t)) in
    (omega (arith, c.handled, length-take 500 data_rows), omega (arith, c.stored))
