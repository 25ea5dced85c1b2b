-- ===== src/Companies/Repeat.antt =====
-- A second import of the same rows: backend/app/api/v1/companies.py.
use sales_lead_gen.Base.{
  ℕ, suc, String, ◌≡◌, refl, sym, ◌∙◌, subst, inl, inr, Bool, true, false, not, ◌&&◌, ◌||◌, Option,
  none, some, List, [], ◌∷◌, arith, str_eq, eq_iff, Bool-cases, Option-cases, All,
}
use sales_lead_gen.Texts.{normalize_domain}
use sales_lead_gen.Companies.Domains.{validate_public_domain}
use sales_lead_gen.Companies.Columns.{Cells, col_map}
use sales_lead_gen.Companies.{
  CompanyRow, Table, Env, Import, new_row, insert_company, has_pair, is_pair_known, imported_row,
  import_row, import_rows, name_of, domain_of, take, start_import, active_pairs, import_companies,
}
use sales_lead_gen.Companies.Imports.{import_companies_rows}

module _ (env : Env) where
  abbrev is_insertable : String → String → List CompanyRow → Bool
  is_insertable name domain rows = env.accepts name domain && not (has_pair name domain rows)

  -- An insert of the row would fail.
  abbrev IsSettled : String → String → List CompanyRow → Type 0
  IsSettled name domain rows =
      (str_eq name "" || str_eq domain "") ≡ false
      → validate_public_domain env.domains domain ≡ none
      → is_insertable name (normalize_domain env.domains.texts domain) rows ≡ false

  -- The pairs that the loop knows are in the table.
  abbrev AreStored : List (String × String) → List CompanyRow → Type 0
  AreStored pairs rows =
      (name domain : String)
      → is_pair_known name domain pairs ≡ true
      → has_pair name domain rows ≡ true

  AreStored-active_pairs : (rows : List CompanyRow) → AreStored (active_pairs rows) rows
  unfolding has_pair
  AreStored-active_pairs [] name domain h = h
  AreStored-active_pairs (r ∷ rs) name domain h =
      ground (arith, AreStored-active_pairs rs name domain)

  insert_company-has_pair :
      (row : CompanyRow) (t : Table) (name domain : String)
      → has_pair name domain t.rows ≡ true
      → has_pair name domain (insert_company env row t).1.rows ≡ true
  unfolding insert_company has_pair
  insert_company-has_pair row t name domain h = ground (arith, h)

  insert_company-settles :
      (name domain : String) (t : Table)
      → is_insertable name domain (insert_company env (new_row name domain) t).1.rows ≡ false
  unfolding insert_company has_pair
  insert_company-settles name domain t = elim (Bool-cases (is_insertable name domain t.rows)) [
    | inl accepted ↦
        rw accepted (ground (arith, (eq_iff name name).1 refl, (eq_iff domain domain).1 refl))
    | inr refused ↦ rw refused refused
  ]

  imported_row-AreStored :
      (n : ℕ) (name domain : String) (s : Import)
      → AreStored s.existing_pairs s.table.rows
      → (let s' = imported_row n name domain (insert_company env (new_row name domain) s.table) s in
          AreStored s'.existing_pairs s'.table.rows)
  unfolding insert_company has_pair
  imported_row-AreStored n name domain s h =
      elim (Bool-cases (is_insertable name domain s.table.rows)) [
        | inl accepted ↦ rw accepted (λ name' domain' k. ground (arith, k, h name' domain'))
        | inr refused ↦ rw refused h
      ]

  imported_row-table :
      (n : ℕ) (name domain : String) (o : Option CompanyRow × Table) (s : Import)
      → (imported_row n name domain o s).table ≡ o.1
  imported_row-table n name domain (none, t) s = refl
  imported_row-table n name domain (some row, t) s = refl

  import_row-AreStored :
      (n : ℕ) (name domain : String) (s : Import)
      → AreStored s.existing_pairs s.table.rows
      → AreStored
          (import_row env n name domain s).existing_pairs
          (import_row env n name domain s).table.rows
  unfolding import_row
  import_row-AreStored n name domain s h = elim (Bool-cases (str_eq name "" || str_eq domain "")) [
    | inl empty ↦ rw empty h
    | inr full ↦ elim (Option-cases (validate_public_domain env.domains domain)) [
      | inr (e, invalid) ↦ rw (full, invalid, import_row) h
      | inl valid ↦
          let normalized = normalize_domain env.domains.texts domain in
          elim (Bool-cases (is_pair_known name normalized s.existing_pairs)) [
            | inl known ↦ rw (full, valid, known, import_row) h
            | inr new ↦
                rw (full, valid, new, import_row) (imported_row-AreStored n name normalized s h)
          ]
    ]
  ]

  import_row-has_pair :
      (n : ℕ) (name domain : String) (s : Import) (name' domain' : String)
      → has_pair name' domain' s.table.rows ≡ true
      → has_pair name' domain' (import_row env n name domain s).table.rows ≡ true
  unfolding import_row
  import_row-has_pair n name domain s name' domain' h =
      elim (Bool-cases (str_eq name "" || str_eq domain "")) [
        | inl empty ↦ rw empty h
        | inr full ↦ elim (Option-cases (validate_public_domain env.domains domain)) [
          | inr (e, invalid) ↦ rw (full, invalid, import_row) h
          | inl valid ↦
              let normalized = normalize_domain env.domains.texts domain in
              let inserted = insert_company env (new_row name normalized) s.table in
              elim (Bool-cases (is_pair_known name normalized s.existing_pairs)) [
                | inl known ↦ rw (full, valid, known, import_row) h
                | inr new ↦
                    rw (full, valid, new, import_row)
                      (subst (λ (t : Table). has_pair name' domain' t.rows ≡ true)
                        (sym (imported_row-table n name normalized inserted s))
                        (insert_company-has_pair (new_row name normalized) s.table name' domain' h))
              ]
        ]
      ]

  import_row-settles :
      (n : ℕ) (name domain : String) (s : Import)
      → AreStored s.existing_pairs s.table.rows
      → IsSettled name domain (import_row env n name domain s).table.rows
  unfolding import_row
  import_row-settles n name domain s h full valid =
      let normalized = normalize_domain env.domains.texts domain in
      let inserted = insert_company env (new_row name normalized) s.table in
      elim (Bool-cases (is_pair_known name normalized s.existing_pairs)) [
        | inl known ↦ rw (full, valid, known, import_row) (ground (arith, h name normalized known))
        | inr new ↦
            rw (full, valid, new, import_row)
              (subst (λ (t : Table). is_insertable name normalized t.rows ≡ false)
                (sym (imported_row-table n name normalized inserted s))
                (insert_company-settles name normalized s.table))
      ]

  -- A row whose insert would fail is not imported.
  import_row-idle :
      (n : ℕ) (name domain : String) (s : Import)
      → IsSettled name domain s.table.rows
      → ((import_row env n name domain s).imported ≡ s.imported)
        × ((import_row env n name domain s).table.rows ≡ s.table.rows)
  unfolding import_row insert_company
  import_row-idle n name domain s h = elim (Bool-cases (str_eq name "" || str_eq domain "")) [
    | inl empty ↦ rw empty (refl, refl)
    | inr full ↦ elim (Option-cases (validate_public_domain env.domains domain)) [
      | inr (e, invalid) ↦ rw (full, invalid, import_row) (refl, refl)
      | inl valid ↦
          let normalized = normalize_domain env.domains.texts domain in
          elim (Bool-cases (is_pair_known name normalized s.existing_pairs)) [
            | inl known ↦ rw (full, valid, known, import_row) (refl, refl)
            | inr new ↦ rw (full, valid, new, import_row) (rw (h full valid) (refl, refl))
          ]
    ]
  ]

  import_rows-AreStored :
      (columns : List (String × ℕ)) (n : ℕ) (rows : List Cells) (s : Import)
      → AreStored s.existing_pairs s.table.rows
      → (let s' = import_rows env columns n rows s in AreStored s'.existing_pairs s'.table.rows)
  unfolding import_rows
  import_rows-AreStored columns n [] s h = h
  import_rows-AreStored columns n (row ∷ rows) s h =
      import_rows-AreStored columns (suc n) rows _
        (import_row-AreStored n (name_of env columns row) (domain_of env columns row) s h)

  import_rows-IsSettled :
      (columns : List (String × ℕ)) (n : ℕ) (rows : List Cells) (s : Import) (name domain : String)
      → IsSettled name domain s.table.rows
      → IsSettled name domain (import_rows env columns n rows s).table.rows
  unfolding import_rows
  import_rows-IsSettled columns n [] s name domain h = h
  import_rows-IsSettled columns n (row ∷ rows) s name domain h =
      let s' = import_row env n (name_of env columns row) (domain_of env columns row) s in
      import_rows-IsSettled columns (suc n) rows s' name domain (λ full valid. ground (
        arith,
        h full valid,
        import_row-has_pair n (name_of env columns row) (domain_of env columns row) s name
            (normalize_domain env.domains.texts domain),
      ))

  -- After an import, an insert of any of its rows would fail.
  import_rows-settles :
      (columns : List (String × ℕ)) (n : ℕ) (rows : List Cells) (s : Import)
      → AreStored s.existing_pairs s.table.rows
      → All
          (λ (row : Cells).
            IsSettled
              (name_of env columns row)
              (domain_of env columns row)
              (import_rows env columns n rows s).table.rows)
          rows
  unfolding import_rows
  import_rows-settles columns n [] s h = tt
  import_rows-settles columns n (row ∷ rows) s h =
      let s' = import_row env n (name_of env columns row) (domain_of env columns row) s in
      (
        import_rows-IsSettled columns (suc n) rows s' (name_of env columns row)
            (domain_of env columns row)
            (import_row-settles n (name_of env columns row) (domain_of env columns row) s h),
        import_rows-settles columns (suc n) rows s'
            (import_row-AreStored n (name_of env columns row) (domain_of env columns row) s h),
      )

  import_rows-idle :
      (columns : List (String × ℕ)) (n : ℕ) (rows : List Cells) (s : Import)
      (stored : List CompanyRow)
      → s.table.rows ≡ stored
      → All
          (λ (row : Cells). IsSettled (name_of env columns row) (domain_of env columns row) stored)
          rows
      → ((import_rows env columns n rows s).imported ≡ s.imported)
        × ((import_rows env columns n rows s).table.rows ≡ stored)
  unfolding import_rows
  import_rows-idle columns n [] s stored same h = (refl, same)
  import_rows-idle columns n (row ∷ rows) s stored same (p, h) =
      let name = name_of env columns row in
      let domain = domain_of env columns row in
      let (none_new, kept) =
        import_row-idle n name domain s (subst (IsSettled name domain) (sym same) p) in
      let (none_more, kept') =
        import_rows-idle columns (suc n) rows (import_row env n name domain s) stored (kept ∙ same)
          h in
      (none_more ∙ none_new, kept')

-- An import of the same rows after an import, with no request between them, imports nothing and leaves
-- the rows of the table as they are.
pub import_companies_repeat :
    (env : Env) (header : Cells) (data_rows : List Cells) (t : Table) (s s' : Import)
    → import_companies env header data_rows t ≡ some s
    → import_companies env header data_rows s.table ≡ some s'
    → (s'.imported ≡ 0) × (s'.table.rows ≡ s.table.rows)
import_companies_repeat env header data_rows t s s' first again =
    let columns = col_map env.domains.texts header in
    let rows = take 500 data_rows in
    let settled =
      subst
        (λ (x : Import).
          All
            (λ (row : Cells).
              IsSettled env (name_of env columns row) (domain_of env columns row) x.table.rows)
            rows)
        (import_companies_rows env header data_rows t s first)
        (import_rows-settles env columns 2 rows (start_import t)
          (AreStored-active_pairs env t.rows)) in
    subst (λ (x : Import). (x.imported ≡ 0) × (x.table.rows ≡ s.table.rows))
      (import_companies_rows env header data_rows s.table s' again)
      (import_rows-idle env columns 2 rows (start_import s.table) s.table.rows refl settled)
