-- ===== src/Companies/Public.antt =====
-- The domains in the table of companies are public: backend/app/api/v1/companies.py.
use sales_lead_gen.Base.{
  ℕ, suc, String, ◌≡◌, refl, sym, ap, subst, inl, inr, Bool, not, ◌&&◌, ◌||◌, Option, none, some,
  List, [], ◌∷◌, str_eq, ltb, ◌==◌, Bool-cases, Option-cases, length, any, All,
}
use sales_lead_gen.Models.{CompanyStatus, is_archived}
use sales_lead_gen.Texts.{normalize_domain}
use sales_lead_gen.Companies.Domains.{DomainTexts, validate_public_domain}
use sales_lead_gen.Companies.Columns.{Cells, has_column, col_map}
use sales_lead_gen.Companies.{
  CompanyRow, Table, Env, Field, unset, null, set, CompanyUpdate, CompanyCreate, Import, Response,
  ok, error, Request, new_row, row_of, insert_company, created, create_company, new_domain,
  find_row, put_row, others, has_pair, or_old, commit_update, updated, is_pair_taken, update_row,
  update_company, archive, delete_company, bulk_delete_companies, is_pair_known, imported_row,
  import_row, import_rows, name_of, domain_of, take, start_import, table_of, import_companies,
  handle, handle_all, create, update, delete, bulk_delete, import,
}

-- A domain is the normal form of a text that has passed the validation.
abbrev pub IsPublic : DomainTexts → String → Type 0
IsPublic d domain =
    (raw : String) × (validate_public_domain d raw ≡ none) × (normalize_domain d.texts raw ≡ domain)

abbrev pub ArePublic : Env → List CompanyRow → Type 0
ArePublic env rows = All (λ (r : CompanyRow). IsPublic env.domains r.domain) rows

some-injective {ℓ} : {A : Type ℓ} (x y : A) → some x ≡ some y → x ≡ y
some-injective x y e = cc e

ok-injective : {A : Type 0} (x y : A) → ok x ≡ ok y → x ≡ y
ok-injective x y e = cc e

module _ (env : Env) where
  insert_company-ArePublic :
      (row : CompanyRow) (t : Table)
      → IsPublic env.domains row.domain
      → ArePublic env t.rows
      → ArePublic env (insert_company env row t).1.rows
  unfolding insert_company
  insert_company-ArePublic row t p h =
      elim (Bool-cases
        (env.accepts row.name row.domain && not (has_pair row.name row.domain t.rows))) [
          | inl accepted ↦ rw accepted (p, h)
          | inr refused ↦ rw refused h
        ]

  created-ArePublic :
      (o : Option CompanyRow × Table) → ArePublic env o.1.rows → ArePublic env (created o).1.rows
  created-ArePublic (some row, t) h = h
  created-ArePublic (none, t) h = h

  create_company-ArePublic :
      (body : CompanyCreate) (seen : List CompanyRow) (t : Table)
      → ArePublic env t.rows
      → ArePublic env (create_company env body seen t).1.rows
  unfolding create_company
  create_company-ArePublic body seen t h =
      elim (Option-cases (validate_public_domain env.domains body.domain)) [
        | inr (e, invalid) ↦ rw (invalid, create_company) h
        | inl valid ↦
            let normalized = normalize_domain env.domains.texts body.domain in
            elim (Bool-cases (has_pair body.name normalized seen)) [
              | inl known ↦ rw (valid, known, create_company) h
              | inr fresh ↦
                  rw (valid, fresh, create_company)
                    (created-ArePublic (insert_company env (row_of body normalized) t) (
                      insert_company-ArePublic (row_of body normalized) t (body.domain, valid, refl)
                        h))
            ]
      ]

  put_row-ArePublic :
      (c : CompanyRow) (rows : List CompanyRow)
      → IsPublic env.domains c.domain
      → ArePublic env rows
      → ArePublic env (put_row c rows)
  unfolding put_row
  put_row-ArePublic c [] p h = tt
  put_row-ArePublic c (r ∷ rs) p (q, h) = elim (Bool-cases (r.id == c.id)) [
    | inl same ↦ rw same (p, put_row-ArePublic c rs p h)
    | inr other ↦ rw other (q, put_row-ArePublic c rs p h)
  ]

  find_row-IsPublic :
      (i : ℕ) (rows : List CompanyRow) (c : CompanyRow)
      → find_row i rows ≡ some c
      → ArePublic env rows
      → IsPublic env.domains c.domain
  unfolding find_row
  find_row-IsPublic i [] c found h = cc
  find_row-IsPublic i (r ∷ rs) c found (p, h) = elim (Bool-cases (r.id == i)) [
    | inl here ↦
        subst (λ (x : CompanyRow). IsPublic env.domains x.domain)
          (some-injective r c (rw here at found)) p
    | inr later ↦ find_row-IsPublic i rs c (rw later at found) h
  ]

  commit_update-domain :
      (c c' : CompanyRow) (name : Option String) (domain : String) (monitor pinned : Option Bool)
      (status : Option CompanyStatus) (rows : List CompanyRow)
      → commit_update c name domain monitor pinned status rows ≡ some c'
      → c'.domain ≡ domain
  unfolding commit_update
  commit_update-domain c c' none domain monitor pinned status rows done = cc
  commit_update-domain c c' (some name) domain none pinned status rows done = cc
  commit_update-domain c c' (some name) domain (some monitor) none status rows done = cc
  commit_update-domain c c' (some name) domain (some monitor) (some pinned) none rows done = cc
  commit_update-domain c c' (some name) domain (some monitor) (some pinned) (some status) rows
        done =
      elim (Bool-cases (has_pair name domain (others c.id rows))) [
        | inl taken ↦ cc (rw taken at done)
        | inr free ↦ ap (λ (r : CompanyRow). r.domain) (sym (some-injective _ c' (rw free at done)))
      ]

  new_domain-IsPublic :
      (old domain : String) (f : Field String)
      → new_domain env old f ≡ ok domain
      → IsPublic env.domains old
      → IsPublic env.domains domain
  new_domain-IsPublic old domain unset done h =
      subst (IsPublic env.domains) (ok-injective old domain done) h
  new_domain-IsPublic old domain null done h = cc
  new_domain-IsPublic old domain (set raw) done h =
      elim (Option-cases (validate_public_domain env.domains raw)) [
        | inr (e, invalid) ↦ cc (rw (invalid, new_domain) at done)
        | inl valid ↦ (raw, valid, ok-injective _ domain (rw (valid, new_domain) at done))
      ]

  updated-ArePublic :
      (o : Option CompanyRow) (t : Table)
      → ((c : CompanyRow) → o ≡ some c → IsPublic env.domains c.domain)
      → ArePublic env t.rows
      → ArePublic env (updated o t).1.rows
  updated-ArePublic none t p h = h
  updated-ArePublic (some c) t p h = put_row-ArePublic c t.rows (p c refl) h

  update_row-ArePublic :
      (u : CompanyUpdate) (c : CompanyRow) (domain : String) (seen : List CompanyRow) (t : Table)
      → IsPublic env.domains domain
      → ArePublic env t.rows
      → ArePublic env (update_row env u c domain seen t).1.rows
  unfolding update_row
  update_row-ArePublic u c domain seen t p h =
      elim (Bool-cases (is_pair_taken (or_old c.name u.name) domain c seen)) [
        | inl taken ↦ rw taken h
        | inr free ↦ rw free (
            updated-ArePublic _ t
              (λ c' done.
                subst (IsPublic env.domains)
                  (sym (commit_update-domain c c' _ domain _ _ _ t.rows done)) p)
              h)
      ]

  update_company-ArePublic :
      (i : ℕ) (u : CompanyUpdate) (seen : List CompanyRow) (t : Table)
      → ArePublic env t.rows
      → ArePublic env (update_company env i u seen t).1.rows
  unfolding update_company
  update_company-ArePublic i u seen t h = elim (Option-cases (find_row i t.rows)) [
    | inl gone ↦ rw (gone, update_company) h
    | inr (c, found) ↦ elim (Bool-cases (is_archived c.status)) [
      | inl archived ↦ rw (found, archived, update_company) h
      | inr active ↦
          rw (found, active, update_company)
            (with_domain c (new_domain env c.domain u.domain) (λ domain done.
              new_domain-IsPublic c.domain domain u.domain done
                (find_row-IsPublic i t.rows c found h)))
    ]
  ]
    where
      with_domain :
          (c : CompanyRow) (o : Response String)
          → ((domain : String) → o ≡ ok domain → IsPublic env.domains domain)
          → ArePublic env
              (elim o as (λ x. Response CompanyRow × Table) [
                | error e ↦ (error e, t)
                | ok domain ↦ update_row env u c domain seen t
              ]).1.rows
      with_domain c (error e) p = h
      with_domain c (ok domain) p = update_row-ArePublic u c domain seen t (p domain refl) h

  delete_company-ArePublic :
      (i : ℕ) (t : Table) → ArePublic env t.rows → ArePublic env (delete_company i t).1.rows
  unfolding delete_company
  delete_company-ArePublic i t h = elim (Option-cases (find_row i t.rows)) [
    | inl gone ↦ rw (gone, delete_company) h
    | inr (c, found) ↦ elim (Bool-cases (is_archived c.status)) [
      | inl archived ↦ rw (found, archived, delete_company) h
      | inr active ↦
          rw (found, active, delete_company)
            (put_row-ArePublic (archive c) t.rows (find_row-IsPublic i t.rows c found h) h)
    ]
  ]

  bulk_delete_companies-ArePublic :
      (ids : List ℕ) (rows : List CompanyRow)
      → ArePublic env rows
      → ArePublic env (bulk_delete_companies ids rows).1
  unfolding bulk_delete_companies
  bulk_delete_companies-ArePublic ids [] h = tt
  bulk_delete_companies-ArePublic ids (r ∷ rs) (p, h) =
      elim (Bool-cases (any (λ i. i == r.id) ids && not (is_archived r.status))) [
        | inl chosen ↦ rw chosen (p, bulk_delete_companies-ArePublic ids rs h)
        | inr kept ↦ rw kept (p, bulk_delete_companies-ArePublic ids rs h)
      ]

  imported_row-ArePublic :
      (n : ℕ) (name domain : String) (o : Option CompanyRow × Table) (s : Import)
      → ArePublic env o.1.rows
      → ArePublic env (imported_row n name domain o s).table.rows
  imported_row-ArePublic n name domain (none, t) s h = h
  imported_row-ArePublic n name domain (some row, t) s h = h

  import_row-ArePublic :
      (n : ℕ) (name domain : String) (s : Import)
      → ArePublic env s.table.rows
      → ArePublic env (import_row env n name domain s).table.rows
  unfolding import_row
  import_row-ArePublic n name domain s h = elim (Bool-cases (str_eq name "" || str_eq domain "")) [
    | inl empty ↦ rw empty h
    | inr full ↦ elim (Option-cases (validate_public_domain env.domains domain)) [
      | inr (e, invalid) ↦ rw (full, invalid, import_row) h
      | inl valid ↦
          let normalized = normalize_domain env.domains.texts domain in
          elim (Bool-cases (is_pair_known name normalized s.existing_pairs)) [
            | inl known ↦ rw (full, valid, known, import_row) h
            | inr new ↦
                rw (full, valid, new, import_row)
                  (imported_row-ArePublic n name normalized
                    (insert_company env (new_row name normalized) s.table) s
                    (insert_company-ArePublic (new_row name normalized) s.table
                      (domain, valid, refl) h))
          ]
    ]
  ]

  import_rows-ArePublic :
      (columns : List (String × ℕ)) (n : ℕ) (rows : List Cells) (s : Import)
      → ArePublic env s.table.rows
      → ArePublic env (import_rows env columns n rows s).table.rows
  unfolding import_rows
  import_rows-ArePublic columns n [] s h = h
  import_rows-ArePublic columns n (row ∷ rows) s h =
      import_rows-ArePublic columns (suc n) rows _
        (import_row-ArePublic n (name_of env columns row) (domain_of env columns row) s h)

  import_companies-ArePublic :
      (header : Cells) (data_rows : List Cells) (t : Table)
      → ArePublic env t.rows
      → ArePublic env (table_of t (import_companies env header data_rows t)).rows
  unfolding import_companies
  import_companies-ArePublic header data_rows t h =
      let columns = col_map env.domains.texts header in
      elim (Bool-cases (not (ltb 0 (length data_rows)))) [
        | inl empty ↦ rw empty h
        | inr full ↦
            elim (Bool-cases (
              not (has_column "name" columns)
              || not (has_column "domain" columns || has_column "website_url" columns))) [
                | inl lacking ↦ rw (full, lacking) h
                | inr complete ↦
                    rw (full, complete)
                      (import_rows-ArePublic columns 2 (take 500 data_rows) (start_import t) h)
              ]
      ]

  handle-ArePublic :
      (q : Request) (t : Table) → ArePublic env t.rows → ArePublic env (handle env q t).rows
  unfolding handle
  handle-ArePublic (create body seen) t h = create_company-ArePublic body seen t h
  handle-ArePublic (update i u seen) t h = update_company-ArePublic i u seen t h
  handle-ArePublic (delete i) t h = delete_company-ArePublic i t h
  handle-ArePublic (bulk_delete ids) t h = bulk_delete_companies-ArePublic ids t.rows h
  handle-ArePublic (import header data_rows) t h = import_companies-ArePublic header data_rows t h

-- Whatever requests create, update, archive and import companies, and whatever others have done between
-- a check and its commit: if each domain in the table is the normal form of a text that the validation
-- of public domains lets pass, so is each domain afterwards.
pub handle_all-ArePublic :
    (env : Env) (qs : List Request) (t : Table)
    → ArePublic env t.rows
    → ArePublic env (handle_all env qs t).rows
unfolding handle_all
handle_all-ArePublic env [] t h = h
handle_all-ArePublic env (q ∷ qs) t h =
    handle_all-ArePublic env qs (handle env q t) (handle-ArePublic env q t h)
