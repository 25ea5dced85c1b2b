-- ===== src/Enrichment/Emails.antt =====
-- A verified contact has an email: backend/app/services/enrichment.py.
use sales_lead_gen.Base.{
  ℕ, suc, String, ◌≡◌, refl, inl, inr, Bool, true, not, ◌&&◌, ◌||◌, Option, none, some, List, [],
  ◌∷◌, ◌++◌, map, arith, str_eq, leb, Bool-cases, Option-cases, select, All, All-append,
}
use sales_lead_gen.Models.{Company, company_by_id}
use sales_lead_gen.Dedup.Rows.{keys_of, add_key, is_taken}
use sales_lead_gen.Enrichment.Contacts.{
  Source, ContactRow, Env, Hunter, HunterEmail, ScrapInContact, ExtractedContact, KnownContact,
  is_text, text_key, name_key, is_target, is_hunted, hunter_contact, scrapin_contact,
  scrapin_status, gemini_status, scraped_contact, is_extracted, supplement, supplements,
  load_existing_contacts, get_cached_content, try_hunter, try_gemini, try_scrapin,
  try_scraped_content,
}
use sales_lead_gen.Enrichment.{
  EnrichmentResult, new_result, email_key, contact_owner, store_each, store_contacts, is_verified,
  take_contacts, try_it, try_provider, run_provider, run_providers, providers,
  run_contact_waterfall, enrich_company, is_configured, remaining,
}

-- The contact is not verified, or has an email.
abbrev pub HasEmail : ContactRow → Type 0
HasEmail c = (not (is_verified c.email_status) || is_text c.email) ≡ true

abbrev pub HaveEmails : List ContactRow → Type 0
HaveEmails cs = All HasEmail cs

-- What a provider returns, if it returns.
abbrev returned : Option (List ContactRow) → List ContactRow
returned none = []
returned (some cs) = cs

store_each-HaveEmails :
    (lower : String → String) (i : ℕ) (existing : List String) (cs : List ContactRow) (n : ℕ)
    (rows : List ContactRow)
    → HaveEmails cs
    → HaveEmails rows
    → HaveEmails (store_each lower i existing cs (n, rows)).1
unfolding store_each
store_each-HaveEmails lower i existing [] n rows h k = k
store_each-HaveEmails lower i existing (c ∷ cs) n rows (p, h) k =
    elim (Bool-cases (is_taken (email_key lower c) existing)) [
      | inl taken ↦ rw taken (store_each-HaveEmails lower i existing cs n rows h k)
      | inr new ↦ rw new (
          store_each-HaveEmails lower i (add_key (email_key lower c) existing) cs (suc n)
            (rows ++ record c { company_id = i } ∷ []) h
            (All-append HasEmail rows (record c { company_id = i } ∷ []) k (p, tt)))
    ]

gemini_status-HasEmail :
    (env : Env) (email : Option String)
    → (not (is_verified (gemini_status env email)) || is_text email) ≡ true
gemini_status-HasEmail env none = refl
gemini_status-HasEmail env (some email) = elim (Bool-cases (str_eq email "")) [
  | inl empty ↦ rw empty refl
  | inr full ↦ rw full (ground arith)
]

or-true : (a b : Bool) → b ≡ true → (a || b) ≡ true
or-true a b h = ground (arith, h)

has_value : (env : Env) (e : HunterEmail) → is_hunted env e ≡ true → not (str_eq e.value "") ≡ true
has_value env e h = ground (arith, h)

scrapin_status-HasEmail :
    (email : Option String) → (not (is_verified (scrapin_status email)) || is_text email) ≡ true
scrapin_status-HasEmail email = elim (Bool-cases (is_text email)) [
  | inl there ↦ rw there refl
  | inr missing ↦ rw missing refl
]

hunted-HaveEmails :
    (env : Env) (client : Hunter) (es : List HunterEmail)
    → HaveEmails (map (hunter_contact env client) (select (is_hunted env) es))
hunted-HaveEmails env client [] = tt
hunted-HaveEmails env client (e ∷ es) = elim (Bool-cases (is_hunted env e)) [
  | inl hunted ↦ rw hunted (or-true _ _ (has_value env e hunted), hunted-HaveEmails env client es)
  | inr skipped ↦ rw skipped (hunted-HaveEmails env client es)
]

scrapin-HaveEmails : (cs : List ScrapInContact) → HaveEmails (map scrapin_contact cs)
scrapin-HaveEmails [] = tt
scrapin-HaveEmails (c ∷ cs) = (scrapin_status-HasEmail c.email, scrapin-HaveEmails cs)

scraped-HaveEmails :
    (env : Env) (cs : List ExtractedContact) → HaveEmails (map (scraped_contact env) cs)
scraped-HaveEmails env [] = tt
scraped-HaveEmails env (c ∷ cs) = (gemini_status-HasEmail env c.email, scraped-HaveEmails env cs)

supplement-HaveEmails :
    (env : Env) (emails names : List String) (ecs : List ExtractedContact)
    → HaveEmails (supplement env emails names ecs)
unfolding supplement
supplement-HaveEmails env emails names [] = tt
supplement-HaveEmails env emails names (ec ∷ ecs) =
    let skipped = supplement-HaveEmails env emails names ecs in
    let email = text_key env.texts.lower ec.email in
    elim (Bool-cases (str_eq ec.name "")) [
      | inl empty ↦ rw empty skipped
      | inr full ↦ elim (Bool-cases (is_taken email emails)) [
        | inl taken ↦ rw (full, taken) skipped
        | inr free ↦ elim (Bool-cases (is_taken (name_key env ec.name) names)) [
          | inl named ↦ rw (full, free, named) skipped
          | inr fresh ↦ elim (Bool-cases (not (ec.is_decision_maker || is_target env ec.title))) [
            | inl minor ↦ rw (full, free, fresh, minor) skipped
            | inr major ↦
                rw (full, free, fresh, major)
                  (
                    gemini_status-HasEmail env ec.email,
                    supplement-HaveEmails env (add_key email emails)
                        (add_key (name_key env ec.name) names) ecs,
                  )
          ]
        ]
      ]
    ]

supplements-HaveEmails :
    (env : Env) (known : List KnownContact) (o : Option (List ExtractedContact))
    → HaveEmails (supplements env known o)
supplements-HaveEmails env known none = tt
supplements-HaveEmails env known (some extracted) = supplement-HaveEmails env _ _ extracted

try_provider-HaveEmails :
    (env : Env) (p : Source) (domain : String) (i : ℕ) (rows : List ContactRow)
    → HaveEmails (returned (try_provider env p domain i rows))
unfolding try_provider try_hunter try_gemini try_scrapin try_scraped_content
try_provider-HaveEmails env Source.hunter domain i rows = elim (Option-cases env.hunter) [
  | inl off ↦ simp (off, try_hunter) tt
  | inr (client, on) ↦ elim (Option-cases (client.domain_search domain)) [
    | inl failed ↦ simp (on, failed, try_hunter) tt
    | inr (results, e) ↦ simp (on, e, try_hunter) (hunted-HaveEmails env client results)
  ]
]
try_provider-HaveEmails env Source.gemini domain i rows = elim (Option-cases env.gemini) [
  | inl off ↦ simp (off, try_gemini) tt
  | inr (find_contacts, on) ↦
      let known = load_existing_contacts i rows in
      simp (on, try_gemini)
        (supplements-HaveEmails env known (find_contacts known (get_cached_content env domain i)))
]
try_provider-HaveEmails env Source.scrapin domain i rows = elim (Option-cases env.scrapin) [
  | inl off ↦ simp (off, try_scrapin) tt
  | inr (find_contacts, on) ↦ elim (Option-cases (find_contacts domain)) [
    | inl failed ↦ simp (on, failed, try_scrapin) tt
    | inr (results, e) ↦
        simp (on, e, try_scrapin)
          (scrapin-HaveEmails
            (select (λ (c : ScrapInContact). not (str_eq c.display_name "")) results))
  ]
]
try_provider-HaveEmails env Source.scraped_content domain i rows = elim (Option-cases env.llm) [
  | inl off ↦ simp (off, try_scraped_content) tt
  | inr (extract, on) ↦
      let content = get_cached_content env domain i in
      elim (Bool-cases (str_eq (env.texts.strip content) "")) [
        | inl empty ↦ simp (on, empty, try_scraped_content) tt
        | inr full ↦ elim (Option-cases (extract content)) [
          | inl failed ↦ simp (on, full, failed, try_scraped_content) tt
          | inr (extracted, e) ↦
              simp (on, full, e, try_scraped_content)
                (scraped-HaveEmails env (select (is_extracted env) extracted))
        ]
      ]
]

take_contacts-HaveEmails :
    (env : Env) (p : Source) (i : ℕ) (found : Option (List ContactRow))
    (s : EnrichmentResult × List ContactRow)
    → HaveEmails (returned found)
    → HaveEmails s.1
    → HaveEmails (take_contacts env p i found s).1
unfolding take_contacts store_contacts
take_contacts-HaveEmails env p i none s h k = k
take_contacts-HaveEmails env p i (some []) s h k = k
take_contacts-HaveEmails env p i (some (c ∷ cs)) (r, rows) h k =
    store_each-HaveEmails env.texts.lower i
      (keys_of contact_owner (email_key env.texts.lower) i rows) (c ∷ cs) 0 rows h k

run_provider-HaveEmails :
    (env : Env) (p : Source) (i : ℕ) (domain : String) (s : EnrichmentResult × List ContactRow)
    → HaveEmails s.1
    → HaveEmails (run_provider env p i domain s).1
unfolding run_provider
run_provider-HaveEmails env p i domain (r, rows) h = elim (Bool-cases (env.on_time p)) [
  | inl early ↦ rw early (
      take_contacts-HaveEmails env p i (try_provider env p domain i rows) (try_it p r, rows)
        (try_provider-HaveEmails env p domain i rows) h)
  | inr late ↦ rw late (take_contacts-HaveEmails env p i none (try_it p r, rows) tt h)
]

run_providers-HaveEmails :
    (env : Env) (i : ℕ) (domain : String) (ps : List (Source × Bool))
    (s : EnrichmentResult × List ContactRow)
    → HaveEmails s.1
    → HaveEmails (run_providers env i domain ps s).1
unfolding run_providers
run_providers-HaveEmails env i domain [] s h = h
run_providers-HaveEmails env i domain ((p, always_run) ∷ ps) s h =
    let skipped = run_providers-HaveEmails env i domain ps s h in
    elim (Bool-cases (is_configured env p)) [
      | inr off ↦ rw off skipped
      | inl on ↦ elim (Bool-cases (s.0.verified_found && not always_run)) [
        | inl enough ↦ rw (on, enough) skipped
        | inr wanted ↦ elim (Bool-cases (leb (remaining env p) 0)) [
          | inl late ↦ rw (on, wanted, late) h
          | inr early ↦
              rw (on, wanted, early)
                (run_providers-HaveEmails env i domain ps (run_provider env p i domain s)
                  (run_provider-HaveEmails env p i domain s h))
        ]
      ]
    ]

-- If each verified contact in the table has an email, so has each after the enrichment of a company,
-- whatever the providers return.
pub enrich_company-HaveEmails :
    (env : Env) (i : ℕ) (companies : List Company) (rows : List ContactRow)
    → HaveEmails rows
    → HaveEmails (enrich_company env i companies rows).1
unfolding enrich_company run_contact_waterfall
enrich_company-HaveEmails env i companies rows h = elim (Option-cases (company_by_id i companies)) [
  | inl e ↦ rw (e, enrich_company) h
  | inr (company, e) ↦ elim (Bool-cases (str_eq company.domain "")) [
    | inl nowhere ↦ rw (e, nowhere, enrich_company) h
    | inr there ↦
        rw (e, there, enrich_company)
          (run_providers-HaveEmails env i company.domain providers (new_result i, rows) h)
  ]
]
