-- ===== src/Enrichment.antt =====
-- backend/app/services/enrichment.py: the waterfall that finds contacts for a company, and the batch.
pub mod Contacts
pub mod Storage
pub mod Waterfall
pub mod Hits
pub mod Supplement
pub mod Batch
pub mod Emails
use sales_lead_gen.Base.{
  ℕ, zero, suc, ◌+◌, ◌-◌, ◌*◌, ◌/◌, ◌%◌, ◌^◌, ◌≤◌, ◌<◌, min, max, String, ◌≡◌, refl, sym, ap, ◌∙◌,
  subst, ◌≢◌, ◌↔◌, ◌⊎◌, inl, inr, Bool, true, false, not, ◌&&◌, ◌||◌, Option, none, some, List, [],
  ◌∷◌, ◌++◌, map, arith, str_eq, eq_iff, ltb, leb, ◌==◌, if◌then◌else◌, ==_iff, Bool-cases,
  Option-cases, is_some, length, length-append, select, any, find, All, All-append,
}
use sales_lead_gen.Models.{EmailStatus, Company, company_by_id}
use sales_lead_gen.Dedup.Rows.{keys_of, add_key, is_taken}
use sales_lead_gen.Enrichment.Contacts.{
  Source, ContactRow, Env, text_key, is_target, try_hunter, try_gemini, try_scrapin,
  try_scraped_content,
}

pub data EnrichmentError : Type 0 where
  company_not_found no_domain : EnrichmentError
  exception_text : String → EnrichmentError

pub record EnrichmentResult : Type 0 where
  pub company_id : ℕ
  pub contacts_added : ℕ
  pub provider_used : Option Source
  pub providers_tried : List Source
  pub verified_found : Bool
  pub error : Option EnrichmentError

abbrev pub new_result : ℕ → EnrichmentResult
new_result i = record {
  company_id = i;
  contacts_added = 0;
  provider_used = none;
  providers_tried = [];
  verified_found = false;
  error = none;
}

abbrev pub contact_owner : ContactRow → ℕ
contact_owner c = c.company_id

-- The email of a contact in lower case, if it has one.
abbrev pub email_key : (String → String) → ContactRow → Option String
email_key lower c = text_key lower c.email

-- The loop over the contacts, with the emails that exist, the number of rows added and the table.
unfoldable pub store_each :
    (String → String)
    → ℕ
    → List String
    → List ContactRow
    → ℕ × List ContactRow
    → ℕ × List ContactRow
store_each lower i existing [] s = s
store_each lower i existing (c ∷ cs) (added, rows) =
    let skipped = store_each lower i existing cs (added, rows) in
    let kept =
      store_each lower i (add_key (email_key lower c) existing) cs
        (suc added, rows ++ record c { company_id = i } ∷ []) in
    if is_taken (email_key lower c) existing then skipped else kept

unfoldable pub store_contacts :
    (String → String) → ℕ → List ContactRow → List ContactRow → ℕ × List ContactRow
store_contacts lower i contacts rows =
    store_each lower i (keys_of contact_owner (email_key lower) i rows) contacts (0, rows)

unfoldable pub try_provider : Env → Source → String → ℕ → List ContactRow → Option (List ContactRow)
try_provider env Source.hunter domain i rows = try_hunter env domain
try_provider env Source.gemini domain i rows = try_gemini env domain i rows
try_provider env Source.scrapin domain i rows = try_scrapin env domain
try_provider env Source.scraped_content domain i rows = try_scraped_content env domain i

abbrev pub is_configured : Env → Source → Bool
is_configured env Source.hunter = is_some env.hunter
is_configured env Source.gemini = is_some env.gemini
is_configured env Source.scrapin = is_some env.scrapin
is_configured env Source.scraped_content = is_some env.llm

abbrev pub is_verified : Option EmailStatus → Bool
is_verified (some EmailStatus.verified) = true
is_verified _ = false

-- A verified contact whose title is a target.
abbrev pub has_verified : Env → List ContactRow → Bool
has_verified env contacts = any (λ c. is_verified c.email_status && is_target env c.title) contacts

abbrev pub or_first : Option Source → Source → Option Source
or_first none p = some p
or_first (some q) p = some q

abbrev pub try_it : Source → EnrichmentResult → EnrichmentResult
try_it p r = record r { providers_tried = r.providers_tried ++ p ∷ [] }

-- What the waterfall does with the contacts of a provider: nothing when the call has failed, was too
-- late or returned none.
unfoldable pub take_contacts :
    Env
    → Source
    → ℕ
    → Option (List ContactRow)
    → EnrichmentResult × List ContactRow
    → EnrichmentResult × List ContactRow
take_contacts env p i none s = s
take_contacts env p i (some []) s = s
take_contacts env p i (some (c ∷ cs)) (r, rows) =
    let (added, rows') = store_contacts env.texts.lower i (c ∷ cs) rows in
    (
      record r {
        contacts_added = r.contacts_added + added;
        provider_used = or_first r.provider_used p;
        verified_found = r.verified_found || has_verified env (c ∷ cs);
      },
      rows',
    )

unfoldable pub run_provider :
    Env
    → Source
    → ℕ
    → String
    → EnrichmentResult × List ContactRow
    → EnrichmentResult × List ContactRow
run_provider env p i domain (r, rows) =
    take_contacts env p i (if env.on_time p then try_provider env p domain i rows else none)
      (try_it p r, rows)

abbrev pub enrichment_timeout : ℕ
enrichment_timeout = 60

-- `_remaining()`, which is at least 0.
abbrev pub remaining : Env → Source → ℕ
remaining env p = enrichment_timeout - env.elapsed p

unfoldable pub run_providers :
    Env
    → ℕ
    → String
    → List (Source × Bool)
    → EnrichmentResult × List ContactRow
    → EnrichmentResult × List ContactRow
run_providers env i domain [] s = s
run_providers env i domain ((p, always_run) ∷ ps) s =
    let skipped = run_providers env i domain ps s in
    let tried = run_providers env i domain ps (run_provider env p i domain s) in
    if not (is_configured env p)
    then skipped
    else if s.0.verified_found && not always_run
    then skipped
    else if leb (remaining env p) 0
    then s
    else tried

abbrev pub providers : List (Source × Bool)
providers =
    (Source.hunter, false)
    ∷ (Source.gemini, true)
    ∷ (Source.scrapin, false)
    ∷ (Source.scraped_content, false)
    ∷ []

unfoldable pub run_contact_waterfall :
    Env → ℕ → String → EnrichmentResult × List ContactRow → EnrichmentResult × List ContactRow
run_contact_waterfall env i domain s = run_providers env i domain providers s

unfoldable pub enrich_company :
    Env → ℕ → List Company → List ContactRow → EnrichmentResult × List ContactRow
enrich_company env i companies rows = elim (company_by_id i companies) [
  | none ↦ (record (new_result i) { error = some company_not_found }, rows)
  | some company ↦
      if str_eq company.domain ""
      then (record (new_result i) { error = some no_domain }, rows)
      else run_contact_waterfall env i company.domain (new_result i, rows)
]

pub record BatchEnrichmentResult : Type 0 where
  pub total : ℕ
  pub enriched : ℕ
  pub failed : ℕ
  pub results : List EnrichmentResult

-- What `gather` returns for a company: a result, or an exception.
pub data Gathered : Type 0 where
  returned : EnrichmentResult → Gathered
  raised : String → Gathered

abbrev pub result_of : Gathered → EnrichmentResult
result_of (returned r) = r
result_of (raised text) = record (new_result 0) { error = some (exception_text text) }

unfoldable pub count_result : Gathered → BatchEnrichmentResult → BatchEnrichmentResult
count_result (raised text) batch = record batch {
  failed = suc batch.failed;
  results = batch.results ++ result_of (raised text) ∷ [];
}
count_result (returned r) batch =
    let listed = record batch { results = batch.results ++ r ∷ [] } in
    if is_some r.error
    then record listed { failed = suc batch.failed }
    else if ltb 0 r.contacts_added
    then record listed { enriched = suc batch.enriched }
    else listed

unfoldable pub count_results : List Gathered → BatchEnrichmentResult → BatchEnrichmentResult
count_results [] batch = batch
count_results (g ∷ gs) batch = count_results gs (count_result g batch)

unfoldable pub enrich_batch : (ℕ → Gathered) → List ℕ → BatchEnrichmentResult
enrich_batch enrich_one company_ids =
    count_results (map enrich_one company_ids)
      (record { total = length company_ids; enriched = 0; failed = 0; results = [] })
