-- ===== src/Dedup.antt =====
-- backend/app/services/deduplication.py: merging two companies.
pub mod Rows
pub mod Keys
pub mod Reassign
pub mod Merge
pub mod Scan
use sales_lead_gen.Base.{
  ℕ, zero, suc, ◌+◌, ◌-◌, ◌*◌, ◌/◌, ◌%◌, ◌^◌, ◌≤◌, ◌<◌, min, max, String, ◌≡◌, refl, sym, ap, ◌∙◌,
  subst, ◌≢◌, ◌↔◌, ◌⊎◌, inl, inr, Bool, true, false, not, ◌&&◌, ◌||◌, Option, none, some, List, [],
  ◌∷◌, ◌++◌, map, arith, str_eq, eq_iff, ltb, leb, ◌==◌, if◌then◌else◌, ==_iff, Bool-cases,
  Option-cases, is_some, length, length-append, select, any, find, All,
}
use sales_lead_gen.Models.{Company, Contact, Signal, ScrapeJob, EnrichmentJob, company_by_id}
use sales_lead_gen.Dedup.Rows.{keys_of, reassign}

-- The tables with a foreign key to companies that a merge touches.
pub record Tables : Type 0 where
  pub companies : List Company
  pub contacts : List Contact
  pub signals : List Signal
  pub scrape_jobs : List ScrapeJob
  pub enrichment_jobs : List EnrichmentJob

-- The three `ValueError`s.
pub data MergeError : Type 0 where
  same_company primary_not_found duplicate_not_found : MergeError

pub data Merged : Type 0 where
  merged : Company → Tables → Merged
  raised : MergeError → Merged

-- A text that is there and not empty: what Python takes for true.
abbrev pub if_text : Option String → Option String
if_text none = none
if_text (some t) = if str_eq t "" then none else some t

abbrev pub map_text : (String → String) → Option String → Option String
map_text f none = none
map_text f (some t) = some (f t)

-- `contact.email.lower()` of a contact with an email.
unfoldable pub email_key : (String → String) → Contact → Option String
email_key lower c = map_text lower (if_text c.email)

unfoldable pub hash_key : Signal → Option String
hash_key s = if_text s.raw_content_hash

abbrev pub contact_owner : Contact → ℕ
contact_owner c = c.company_id

abbrev pub signal_owner : Signal → ℕ
signal_owner s = s.company_id

unfoldable pub move_contact : ℕ → Contact → Contact
move_contact i c = record c { company_id = i }

unfoldable pub move_signal : ℕ → Signal → Signal
move_signal i s = record s { company_id = i }

unfoldable pub merge_contacts : (String → String) → ℕ → ℕ → List Contact → List Contact
merge_contacts lower primary duplicate cs =
    reassign contact_owner move_contact (email_key lower) primary duplicate
      (keys_of contact_owner (email_key lower) primary cs) cs

unfoldable pub merge_signals : ℕ → ℕ → List Signal → List Signal
merge_signals primary duplicate ss =
    reassign signal_owner move_signal hash_key primary duplicate
      (keys_of signal_owner hash_key primary ss) ss

-- `UPDATE scrape_jobs SET company_id = primary WHERE company_id = duplicate`
unfoldable pub merge_scrape_jobs : ℕ → ℕ → List ScrapeJob → List ScrapeJob
merge_scrape_jobs primary duplicate [] = []
merge_scrape_jobs primary duplicate (j ∷ js) =
    (if j.company_id == duplicate then record j { company_id = primary } else j)
    ∷ merge_scrape_jobs primary duplicate js

unfoldable pub delete_company : ℕ → List Company → List Company
delete_company i = select (λ (c : Company). not (c.id == i))

-- `ON DELETE CASCADE`
unfoldable pub cascade_enrichment_jobs : ℕ → List EnrichmentJob → List EnrichmentJob
cascade_enrichment_jobs i = select (λ (j : EnrichmentJob). not (j.company_id == i))

unfoldable pub merge_tables : (String → String) → ℕ → ℕ → Tables → Tables
unfolding merge_contacts merge_signals merge_scrape_jobs delete_company cascade_enrichment_jobs
merge_tables lower primary duplicate t = record {
  companies = delete_company duplicate t.companies;
  contacts = merge_contacts lower primary duplicate t.contacts;
  signals = merge_signals primary duplicate t.signals;
  scrape_jobs = merge_scrape_jobs primary duplicate t.scrape_jobs;
  enrichment_jobs = cascade_enrichment_jobs duplicate t.enrichment_jobs;
}

-- `lower` is `str.lower`.
unfoldable pub merge_companies : (String → String) → ℕ → ℕ → Tables → Merged
merge_companies lower primary_id duplicate_id t =
    if primary_id == duplicate_id
    then raised same_company
    else elim (company_by_id primary_id t.companies) [
      | none ↦ raised primary_not_found
      | some primary ↦ elim (company_by_id duplicate_id t.companies) [
        | none ↦ raised duplicate_not_found
        | some _ ↦ merged primary (merge_tables lower primary_id duplicate_id t)
      ]
    ]
