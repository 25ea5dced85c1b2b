-- ===== src/Tests/Waterfall.antt =====
-- Enrichments at concrete providers.
use sales_lead_gen.Base.{String, ◌≡◌, refl, arith, true, none, some, [], ◌∷◌}
use sales_lead_gen.Models.{CompanyStatus, EmailStatus, Company}
use sales_lead_gen.Dedup.Keys.{IsDistinct}
use sales_lead_gen.Enrichment.Contacts.{
  hunter, gemini, VerificationStatus, HunterEmail, ExtractedContact, Env, Hunter, ContactRow,
  existing_emails, existing_names, title_matches, verify_email, try_hunter, try_scrapin,
  cached_page, combine, get_cached_content, load_existing_contacts, supplement, try_gemini,
  try_scraped_content,
}
use sales_lead_gen.Enrichment.{
  new_result, store_each, store_contacts, try_provider, take_contacts, run_provider, run_providers,
  run_contact_waterfall, enrich_company,
}
use sales_lead_gen.Enrichment.Storage.{IsGrown, emails_of}
use sales_lead_gen.Enrichment.Emails.{HaveEmails, enrich_company-HaveEmails}
use sales_lead_gen.Enrichment.Supplement.{IsSupplement, try_gemini-IsSupplement}
use sales_lead_gen.Enrichment.Waterfall.{enrich_company_adds}
use sales_lead_gen.Enrichment.Hits.{run_contact_waterfall_stops}
use sales_lead_gen.Dedup.Rows.{keys_of, contains}
use sales_lead_gen.Tests.Runs.{plain}

abbrev address : String → HunterEmail
address value = record {
  value = value;
  first_name = some "Jan";
  last_name = none;
  position = some "CTO";
  confidence = 95;
  linkedin = none;
  phone_number = none;
}

abbrev named : String → String → ExtractedContact
named name email = record {
  name = name;
  title = none;
  email = some email;
  linkedin_url = none;
  is_decision_maker = true;
}

-- What Hunter finds.
abbrev client : Hunter
client = record {
  domain_search = λ domain. some (address "jan@acme.nl" ∷ address "jan@acme.nl" ∷ []);
  verify_email = λ email. some VerificationStatus.deliverable;
}

-- Hunter has one verified target, and Gemini finds it again and another contact.
abbrev env : Env
env = record {
  texts = plain;
  before_at = λ t. t;
  target_titles = "CTO" ∷ [];
  hunter = some client;
  gemini = some (λ known content.
      some
        (named "Jan" "jan@acme.nl" ∷ named "Eva" "eva@acme.nl" ∷ named "Eva" "eva@acme.nl" ∷ []));
  scrapin = some (λ domain. none);
  llm = none;
  signal_pages = none;
  elapsed = λ p. 5;
  on_time = λ p. true;
}

abbrev acme : Company
acme = record {
  id = 3;
  name = "Acme";
  domain = "acme.nl";
  status = CompanyStatus.monitoring;
  slack_notified_at = none;
}

no_emails : IsDistinct (emails_of (λ x. x) 3 [])
unfolding keys_of
no_emails = tt

enrich_company_adds_example :
    (let t = enrich_company env 3 (acme ∷ []) [] in
      IsGrown (λ x. x) 3 (0, []) (t.0.contacts_added, t.1) × IsDistinct (emails_of (λ x. x) 3 t.1))
enrich_company_adds_example = enrich_company_adds env 3 (acme ∷ []) [] no_emails

run_contact_waterfall_stops_example :
    (let r = (run_contact_waterfall env 3 "acme.nl" (new_result 3, [])).0 in
      (r.verified_found ≡ true)
      × (r.provider_used ≡ some hunter)
      × (r.providers_tried ≡ hunter ∷ gemini ∷ []))
unfolding title_matches
run_contact_waterfall_stops_example =
    run_contact_waterfall_stops env client 3 "acme.nl" (address "jan@acme.nl" ∷ []) []
      (address "jan@acme.nl") [] refl refl
      record {
        title = "CTO";
        has_email = refl;
        has_title = refl;
        not_blank = refl;
        matching = refl;
        confident = omega arith;
      }
      (omega arith) refl

abbrev found : String → String → ContactRow
found name email = record {
  company_id = 0;
  name = name;
  title = none;
  email = some email;
  email_status = some EmailStatus.verified;
  phone = none;
  linkedin_url = none;
  source = gemini;
  confidence_score = 60;
}

gemini_finds :
    try_gemini env "acme.nl" 3 []
    ≡ some (found "Jan" "jan@acme.nl" ∷ found "Eva" "eva@acme.nl" ∷ [])
unfolding title_matches verify_email try_hunter try_scrapin cached_page combine get_cached_content
    load_existing_contacts supplement try_gemini try_scraped_content store_each store_contacts
    try_provider take_contacts run_provider run_providers run_contact_waterfall enrich_company
    keys_of contains
gemini_finds = refl

try_gemini-IsSupplement_example :
    IsSupplement env
      (existing_emails env (load_existing_contacts 3 []))
      (existing_names env (load_existing_contacts 3 []))
      (found "Jan" "jan@acme.nl" ∷ found "Eva" "eva@acme.nl" ∷ [])
try_gemini-IsSupplement_example =
    try_gemini-IsSupplement env "acme.nl" 3 []
      (found "Jan" "jan@acme.nl" ∷ found "Eva" "eva@acme.nl" ∷ []) gemini_finds

enrich_company-HaveEmails_example :
    HaveEmails (enrich_company env 3 (acme ∷ []) (found "Eva" "eva@acme.nl" ∷ [])).1
enrich_company-HaveEmails_example =
    enrich_company-HaveEmails env 3 (acme ∷ []) (found "Eva" "eva@acme.nl" ∷ []) (refl, tt)
