-- ===== src/Enrichment/Contacts.antt =====
-- backend/app/services/enrichment.py: the contacts that each provider of the waterfall contributes.
use sales_lead_gen.Base.{
  ℕ, String, Bool, false, not, ◌&&◌, ◌||◌, Option, none, some, List, [], ◌∷◌, map, str_eq, leb,
  ◌==◌, if◌then◌else◌, select, any,
}
use Prim.Native.String.{count}
use sales_lead_gen.Models.{EmailStatus}
use sales_lead_gen.Texts.{Texts, or_text, str_append}
use sales_lead_gen.Dedup.Rows.{add_key, is_taken}

pub data Source : Type 0 where
  hunter gemini scrapin scraped_content : Source

-- A row of the table of contacts. A score is in hundredths.
pub record ContactRow : Type 0 where
  pub company_id : ℕ
  pub name : String
  pub title : Option String
  pub email : Option String
  pub email_status : Option EmailStatus
  pub phone : Option String
  pub linkedin_url : Option String
  pub source : Source
  pub confidence_score : ℕ

pub data VerificationStatus : Type 0 where
  deliverable risky undeliverable unknown : VerificationStatus

pub record HunterEmail : Type 0 where
  pub value : String
  pub first_name : Option String
  pub last_name : Option String
  pub position : Option String
  pub confidence : ℕ
  pub linkedin : Option String
  pub phone_number : Option String

pub record ScrapInContact : Type 0 where
  pub display_name : String
  pub title : Option String
  pub email : Option String
  pub phone : Option String
  pub linkedin_url : Option String
  pub confidence : ℕ

pub record ExtractedContact : Type 0 where
  pub name : String
  pub title : Option String
  pub email : Option String
  pub linkedin_url : Option String
  pub is_decision_maker : Bool

-- A contact as `_load_existing_contacts` hands it to the prompt.
pub record KnownContact : Type 0 where
  pub name : String
  pub title : Option String
  pub email : Option String
  pub linkedin_url : Option String
  pub source : Source

-- A page that a signal holds.
pub record SignalPage : Type 0 where
  pub company_id : ℕ
  pub source_url : String
  pub raw_markdown : Option String

-- The clients, where `none` is an exception.
pub record Hunter : Type 0 where
  pub domain_search : String → Option (List HunterEmail)
  pub verify_email : String → Option VerificationStatus

pub record Env : Type 0 where
  pub texts : Texts
  -- `value.split("@")[0]`
  pub before_at : String → String
  pub target_titles : List String
  pub hunter : Option Hunter
  pub gemini : Option (List KnownContact → String → Option (List ExtractedContact))
  pub scrapin : Option (String → Option (List ScrapInContact))
  pub llm : Option (String → Option (List ExtractedContact))
  -- The table of signals, or the exception of the session that reads it
  pub signal_pages : Option (List SignalPage)
  -- The seconds since the start, before each provider, and whether it returns in the time left
  pub elapsed : Source → ℕ
  pub on_time : Source → Bool

-- Whether a text is there and not empty.
abbrev pub is_text : Option String → Bool
is_text none = false
is_text (some t) = not (str_eq t "")

unfoldable pub title_matches : Env → String → Bool
title_matches env title =
    any (λ kw. env.texts.is_in kw (env.texts.lower title)) (map env.texts.lower env.target_titles)

abbrev pub is_target : Env → Option String → Bool
is_target env none = false
is_target env (some title) = not (str_eq title "") && title_matches env title

-- What a verification by Hunter comes to, of an email that counts as unverified.
abbrev pub status_of : Option VerificationStatus → EmailStatus
status_of (some VerificationStatus.deliverable) = EmailStatus.verified
status_of (some VerificationStatus.risky) = EmailStatus.catch_all
status_of _ = EmailStatus.unverified

unfoldable pub verify_email : Env → String → EmailStatus
verify_email env email = elim env.hunter [
  | none ↦ EmailStatus.unverified
  | some client ↦ status_of (client.verify_email email)
]

abbrev pub full_name : Env → HunterEmail → String
full_name env e =
    env.texts.join " " (map (λ o. or_text o "") (select is_text (e.first_name ∷ e.last_name ∷ [])))

abbrev pub hunter_status : Hunter → HunterEmail → EmailStatus
hunter_status client e =
    if leb 90 e.confidence
    then EmailStatus.verified
    else if leb 70 e.confidence
    then status_of (client.verify_email e.value)
    else EmailStatus.unverified

abbrev pub hunter_contact : Env → Hunter → HunterEmail → ContactRow
hunter_contact env client e = record {
  company_id = 0;
  name = or_text (some (full_name env e)) (env.before_at e.value);
  title = e.position;
  email = some e.value;
  email_status = some (hunter_status client e);
  phone = e.phone_number;
  linkedin_url = e.linkedin;
  source = Source.hunter;
  confidence_score = e.confidence;
}

-- An email that is empty, or of a known position that is no target, is left out.
abbrev pub is_hunted : Env → HunterEmail → Bool
is_hunted env e = not (str_eq e.value "") && (not (is_text e.position) || is_target env e.position)

unfoldable pub try_hunter : Env → String → Option (List ContactRow)
try_hunter env domain = elim env.hunter [
  | none ↦ none
  | some client ↦ elim (client.domain_search domain) [
    | none ↦ none
    | some results ↦ some (map (hunter_contact env client) (select (is_hunted env) results))
  ]
]

abbrev pub scrapin_status : Option String → Option EmailStatus
scrapin_status email = if is_text email then some EmailStatus.unverified else none

abbrev pub scrapin_contact : ScrapInContact → ContactRow
scrapin_contact c = record {
  company_id = 0;
  name = c.display_name;
  title = c.title;
  email = c.email;
  email_status = scrapin_status c.email;
  phone = c.phone;
  linkedin_url = c.linkedin_url;
  source = Source.scrapin;
  confidence_score = c.confidence;
}

unfoldable pub try_scrapin : Env → String → Option (List ContactRow)
try_scrapin env domain = elim env.scrapin [
  | none ↦ none
  | some find_contacts ↦ elim (find_contacts domain) [
    | none ↦ none
    | some results ↦
        some (map scrapin_contact (select (λ c. not (str_eq c.display_name "")) results))
  ]
]

-- The page that the dictionary `cached` holds for a url: the last one.
unfoldable pub cached_page : Env → String → List SignalPage → Option String
cached_page env url [] = none
cached_page env url (p ∷ ps) = elim (cached_page env url ps) [
  | some later ↦ some later
  | none ↦ elim p.raw_markdown [
    | none ↦ none
    | some markdown ↦
        if str_eq p.source_url url && leb 50 (count (env.texts.strip markdown))
        then some markdown
        else none
  ]
]

abbrev pub pages_of : ℕ → Option (List SignalPage) → List SignalPage
pages_of i none = []
pages_of i (some pages) = select (λ p. p.company_id == i) pages

abbrev pub page_block : String → Option String → String
page_block url none = ""
page_block url (some md) =
    if str_eq md "" then "" else str_append "\n\n--- " (str_append url (str_append " ---\n\n" md))

unfoldable pub combine : Env → List SignalPage → List String → String
combine env pages [] = ""
combine env pages (url ∷ urls) =
    str_append (page_block url (cached_page env url pages)) (combine env pages urls)

abbrev pub team_paths : List String
team_paths = "/about" ∷ "/team" ∷ "/leadership" ∷ "/management" ∷ "/people" ∷ []

unfoldable pub get_cached_content : Env → String → ℕ → String
get_cached_content env domain i =
    combine env (pages_of i env.signal_pages)
      (map (λ path. str_append "https://" (str_append domain path)) team_paths)

abbrev pub known_contact : ContactRow → KnownContact
known_contact c = record {
  name = c.name;
  title = c.title;
  email = c.email;
  linkedin_url = c.linkedin_url;
  source = c.source;
}

unfoldable pub load_existing_contacts : ℕ → List ContactRow → List KnownContact
load_existing_contacts i rows = map known_contact (select (λ c. c.company_id == i) rows)

-- An email in lower case, and a name in lower case without its blanks, where there is one.
abbrev pub text_key : (String → String) → Option String → Option String
text_key f none = none
text_key f (some t) = if str_eq t "" then none else some (f t)

abbrev pub name_key : Env → String → Option String
name_key env name = text_key (λ t. t) (some (env.texts.strip (env.texts.lower name)))

abbrev pub keys : List (Option String) → List String
keys [] = []
keys (none ∷ os) = keys os
keys (some k ∷ os) = k ∷ keys os

abbrev pub existing_emails : Env → List KnownContact → List String
existing_emails env known = keys (map (λ c. text_key env.texts.lower c.email) known)

abbrev pub existing_names : Env → List KnownContact → List String
existing_names env known =
    keys (map (λ c. text_key (λ t. env.texts.strip (env.texts.lower t)) (some c.name)) known)

abbrev pub gemini_status : Env → Option String → Option EmailStatus
gemini_status env none = none
gemini_status env (some email) = if str_eq email "" then none else some (verify_email env email)

abbrev pub gemini_contact : Env → ExtractedContact → ContactRow
gemini_contact env ec = record {
  company_id = 0;
  name = ec.name;
  title = ec.title;
  email = ec.email;
  email_status = gemini_status env ec.email;
  phone = none;
  linkedin_url = ec.linkedin_url;
  source = Source.gemini;
  confidence_score = if ec.is_decision_maker then 60 else 40;
}

-- The loop over what the model returns, with the emails and names that are known so far.
unfoldable pub supplement :
    Env → List String → List String → List ExtractedContact → List ContactRow
supplement env emails names [] = []
supplement env emails names (ec ∷ rest) =
    let email_key = text_key env.texts.lower ec.email in
    let skipped = supplement env emails names rest in
    let kept =
      gemini_contact env ec
      ∷ supplement env (add_key email_key emails) (add_key (name_key env ec.name) names) rest in
    if str_eq ec.name ""
    then skipped
    else if is_taken email_key emails
    then skipped
    else if is_taken (name_key env ec.name) names
    then skipped
    else if not (ec.is_decision_maker || is_target env ec.title)
    then skipped
    else kept

-- The contacts that are new, of those that the model returns; none when its call fails.
abbrev pub supplements : Env → List KnownContact → Option (List ExtractedContact) → List ContactRow
supplements env known none = []
supplements env known (some extracted) =
    supplement env (existing_emails env known) (existing_names env known) extracted

unfoldable pub try_gemini : Env → String → ℕ → List ContactRow → Option (List ContactRow)
try_gemini env domain i rows = elim env.gemini [
  | none ↦ none
  | some find_contacts_with_context ↦
      let known = load_existing_contacts i rows in
      some
        (supplements env known (find_contacts_with_context known (get_cached_content env domain i)))
]

-- The contact of a page, with the verification of its email.
abbrev pub scraped_contact : Env → ExtractedContact → ContactRow
scraped_contact env ec = record {
  company_id = 0;
  name = ec.name;
  title = ec.title;
  email = ec.email;
  email_status = gemini_status env ec.email;
  phone = none;
  linkedin_url = ec.linkedin_url;
  source = Source.scraped_content;
  confidence_score = 50;
}

abbrev pub is_extracted : Env → ExtractedContact → Bool
is_extracted env ec = not (str_eq ec.name "") && (not (is_text ec.title) || is_target env ec.title)

unfoldable pub try_scraped_content : Env → String → ℕ → Option (List ContactRow)
try_scraped_content env domain i = elim env.llm [
  | none ↦ none
  | some extract_contacts ↦
      let content = get_cached_content env domain i in
      if str_eq (env.texts.strip content) "" then some [] else elim (extract_contacts content) [
        | none ↦ some []
        | some extracted ↦ some (map (scraped_contact env) (select (is_extracted env) extracted))
      ]
]
