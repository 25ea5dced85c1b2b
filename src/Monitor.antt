-- ===== src/Monitor.antt =====
-- backend/app/services/signal_monitor.py: reading a company's pages and seeing which have changed.
pub mod Fragments
pub mod Urls
pub mod Selection
pub mod Counts
pub mod Repeat
use sales_lead_gen.Base.{
  ℕ, zero, suc, ◌+◌, ◌-◌, ◌*◌, ◌/◌, ◌%◌, ◌^◌, ◌≤◌, ◌<◌, min, max, String, ◌≡◌, refl, sym, ap, ◌∙◌,
  subst, ◌≢◌, ◌↔◌, ◌⊎◌, inl, inr, Bool, true, false, not, ◌&&◌, ◌||◌, Option, none, some, List, [],
  ◌∷◌, ◌++◌, map, arith, str_eq, eq_iff, ltb, leb, ◌==◌, if◌then◌else◌, ==_iff, Bool-cases,
  Option-cases, is_some, length, length-append, select, any, find, All, All-append,
}
use Prim.Native.String.{count}
use sales_lead_gen.Texts.{str_append}
use sales_lead_gen.Models.{CompanyStatus, Company, company_by_id, is_archived}
use sales_lead_gen.Dedup.Rows.{contains}
use sales_lead_gen.Monitor.Urls.{UrlTexts, take, select_intel_urls, fallback_intel_paths}

-- An entry of Redis under `content_hash:{company_id}:{url}`, with the time at which it expires.
pub record CachedHash : Type 0 where
  pub company_id : ℕ
  pub url : String
  pub content_hash : String
  pub expires_at : ℕ

-- Ninety days, in seconds.
abbrev pub hash_ttl : ℕ
hash_ttl = 90 * 24 * 3600

unfoldable pub cached_entry : ℕ → String → List CachedHash → Option CachedHash
cached_entry i url [] = none
cached_entry i url (e ∷ es) =
    let rest = cached_entry i url es in
    if (e.company_id == i) && str_eq e.url url then some e else rest

abbrev pub alive_hash : ℕ → Option CachedHash → Option String
alive_hash now none = none
alive_hash now (some e) = if ltb now e.expires_at then some e.content_hash else none

-- What the service is set to, and what lies outside: the site map and the pages, where `none` is an
-- exception and a page may have no text, Redis, and the libraries.
pub record Env : Type 0 where
  pub urls : UrlTexts
  pub additional_seed_paths : List String
  pub max_scrape_urls : ℕ
  pub map_site : String → Option (List String)
  pub scrape : String → Option (Option String)
  -- Whether Redis answers
  pub redis_up : Bool
  -- `_content_hash`: `sha256` of the text with its blanks joined
  pub sha256 : String → String
  pub join_blanks : String → String
  -- `urljoin(base + "/", path.lstrip("/"))`, and the parser of `robots.txt`
  pub url_join : String → String → String
  pub can_fetch : String → String → Bool

-- The clock of a run: at each page, the seconds since the start, and the time.
pub record Clock : Type 0 where
  pub elapsed : ℕ → ℕ
  pub now : ℕ → ℕ

unfoldable pub content_hash : Env → String → String
content_hash env content = env.sha256 (env.join_blanks content)

unfoldable pub get_cached_hash : Env → ℕ → ℕ → String → List CachedHash → Option String
get_cached_hash env now i url redis =
    if env.redis_up then alive_hash now (cached_entry i url redis) else none

unfoldable pub set_cached_hash : Env → ℕ → ℕ → String → String → List CachedHash → List CachedHash
set_cached_hash env now i url hash redis =
    if env.redis_up
    then record { company_id = i; url = url; content_hash = hash; expires_at = now + hash_ttl }
      ∷ redis
    else redis

pub data MonitorError : Type 0 where
  not_found_or_archived timeout : MonitorError

-- Credits are counted in whole calls.
pub record MonitorResult : Type 0 where
  pub company_domain : String
  pub pages_scraped : ℕ
  pub pages_changed : ℕ
  pub pages_skipped : ℕ
  pub pages_failed : ℕ
  pub signals_created : ℕ
  pub credits_used : ℕ
  pub error : Option MonitorError

abbrev pub new_result : String → MonitorResult
new_result domain = record {
  company_domain = domain;
  pages_scraped = 0;
  pages_changed = 0;
  pages_skipped = 0;
  pages_failed = 0;
  signals_created = 0;
  credits_used = 0;
  error = none;
}

-- The text of a page, if it has one that is long enough.
abbrev pub is_content : Env → String → Bool
is_content env markdown = not (str_eq markdown "") && leb 50 (count (env.urls.texts.strip markdown))

unfoldable pub content_of : Env → Option String → Option String
content_of env none = none
content_of env (some markdown) = if is_content env markdown then some markdown else none

-- `_fetch_robots_txt`: the text of `robots.txt`, if it can be read and is not empty.
unfoldable pub fetch_robots_txt : Env → String → Option String
fetch_robots_txt env base_url = elim (env.scrape (str_append base_url "/robots.txt")) [
  | none ↦ none
  | some none ↦ none
  | some (some markdown) ↦ if str_eq markdown "" then none else some markdown
]

abbrev pub is_allowed : Env → Option String → String → Bool
is_allowed env none url = true
is_allowed env (some robots) url = env.can_fetch robots url

abbrev pub skip_page : MonitorResult → MonitorResult
skip_page r = record r { pages_skipped = suc r.pages_skipped }

abbrev pub fail_page : MonitorResult → MonitorResult
fail_page r = record r { pages_failed = suc r.pages_failed }

abbrev pub scrape_page : MonitorResult → MonitorResult
scrape_page r = record r { pages_scraped = suc r.pages_scraped; credits_used = suc r.credits_used }

abbrev pub change_page : MonitorResult → MonitorResult
change_page r = record r { pages_changed = suc r.pages_changed }

abbrev pub same_hash : String → Option String → Bool
same_hash new none = false
same_hash new (some old) = str_eq old new

-- The change detection on a page's text.
unfoldable pub compare_page :
    Env
    → ℕ
    → ℕ
    → String
    → Option String
    → MonitorResult × List CachedHash
    → MonitorResult × List CachedHash
compare_page env now i url none (r, redis) = (skip_page r, redis)
compare_page env now i url (some markdown) (r, redis) =
    if same_hash (content_hash env markdown) (get_cached_hash env now i url redis)
    then (r, redis)
    else (change_page r, set_cached_hash env now i url (content_hash env markdown) redis)

-- One page, from the check of `robots.txt` on.
unfoldable pub read_page :
    Env
    → Option String
    → ℕ
    → ℕ
    → String
    → MonitorResult × List CachedHash
    → MonitorResult × List CachedHash
read_page env robots now i url (r, redis) =
    if not (is_allowed env robots url) then (skip_page r, redis) else elim (env.scrape url) [
      | none ↦ (fail_page r, redis)
      | some markdown ↦ compare_page env now i url (content_of env markdown) (scrape_page r, redis)
    ]

abbrev pub max_runtime : ℕ
max_runtime = 300

-- The loop over the pages, from page `n` on.
unfoldable pub read_pages :
    Env
    → Clock
    → Option String
    → ℕ
    → ℕ
    → List String
    → MonitorResult × List CachedHash
    → MonitorResult × List CachedHash
read_pages env clock robots i n [] s = s
read_pages env clock robots i n (url ∷ rest) s =
    let more =
      read_pages env clock robots i (suc n) rest (read_page env robots (clock.now n) i url s) in
    if ltb max_runtime (clock.elapsed n) then (record (s.0) { error = some timeout }, s.1) else more

-- The additional paths that are not yet there.
unfoldable pub add_seeds : Env → String → List String → List String → List String
add_seeds env base_url [] targets = targets
add_seeds env base_url (p ∷ ps) targets =
    let u = env.url_join base_url p in
    add_seeds env base_url ps (if contains u targets then targets else targets ++ u ∷ [])

abbrev pub or_fallback : Env → String → List String → List String
or_fallback env base_url [] = map (env.url_join base_url) fallback_intel_paths
or_fallback env base_url (t ∷ ts) = t ∷ ts

-- The pages of the site map, with the limits of `select_intel_urls` for news and vacancies.
unfoldable pub mapped_urls : Env → String → Option (List String) → List String
mapped_urls env domain none = []
mapped_urls env domain (some links) =
    (select_intel_urls env.urls links domain 14 10 env.max_scrape_urls).0

unfoldable pub targets_of : Env → String → String → List String
targets_of env domain base_url = take env.max_scrape_urls (
    add_seeds env base_url env.additional_seed_paths
      (or_fallback env base_url (mapped_urls env domain (env.map_site base_url))))

abbrev pub map_credits : Option (List String) → ℕ
map_credits none = 0
map_credits (some links) = 1

pub data ScrapeJobStatus : Type 0 where
  completed failed : ScrapeJobStatus

-- The row that tracks the run, as it is finalised.
pub record ScrapeRun : Type 0 where
  pub company_id : ℕ
  pub status : ScrapeJobStatus
  pub pages_scraped : ℕ
  pub credits_used : ℕ
  pub error_message : Option MonitorError

abbrev pub status_of : Option MonitorError → ScrapeJobStatus
status_of none = completed
status_of (some e) = failed

unfoldable pub finalize : ℕ → MonitorResult → ScrapeRun
finalize i r = record {
  company_id = i;
  status = status_of r.error;
  pages_scraped = r.pages_scraped;
  credits_used = r.credits_used;
  error_message = r.error;
}

-- The run for a company that is there and not archived.
unfoldable pub monitor_site :
    Env → Clock → Company → List CachedHash → MonitorResult × List CachedHash
monitor_site env clock c redis =
    let base_url = str_append "https://" c.domain in
    read_pages env clock (fetch_robots_txt env base_url) c.id 0 (targets_of env c.domain base_url)
      (record (new_result c.domain) { credits_used = map_credits (env.map_site base_url) }, redis)

-- `monitor_company`: the result, the hashes, and the row if there is one.
unfoldable pub monitor_company :
    Env
    → Clock
    → ℕ
    → List Company
    → List CachedHash
    → MonitorResult × List CachedHash × Option ScrapeRun
monitor_company env clock i companies redis = elim (company_by_id i companies) [
  | none ↦ (record (new_result "") { error = some not_found_or_archived }, redis, none)
  | some c ↦
      if is_archived c.status
      then (record (new_result "") { error = some not_found_or_archived }, redis, none)
      else let (r, redis') = monitor_site env clock c redis in (r, redis', some (finalize i r))
]
