-- ===== src/Tests/Monitors.antt =====
-- Runs of the monitor at a concrete site.
use sales_lead_gen.Base.{
  ◌⊎◌, ℕ, ◌+◌, ◌*◌, ◌≤◌, String, ◌≡◌, refl, true, false, none, some, List, [], ◌∷◌, arith, str_eq,
  if◌then◌else◌, length, All,
}
use sales_lead_gen.Models.{CompanyStatus, Company}
use sales_lead_gen.Texts.{Texts, str_append}
use sales_lead_gen.Dedup.Keys.{IsDistinct}
use sales_lead_gen.Dedup.Rows.{contains}
use sales_lead_gen.Monitor.Urls.{
  UrlTexts, normalize_host, url_matches_domain, normalized_path, path_segments, segment_matches,
  fragment_hit, last_two, classify_leaf, classify_segments, classify_url, sort_known, sort_link,
  sort_links, merge_urls, select_intel_urls,
}
use sales_lead_gen.Monitor.Selection.{IsTarget, select_intel_urls_sound}
use sales_lead_gen.Monitor.{
  timeout, Env, Clock, map_credits, cached_entry, content_hash, get_cached_hash, set_cached_hash,
  content_of, fetch_robots_txt, compare_page, read_page, read_pages, add_seeds, mapped_urls,
  targets_of, monitor_site,
}
use sales_lead_gen.Monitor.Counts.{
  in_time, how_many, is_read, is_failing, is_forbidden, is_short, is_full, monitor_site_counts,
}
use sales_lead_gen.Monitor.Repeat.{AllAlive, monitor_site_repeat}

-- Texts of a site with one host.
abbrev texts : Texts
texts = record {
  lower = λ t. t;
  strip = λ t. t;
  is_in = λ part t. str_eq part t;
  before_slash = λ t. t;
  starts_with = λ part t. true;
  drop = λ n t. t;
  rstrip = λ part t. t;
  hostname = λ t. some "acme.nl";
  token_sort_ratio = λ a b. if str_eq a b then 100 else 20;
  decimal = λ n. "50";
  join = λ separator ts. "";
}

abbrev urls : UrlTexts
urls = record {
  texts = record texts { drop = λ n t. t };
  path = λ url.
      if str_eq url "https://acme.nl/jobs"
      then "/jobs"
      else if str_eq url "https://acme.nl/news"
      then "/news"
      else "/contact";
  ends_with = λ suffix t. false;
  drop_last = λ t. t;
  strip_slashes =
      λ t. if str_eq t "/jobs/" then "jobs" else if str_eq t "/news/" then "news" else t;
  split_slashes = λ t. t ∷ [];
  is_slug = λ t. false;
  is_digits = λ t. false;
}

abbrev links : List String
links =
    "https://acme.nl/jobs" ∷ "https://acme.nl/contact" ∷ "https://acme.nl/news"
    ∷ "https://acme.nl/jobs" ∷ []

abbrev env : Env
env = record {
  urls = urls;
  additional_seed_paths = "/jobs" ∷ [];
  max_scrape_urls = 5;
  map_site = λ base_url. some links;
  scrape = λ url.
      if str_eq url "https://acme.nl/robots.txt"
      then none
      else some (some "a page with a text that has fifty characters or somewhat more than that");
  redis_up = true;
  sha256 = λ t. t;
  join_blanks = λ t. t;
  url_join = λ base_url path. str_append base_url path;
  can_fetch = λ robots url. true;
}

abbrev clock : ℕ → Clock
clock start = record { elapsed = λ n. 10 * n; now = λ n. start }

abbrev acme : Company
acme = record {
  id = 3;
  name = "Acme";
  domain = "acme.nl";
  status = CompanyStatus.monitoring;
  slack_notified_at = none;
}

select_intel_urls_sound_example :
    (let (picked, stats) = select_intel_urls urls links "acme.nl" 14 10 5 in
      (length picked ≤ 5)
      × IsDistinct picked
      × All (IsTarget urls "acme.nl") picked
      × (stats.jobs_count + stats.news_count ≡ length picked))
select_intel_urls_sound_example = select_intel_urls_sound urls links "acme.nl" 14 10 5

monitor_site_counts_example :
    (let robots = fetch_robots_txt env "https://acme.nl" in
      let targets = targets_of env "acme.nl" "https://acme.nl" in
      let reached = in_time (clock 1000) 0 targets in
      let (r, redis') = monitor_site env (clock 1000) acme [] in
      (length targets ≤ 5)
      × ((reached ≡ targets) ⊎ (r.error ≡ some timeout))
      × (r.pages_scraped ≡ how_many (is_read env robots) reached)
      × (r.pages_failed ≡ how_many (is_failing env robots) reached)
      × (r.pages_skipped
          ≡ how_many (is_forbidden env robots) reached + how_many (is_short env robots) reached)
      × (r.pages_changed ≤ how_many (is_full env robots) reached)
      × (length redis' ≡ 0 + (if env.redis_up then r.pages_changed else 0))
      × (r.signals_created ≡ 0)
      × (r.credits_used ≡ map_credits (some links) + r.pages_scraped))
monitor_site_counts_example = monitor_site_counts env (clock 1000) acme []

first_run_ends : (monitor_site env (clock 1000) acme []).0.error ≡ none
unfolding cached_entry content_hash get_cached_hash set_cached_hash content_of fetch_robots_txt
    compare_page read_page read_pages add_seeds mapped_urls targets_of monitor_site normalize_host
    url_matches_domain normalized_path path_segments segment_matches fragment_hit last_two
    classify_leaf classify_segments classify_url sort_known sort_link sort_links merge_urls
    select_intel_urls contains
first_run_ends = refl

first_hashes_alive : AllAlive 2000 (monitor_site env (clock 1000) acme []).1
unfolding cached_entry content_hash get_cached_hash set_cached_hash content_of fetch_robots_txt
    compare_page read_page read_pages add_seeds mapped_urls targets_of monitor_site normalize_host
    url_matches_domain normalized_path path_segments segment_matches fragment_hit last_two
    classify_leaf classify_segments classify_url sort_known sort_link sort_links merge_urls
    select_intel_urls contains
first_hashes_alive = (omega arith, (omega arith, (omega arith, tt)))

monitor_site_repeat_example :
    (let redis' = (monitor_site env (clock 1000) acme []).1 in
      ((monitor_site env (clock 2000) acme redis').0.pages_changed ≡ 0)
      × ((monitor_site env (clock 2000) acme redis').1 ≡ redis'))
monitor_site_repeat_example =
    monitor_site_repeat env (clock 1000) (clock 2000) acme [] refl first_run_ends
      (λ n. first_hashes_alive)
