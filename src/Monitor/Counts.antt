-- ===== src/Monitor/Counts.antt =====
-- What a run of `monitor_company` in backend/app/services/signal_monitor.py counts.
use sales_lead_gen.Base.{
  ℕ, zero, suc, ◌+◌, ◌≤◌, String, ◌≡◌, refl, ap, ◌∙◌, ◌⊎◌, inl, inr, Bool, true, false, not, ◌&&◌,
  Option, none, some, List, [], ◌∷◌, arith, ltb, if◌then◌else◌, Bool-cases, is_some, length, select,
}
use sales_lead_gen.Models.{Company}
use sales_lead_gen.Monitor.Urls.{take}
use sales_lead_gen.Monitor.{
  Env, Clock, CachedHash, MonitorResult, MonitorError, timeout, new_result, is_content, is_allowed,
  content_of, compare_page, read_page, read_pages, targets_of, map_credits, monitor_site,
  fetch_robots_txt, max_runtime, set_cached_hash,
}
use sales_lead_gen.Texts.{str_append}

-- The pages that a run reaches in time: those before the first one at which more than the maximal
-- runtime has elapsed.
abbrev pub in_time : Clock → ℕ → List String → List String
in_time clock n [] = []
in_time clock n (url ∷ urls) =
    let rest = in_time clock (suc n) urls in
    if ltb max_runtime (clock.elapsed n) then [] else url ∷ rest

abbrev pub has_text : Env → Option (Option String) → Bool
has_text env none = false
has_text env (some none) = false
has_text env (some (some markdown)) = is_content env markdown

-- What becomes of a page, by `robots.txt` and by what the site answers: it may not be read, it cannot
-- be read, it is read, and, if it is read, it has a text that is long enough or not.
module _ (env : Env) (robots : Option String) where
  abbrev pub is_forbidden : String → Bool
  is_forbidden url = not (is_allowed env robots url)

  abbrev pub is_failing : String → Bool
  is_failing url = is_allowed env robots url && not (is_some (env.scrape url))

  abbrev pub is_read : String → Bool
  is_read url = is_allowed env robots url && is_some (env.scrape url)

  abbrev pub is_short : String → Bool
  is_short url = is_read url && not (has_text env (env.scrape url))

  abbrev pub is_full : String → Bool
  is_full url = is_read url && has_text env (env.scrape url)

-- How many of the pages are such.
abbrev pub how_many : (String → Bool) → List String → ℕ
how_many p urls = length (select p urls)

how_many-split :
    (p : String → Bool) (url : String) (urls : List String)
    → how_many p (url ∷ urls) ≡ how_many p (url ∷ []) + how_many p urls
how_many-split p url urls = elim (Bool-cases (p url)) [
  | inl e ↦ rw e (omega arith)
  | inr e ↦ rw e (omega arith)
]

-- What the pages that were read add to the counters and to Redis.
record IsCounted (env : Env) (robots : Option String) (urls : List String) (r s : MonitorResult)
    (redis hashes : List CachedHash) : Type 0 where
  scraped : s.pages_scraped ≡ r.pages_scraped + how_many (is_read env robots) urls
  failed : s.pages_failed ≡ r.pages_failed + how_many (is_failing env robots) urls
  skipped :
      s.pages_skipped
      ≡ r.pages_skipped
        + (how_many (is_forbidden env robots) urls + how_many (is_short env robots) urls)
  changed : s.pages_changed ≤ r.pages_changed + how_many (is_full env robots) urls
  grown : env.redis_up ≡ true → length hashes + r.pages_changed ≡ length redis + s.pages_changed
  kept : env.redis_up ≡ false → length hashes ≡ length redis
  paid : s.credits_used ≡ r.credits_used + how_many (is_read env robots) urls
  no_signal : s.signals_created ≡ r.signals_created

module _ (env : Env) (robots : Option String) where
  read_page-IsCounted :
      (now i : ℕ) (url : String) (r : MonitorResult) (redis : List CachedHash)
      → (let next = read_page env robots now i url (r, redis) in
          IsCounted env robots (url ∷ []) r next.0 redis next.1)
  unfolding read_page compare_page content_of set_cached_hash
  read_page-IsCounted now i url r redis = ground arith

  -- The counters of pages of which the first was read first.
  IsCounted-step :
      (url : String) (urls : List String) (r s u : MonitorResult)
      (redis hashes later : List CachedHash)
      → IsCounted env robots (url ∷ []) r s redis hashes
      → IsCounted env robots urls s u hashes later
      → IsCounted env robots (url ∷ urls) r u redis later
  IsCounted-step url urls r s u redis hashes later a b = record {
    scraped = omega (arith, a.scraped, b.scraped, how_many-split (is_read env robots) url urls);
    failed = omega (arith, a.failed, b.failed, how_many-split (is_failing env robots) url urls);
    skipped = omega (
      arith,
      a.skipped,
      b.skipped,
      how_many-split (is_forbidden env robots) url urls,
      how_many-split (is_short env robots) url urls,
    );
    changed = omega (arith, a.changed, b.changed, how_many-split (is_full env robots) url urls);
    grown = λ up. omega (arith, a.grown up, b.grown up);
    kept = λ down. b.kept down ∙ a.kept down;
    paid = omega (arith, a.paid, b.paid, how_many-split (is_read env robots) url urls);
    no_signal = b.no_signal ∙ a.no_signal;
  }

  none-IsCounted :
      (r : MonitorResult) (error : Option MonitorError) (redis : List CachedHash)
      → IsCounted env robots [] r (record r { error = error }) redis redis
  none-IsCounted r error redis = record {
    scraped = omega arith;
    failed = omega arith;
    skipped = omega arith;
    changed = omega arith;
    grown = λ up. refl;
    kept = λ down. refl;
    paid = omega arith;
    no_signal = refl;
  }

  -- The loop counts the pages that it reaches in time, and notes an error unless these are all.
  read_pages-IsCounted :
      (clock : Clock) (i n : ℕ) (urls : List String) (r : MonitorResult) (redis : List CachedHash)
      → (let end = read_pages env clock robots i n urls (r, redis) in
          IsCounted env robots (in_time clock n urls) r end.0 redis end.1
          × ((in_time clock n urls ≡ urls) ⊎ (end.0.error ≡ some timeout)))
  unfolding read_pages
  read_pages-IsCounted clock i n [] r redis = (none-IsCounted r r.error redis, inl refl)
  read_pages-IsCounted clock i n (url ∷ urls) r redis =
      elim (Bool-cases (ltb max_runtime (clock.elapsed n))) [
        | inl late ↦ rw late (none-IsCounted r (some timeout) redis, inr refl)
        | inr early ↦
            let next = read_page env robots (clock.now n) i url (r, redis) in
            let rest = read_pages-IsCounted clock i (suc n) urls next.0 next.1 in
            rw early (
              IsCounted-step url (in_time clock (suc n) urls) r next.0 _ redis next.1 _
                  (read_page-IsCounted (clock.now n) i url r redis) rest.0,
              elim rest.1 [
                | inl all_read ↦ inl (ap (λ (us : List String). url ∷ us) all_read)
                | inr late ↦ inr late
              ],
            )
      ]

length-take {ℓ} : {A : Type ℓ} (n : ℕ) (xs : List A) → length (take n xs) ≤ n
length-take zero xs = omega arith
length-take (suc n) [] = omega arith
length-take (suc n) (x ∷ xs) = omega (arith, length-take n xs)

-- A run has no more target pages than its limit. Of those that it reaches before the time runs out,
-- all of them unless it ends with a timeout, it counts as scraped exactly those that `robots.txt` allows
-- and the site returns, as failed exactly those that are allowed and not returned, and as skipped those
-- that are not allowed and those that are returned without a text of fifty characters. No more are
-- counted as changed than are returned with such a text, and if Redis answers, it gets one entry for
-- each change, and otherwise none. The run creates no signal, and pays one credit for the site map, if that is read, and
-- one for each page that is returned.
pub monitor_site_counts :
    (env : Env) (clock : Clock) (c : Company) (redis : List CachedHash)
    → (let base_url = str_append "https://" c.domain in
        let robots = fetch_robots_txt env base_url in
        let targets = targets_of env c.domain base_url in
        let reached = in_time clock 0 targets in
        let (r, redis') = monitor_site env clock c redis in
        (length targets ≤ env.max_scrape_urls)
        × ((reached ≡ targets) ⊎ (r.error ≡ some timeout))
        × (r.pages_scraped ≡ how_many (is_read env robots) reached)
        × (r.pages_failed ≡ how_many (is_failing env robots) reached)
        × (r.pages_skipped
            ≡ how_many (is_forbidden env robots) reached + how_many (is_short env robots) reached)
        × (r.pages_changed ≤ how_many (is_full env robots) reached)
        × (length redis' ≡ length redis + (if env.redis_up then r.pages_changed else 0))
        × (r.signals_created ≡ 0)
        × (r.credits_used ≡ map_credits (env.map_site base_url) + r.pages_scraped))
unfolding monitor_site targets_of
monitor_site_counts env clock c redis =
    let base_url = str_append "https://" c.domain in
    let robots = fetch_robots_txt env base_url in
    let start : MonitorResult = record (new_result c.domain) {
      credits_used = map_credits (env.map_site base_url);
    } in
    let (t, all_read) =
      read_pages-IsCounted env robots clock c.id 0 (targets_of env c.domain base_url) start redis in
    (
      length-take env.max_scrape_urls _,
      all_read,
      omega (arith, t.scraped),
      omega (arith, t.failed),
      omega (arith, t.skipped),
      omega (arith, t.changed),
      elim (Bool-cases env.redis_up) [
        | inl up ↦ simp up (omega (arith, t.grown up))
        | inr down ↦ simp down (omega (arith, t.kept down))
      ],
      t.no_signal,
      omega (arith, t.paid, t.scraped),
    )
