-- ===== src/Monitor/Repeat.antt =====
-- A second run over pages that have not changed: backend/app/services/signal_monitor.py.
use sales_lead_gen.Base.{
  ℕ, suc, ◌+◌, ◌<◌, String, ◌≡◌, refl, sym, ap, ◌∙◌, subst, ◌⊎◌, inl, inr, true, false, Option,
  none, some, List, [], ◌∷◌, arith, str_eq, eq_iff, ltb, if◌then◌else◌, Bool-cases, Option-cases,
  All,
}
use sales_lead_gen.Models.{Company}
use sales_lead_gen.Texts.{str_append}
use sales_lead_gen.Monitor.{
  Env, Clock, CachedHash, cached_entry, alive_hash, content_hash, get_cached_hash, set_cached_hash,
  MonitorResult, content_of, is_allowed, same_hash, compare_page, read_page, read_pages, targets_of,
  monitor_site, fetch_robots_txt, hash_ttl, max_runtime, scrape_page,
}

-- No hash has expired at the time.
abbrev pub AllAlive : ℕ → List CachedHash → Type 0
AllAlive now redis = All (λ (e : CachedHash). now < e.expires_at) redis

cached_entry-alive :
    (now i : ℕ) (url : String) (redis : List CachedHash) (e : CachedHash)
    → AllAlive now redis
    → cached_entry i url redis ≡ some e
    → now < e.expires_at
unfolding cached_entry
cached_entry-alive now i url [] e h found = cc
cached_entry-alive now i url (x ∷ xs) e (p, h) found =
    ground (arith, cached_entry-alive now i url xs e, ap (λ (c : CachedHash). c.expires_at))

-- The text of a page, if it may be read and has a text that is long enough.
abbrev page_text : Env → Option (Option String) → Option String
page_text env none = none
page_text env (some page) = content_of env page

abbrev text_of : Env → Option String → String → Option String
text_of env robots url = if is_allowed env robots url then page_text env (env.scrape url) else none

module _ (env : Env) (robots : Option String) (i now : ℕ) (url : String) (r : MonitorResult)
    (redis : List CachedHash) where
  read_page-no_text :
      text_of env robots url ≡ none
      → ((read_page env robots now i url (r, redis)).0.pages_changed ≡ r.pages_changed)
        × ((read_page env robots now i url (r, redis)).1 ≡ redis)
  unfolding read_page compare_page
  read_page-no_text h = elim (Bool-cases (is_allowed env robots url)) [
    | inr a ↦ rw (a, read_page) (refl, refl)
    | inl a ↦ elim (Option-cases (env.scrape url)) [
      | inl e ↦ rw a (rw (e, read_page) (refl, refl))
      | inr (page, e) ↦ rw a (rw (e, read_page) (rw (rw (a, e) at h, compare_page) (refl, refl)))
    ]
  ]

  read_page-text :
      (m : String)
      → text_of env robots url ≡ some m
      → read_page env robots now i url (r, redis)
        ≡ compare_page env now i url (some m) (scrape_page r, redis)
  unfolding read_page
  read_page-text m h = elim (Bool-cases (is_allowed env robots url)) [
    | inr a ↦ ground arith
    | inl a ↦ elim (Option-cases (env.scrape url)) [
      | inl e ↦ ground arith
      | inr (page, e) ↦ rw a (rw (e, read_page) (rw (rw (a, e) at h) refl))
    ]
  ]

entry_of_alive :
    (h : String) (now : ℕ) (o : Option CachedHash)
    → same_hash h (alive_hash now o) ≡ true
    → (e : CachedHash) × (o ≡ some e) × (e.content_hash ≡ h)
entry_of_alive h now none same = cc
entry_of_alive h now (some e) same = (e, refl, ground (arith, eq_iff e.content_hash h))

module _ (env : Env) (up : env.redis_up ≡ true) (robots : Option String) (i : ℕ) where
  -- The hash of a page's text, if it has one, is in Redis.
  abbrev IsHashed : String → List CachedHash → Type 0
  IsHashed url redis =
      (m : String)
      → text_of env robots url ≡ some m
      → (e : CachedHash) × (cached_entry i url redis ≡ some e)
        × (e.content_hash ≡ content_hash env m)

  -- A page whose hash is there is not taken for a changed one, and its hash stays.
  read_page-unchanged :
      (now : ℕ) (url : String) (r : MonitorResult) (redis : List CachedHash)
      → IsHashed url redis
      → AllAlive now redis
      → ((read_page env robots now i url (r, redis)).0.pages_changed ≡ r.pages_changed)
        × ((read_page env robots now i url (r, redis)).1 ≡ redis)
  unfolding compare_page get_cached_hash
  read_page-unchanged now url r redis hashed alive = elim (Option-cases (text_of env robots url)) [
    | inl t ↦ read_page-no_text env robots i now url r redis t
    | inr (m, t) ↦
        let (e, found, same) = hashed m t in
        let current = cached_entry-alive now i url redis e alive found in
        rw (read_page-text env robots i now url r redis m t)
          (ground (arith, up, found, current, same, eq_iff e.content_hash (content_hash env m)))
  ]

  get_cached_hash-up :
      (now : ℕ) (url : String) (redis : List CachedHash)
      → get_cached_hash env now i url redis ≡ alive_hash now (cached_entry i url redis)
  unfolding get_cached_hash
  get_cached_hash-up now url redis = rw up refl

  cached_entry-set_cached_hash :
      (now : ℕ) (u url hash : String) (redis : List CachedHash)
      → cached_entry i u (set_cached_hash env now i url hash redis) ≡ (
          if str_eq url u
          then some (record {
            company_id = i;
            url = url;
            content_hash = hash;
            expires_at = now + hash_ttl;
          })
          else cached_entry i u redis)
  unfolding set_cached_hash cached_entry
  cached_entry-set_cached_hash now u url hash redis = ground (arith, up)

  -- Comparing a page's text leaves its hash there, and the hashes of other pages.
  compare_page-IsHashed :
      (now : ℕ) (u url m m' : String) (r : MonitorResult) (redis : List CachedHash)
      → text_of env robots u ≡ some m
      → text_of env robots url ≡ some m'
      → (u ≡ url) ⊎ IsHashed u redis
      → (e : CachedHash) × (cached_entry i u (compare_page env now i url (some m') (r, redis)).1
          ≡ some e)
        × (e.content_hash ≡ content_hash env m)
  unfolding compare_page
  compare_page-IsHashed now u url m m' r redis t t' old =
      let same_text : u ≡ url → m' ≡ m = λ same. cc (t, t', ap (text_of env robots) same) in
      elim (Bool-cases
        (same_hash (content_hash env m') (alive_hash now (cached_entry i url redis)))) [
          | inl same ↦
              rw (get_cached_hash-up now url redis, same)
                (elim old [
                  | inr hashed ↦ hashed m t
                  | inl u_url ↦
                      let (e, found, eq) =
                        entry_of_alive (content_hash env m') now (cached_entry i url redis) same in
                      (e, cc (found, u_url), cc (eq, same_text u_url))
                ])
          | inr differs ↦
              rw
                (
                  get_cached_hash-up now url redis,
                  differs,
                  cached_entry-set_cached_hash now u url (content_hash env m') redis,
                )
                (elim (Bool-cases (str_eq url u)) [
                  | inl eq ↦
                      rw eq (_, refl, ap (content_hash env) (same_text (sym ((eq_iff url u).0 eq))))
                  | inr neq ↦ elim old [
                    | inl u_url ↦ cc (neq, (eq_iff url u).1 (sym u_url))
                    | inr hashed ↦ rw neq (hashed m t)
                  ]
                ])
        ]

  -- Reading a page leaves its hash there, and the hashes of other pages.
  read_page-IsHashed :
      (now : ℕ) (u url : String) (r : MonitorResult) (redis : List CachedHash)
      → (u ≡ url) ⊎ IsHashed u redis
      → IsHashed u (read_page env robots now i url (r, redis)).1
  read_page-IsHashed now u url r redis old m t = elim (Option-cases (text_of env robots url)) [
    | inl none_there ↦
        let kept = (read_page-no_text env robots i now url r redis none_there).1 in
        rw kept (elim old [
          | inl same ↦ cc (t, none_there, ap (text_of env robots) same)
          | inr hashed ↦ hashed m t
        ])
    | inr (m', t') ↦
        rw (read_page-text env robots i now url r redis m' t')
          (compare_page-IsHashed now u url m m' (scrape_page r) redis t t' old)
  ]

  module _ (clock : Clock) where
    read_pages-step :
        (n : ℕ) (url : String) (urls : List String) (s : MonitorResult × List CachedHash)
        → ltb max_runtime (clock.elapsed n) ≡ false
        → read_pages env clock robots i n (url ∷ urls) s
          ≡ read_pages env clock robots i (suc n) urls (read_page env robots (clock.now n) i url s)
    unfolding read_pages
    read_pages-step n url urls s early = rw early refl

    -- The hashes that are there stay there while more pages are read.
    read_pages-keeps :
        (n : ℕ) (u : String) (urls : List String) (r : MonitorResult) (redis : List CachedHash)
        → IsHashed u redis
        → IsHashed u (read_pages env clock robots i n urls (r, redis)).1
    unfolding read_pages
    read_pages-keeps n u [] r redis h = h
    read_pages-keeps n u (url ∷ urls) r redis h =
        elim (Bool-cases (ltb max_runtime (clock.elapsed n))) [
          | inl late ↦ rw late h
          | inr early ↦
              let s = read_page env robots (clock.now n) i url (r, redis) in
              rw early (
                read_pages-keeps (suc n) u urls s.0 s.1
                  (read_page-IsHashed (clock.now n) u url r redis (inr h)))
        ]

    -- A run that comes to its end has the hash of each of its pages.
    read_pages-IsHashed :
        (n : ℕ) (urls : List String) (r : MonitorResult) (redis : List CachedHash)
        → (read_pages env clock robots i n urls (r, redis)).0.error ≡ none
        → All (λ u. IsHashed u (read_pages env clock robots i n urls (r, redis)).1) urls
    unfolding read_pages
    read_pages-IsHashed n [] r redis h = tt
    read_pages-IsHashed n (url ∷ urls) r redis h =
        elim (Bool-cases (ltb max_runtime (clock.elapsed n))) [
          | inl late ↦ cc (rw late at h)
          | inr early ↦
              let s = read_page env robots (clock.now n) i url (r, redis) in
              subst (λ x. All (λ u. IsHashed u x.1) (url ∷ urls))
                (sym (read_pages-step n url urls (r, redis) early))
                (
                  read_pages-keeps (suc n) url urls s.0 s.1
                      (read_page-IsHashed (clock.now n) url url r redis (inl refl)),
                  read_pages-IsHashed (suc n) urls s.0 s.1 (rw early at h),
                )
        ]

    -- Pages whose hashes are there are not taken for changed ones.
    read_pages-unchanged :
        (n : ℕ) (urls : List String) (r : MonitorResult) (redis redis' : List CachedHash)
        → redis' ≡ redis
        → All (λ u. IsHashed u redis) urls
        → ((k : ℕ) → AllAlive (clock.now k) redis)
        → ((read_pages env clock robots i n urls (r, redis')).0.pages_changed ≡ r.pages_changed)
          × ((read_pages env clock robots i n urls (r, redis')).1 ≡ redis)
    unfolding read_pages
    read_pages-unchanged n [] r redis redis' eq hs alive = (refl, eq)
    read_pages-unchanged n (url ∷ urls) r redis redis' eq (h, hs) alive =
        elim (Bool-cases (ltb max_runtime (clock.elapsed n))) [
          | inl late ↦ rw late (refl, eq)
          | inr early ↦
              let s = read_page env robots (clock.now n) i url (r, redis') in
              let (same, kept) =
                read_page-unchanged (clock.now n) url r redis'
                  (subst (λ x. IsHashed url x) (sym eq) h)
                  (subst (λ x. AllAlive (clock.now n) x) (sym eq) (alive n)) in
              let (same', kept') =
                read_pages-unchanged (suc n) urls s.0 redis s.1 (kept ∙ eq) hs alive in
              rw early (same' ∙ same, kept')
        ]

-- When the site and its pages have not changed, Redis answers, the last run came to its end and none
-- of the hashes has expired while the next run goes on, that run counts no page as changed and leaves
-- the hashes as they are.
pub monitor_site_repeat :
    (env : Env) (clock clock' : Clock) (c : Company) (redis : List CachedHash)
    → env.redis_up ≡ true
    → (monitor_site env clock c redis).0.error ≡ none
    → ((n : ℕ) → AllAlive (clock'.now n) (monitor_site env clock c redis).1)
    → (let redis' = (monitor_site env clock c redis).1 in
        ((monitor_site env clock' c redis').0.pages_changed ≡ 0)
        × ((monitor_site env clock' c redis').1 ≡ redis'))
unfolding monitor_site
monitor_site_repeat env clock clock' c redis up ended alive =
    let base_url = str_append "https://" c.domain in
    let robots = fetch_robots_txt env base_url in
    read_pages-unchanged env up robots c.id clock' 0 (targets_of env c.domain base_url) _ _ _ refl
      (read_pages-IsHashed env up robots c.id clock 0 (targets_of env c.domain base_url) _ _ ended)
      alive
