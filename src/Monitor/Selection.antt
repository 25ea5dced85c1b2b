-- ===== src/Monitor/Selection.antt =====
-- What `select_intel_urls` of backend/app/services/intel_target_urls.py picks.
use sales_lead_gen.Base.{
  All-append, ℕ, zero, suc, ◌+◌, ◌≤◌, String, ◌≡◌, refl, sym, ap, ◌∙◌, inl, inr, true, false, ◌||◌,
  List, [], ◌∷◌, ◌++◌, arith, str_eq, eq_iff, leb, Bool-cases, Option-cases, is_some, length,
  length-append, select, All,
}
use mathlib.Core.Bool.{false≢true}
use sales_lead_gen.Dedup.Rows.{contains}
use sales_lead_gen.Dedup.Keys.{IsDistinct}
use sales_lead_gen.Monitor.Urls.{
  UrlTexts, Kind, news, jobs, url_matches_domain, classify_url, Sorted, add_url, sort_known,
  sort_link, sort_links, take, merge_urls, is_jobs, is_news, select_intel_urls,
}

All-take {ℓ κ} : {A : Type ℓ} (P : A → Type κ) (n : ℕ) (xs : List A) → All P xs → All P (take n xs)
All-take P zero xs h = tt
All-take P (suc n) [] h = tt
All-take P (suc n) (x ∷ xs) (p, h) = (p, All-take P n xs h)

contains-snoc :
    (k u : String) (xs : List String) → contains k (xs ++ u ∷ []) ≡ (contains k xs || str_eq u k)
unfolding contains
contains-snoc k u [] = ground arith
contains-snoc k u (x ∷ xs) = ground (arith, contains-snoc k u xs)

IsDistinct-snoc :
    (u : String) (xs : List String)
    → contains u xs ≡ false
    → IsDistinct xs
    → IsDistinct (xs ++ u ∷ [])
unfolding contains
IsDistinct-snoc u [] new h = (refl, tt)
IsDistinct-snoc u (x ∷ xs) new (p, h) = (
  contains-snoc x u xs ∙ ground (arith, eq_iff x u, eq_iff u x),
  IsDistinct-snoc u xs (ground arith) h,
)

module _ (urls : UrlTexts) (domain : String) where
  -- A page of the domain, of one of the two kinds.
  abbrev pub IsTarget : String → Type 0
  IsTarget u =
      (url_matches_domain urls.texts u domain ≡ true) × (is_some (classify_url urls u) ≡ true)

  record IsPicked (s : Sorted) : Type 0 where
    jobs_urls : All IsTarget s.jobs_urls
    news_urls : All IsTarget s.news_urls

  sort_known-IsPicked :
      (u : String) (s : Sorted)
      → url_matches_domain urls.texts u domain ≡ true
      → IsPicked s
      → IsPicked (sort_known urls u s)
  unfolding sort_known
  sort_known-IsPicked u s here p = elim (Option-cases (classify_url urls u)) [
    | inl e ↦ rw (e, sort_known) record { jobs_urls = p.jobs_urls; news_urls = p.news_urls }
    | inr (kind, e) ↦
        let target : IsTarget u = (here, rw e refl) in
        elim (Bool-cases (contains u s.seen)) [
          | inl old ↦ rw (e, sort_known) (simp old p)
          | inr new ↦ rw (e, sort_known) (simp new (added kind u s p target))
        ]
  ]
    where
      added :
          (kind : Kind) (u : String) (s : Sorted)
          → IsPicked s
          → IsTarget u
          → IsPicked (add_url kind u s)
      added jobs u s p t = record {
        jobs_urls = All-append IsTarget s.jobs_urls _ p.jobs_urls (t, tt);
        news_urls = p.news_urls;
      }
      added news u s p t = record {
        jobs_urls = p.jobs_urls;
        news_urls = All-append IsTarget s.news_urls _ p.news_urls (t, tt);
      }

  sort_link-IsPicked :
      (raw : String) (s : Sorted) → IsPicked s → IsPicked (sort_link urls domain raw s)
  unfolding sort_link
  sort_link-IsPicked raw s p = elim (Bool-cases (str_eq (urls.texts.strip raw) "")) [
    | inl e ↦ rw e p
    | inr e ↦ elim (Bool-cases (url_matches_domain urls.texts (urls.texts.strip raw) domain)) [
      | inl here ↦ rw (e, here) (sort_known-IsPicked _ s here p)
      | inr other ↦ rw (e, other) record { jobs_urls = p.jobs_urls; news_urls = p.news_urls }
    ]
  ]

  sort_links-IsPicked :
      (links : List String) (s : Sorted) → IsPicked s → IsPicked (sort_links urls domain links s)
  unfolding sort_links
  sort_links-IsPicked [] s p = p
  sort_links-IsPicked (raw ∷ links) s p = sort_links-IsPicked links _ (sort_link-IsPicked raw s p)

-- What holds of the merged list.
record IsMerged (P : String → Type 0) (limit : ℕ) (xs : List String) : Type 0 where
  short : length xs ≤ limit
  distinct : IsDistinct xs
  targets : All P xs

merge_urls-IsMerged :
    (P : String → Type 0) (limit : ℕ) (merged us : List String)
    → All P us
    → IsMerged P limit merged
    → IsMerged P limit (merge_urls limit merged us)
unfolding merge_urls
merge_urls-IsMerged P limit merged [] h m = m
merge_urls-IsMerged P limit merged (u ∷ us) (p, h) m =
    elim (Bool-cases (leb limit (length merged))) [
      | inl full ↦ rw full m
      | inr room ↦ elim (Bool-cases (contains u merged)) [
        | inl old ↦ rw (room, old) (merge_urls-IsMerged P limit merged us h m)
        | inr new ↦
            rw (room, new)
              (merge_urls-IsMerged P limit (merged ++ u ∷ []) us h record {
                short = ground (arith, length-append merged (u ∷ []));
                distinct = IsDistinct-snoc u merged new m.distinct;
                targets = All-append P merged _ m.targets (p, tt);
              })
      ]
    ]

kinds-add :
    (urls : UrlTexts) (P : String → Type 0) (xs : List String)
    → All (λ u. P u × (is_some (classify_url urls u) ≡ true)) xs
    → length (select (λ u. is_jobs (classify_url urls u)) xs)
        + length (select (λ u. is_news (classify_url urls u)) xs)
      ≡ length xs
kinds-add urls P [] h = refl
kinds-add urls P (x ∷ xs) ((p, k), h) = elim (Option-cases (classify_url urls x)) [
  | inl e ↦ elim (false≢true (sym (ap is_some e) ∙ k)) [ ]
  | inr (jobs, e) ↦ rw e (omega (arith, kinds-add urls P xs h))
  | inr (news, e) ↦ rw e (omega (arith, kinds-add urls P xs h))
]

-- The selection has no more URLs than its limit, none twice, and only pages of the domain that are
-- classified as news or jobs; its two counts add up to its length.
pub select_intel_urls_sound :
    (urls : UrlTexts) (links : List String) (domain : String) (max_news max_jobs max_total : ℕ)
    → (let (picked, stats) = select_intel_urls urls links domain max_news max_jobs max_total in
        (length picked ≤ max_total)
        × IsDistinct picked
        × All (IsTarget urls (urls.texts.strip (urls.texts.lower domain))) picked
        × (stats.jobs_count + stats.news_count ≡ length picked))
unfolding select_intel_urls
select_intel_urls_sound urls links domain max_news max_jobs max_total =
    let dom = urls.texts.strip (urls.texts.lower domain) in
    let none_yet : Sorted = record {
      jobs_urls = [];
      news_urls = [];
      seen = [];
      skipped = 0;
      out_of_domain = 0;
    } in
    let p = sort_links-IsPicked urls dom links none_yet record { jobs_urls = tt; news_urls = tt } in
    let m =
      merge_urls-IsMerged (IsTarget urls dom) max_total [] _
        (All-append (IsTarget urls dom) _ _ (All-take (IsTarget urls dom) max_jobs _ p.jobs_urls)
          (All-take (IsTarget urls dom) max_news _ p.news_urls))
        record { short = omega arith; distinct = tt; targets = tt } in
    (
      m.short,
      m.distinct,
      m.targets,
      kinds-add urls (λ u. url_matches_domain urls.texts u dom ≡ true) _ m.targets,
    )
