-- ===== src/Monitor/Urls.antt =====
-- backend/app/services/intel_target_urls.py: which pages of a site are read for news and vacancies.
use sales_lead_gen.Base.{
  ℕ, zero, suc, String, Bool, true, false, not, ◌&&◌, ◌||◌, Option, none, some, List, [], ◌∷◌, ◌++◌,
  str_eq, ltb, leb, if◌then◌else◌, length, select, any,
}
use Prim.Native.String.{count}
use sales_lead_gen.Texts.{Texts, or_text, str_append}
use sales_lead_gen.Dedup.Rows.{contains}
use sales_lead_gen.Monitor.Fragments.{
  news_fragments, jobs_fragments, exclude_substrings, exclude_extensions,
}

-- More text operations of Python, of `urllib` and `re`.
pub record UrlTexts : Type 0 where
  pub texts : Texts
  -- `urlparse(url).path`
  pub path : String → String
  -- `s.endswith(suffix)` with the suffix first, `s[:-1]`, `s.strip("/")` and `s.split("/")`
  pub ends_with : String → String → Bool
  pub drop_last : String → String
  pub strip_slashes : String → String
  pub split_slashes : String → List String
  -- `_SLUG_SEGMENT.match(s)` and `s.isdigit()`
  pub is_slug : String → Bool
  pub is_digits : String → Bool

pub data Kind : Type 0 where
  news jobs : Kind

-- A host without its leading `www.`, which may be missing.
unfoldable pub normalize_host : Texts → Option String → String
normalize_host texts none = ""
normalize_host texts (some hostname) =
    if str_eq hostname ""
    then ""
    else let h = texts.lower hostname in if texts.starts_with "www." h then texts.drop 4 h else h

unfoldable pub url_matches_domain : Texts → String → String → Bool
url_matches_domain texts url domain =
    let host = normalize_host texts (texts.hostname url) in
    not (str_eq host "") && str_eq host (texts.strip (texts.lower domain))

unfoldable pub normalized_path : UrlTexts → String → String
normalized_path urls path =
    let p = urls.texts.strip (urls.texts.lower (or_text (some path) "/")) in
    let rooted = (if urls.texts.starts_with "/" p then p else str_append "/" p) in
    let bare =
      (if ltb 1 (count rooted) && urls.ends_with "/" rooted
        then urls.drop_last rooted
        else rooted) in
    if str_eq bare "/" then "/" else str_append bare "/"

-- `[s for s in path.strip("/").split("/") if s]`
unfoldable pub path_segments : UrlTexts → String → List String
path_segments urls path =
    select (λ s. not (str_eq s "")) (urls.split_slashes (urls.strip_slashes path))

unfoldable pub segment_matches : Texts → String → List String → Bool
segment_matches texts s = any (λ frag.
    str_eq (texts.lower s) frag
    || (texts.starts_with (str_append frag "-") (texts.lower s)
        || texts.starts_with (str_append frag "_") (texts.lower s)))

-- `f"/{frag}/"`
abbrev pub needle : String → String
needle frag = str_append "/" (str_append frag "/")

unfoldable pub fragment_hit : UrlTexts → String → List String → Bool
fragment_hit urls norm fragments =
    any
      (λ frag.
        urls.texts.is_in (needle frag) norm
        || (urls.texts.starts_with (needle frag) norm || str_eq norm (needle frag)))
      fragments
    || any (λ seg. segment_matches urls.texts seg fragments) (path_segments urls norm)

-- `segments[-2]` and `segments[-1]` of a list of two or more.
unfoldable pub last_two : List String → Option (String × String)
last_two [] = none
last_two (a ∷ []) = none
last_two (a ∷ b ∷ []) = some (a, b)
last_two (a ∷ b ∷ c ∷ rest) = last_two (b ∷ c ∷ rest)

unfoldable pub classify_leaf : UrlTexts → String → String → Option Kind
classify_leaf urls parent leaf =
    if (contains parent news_fragments || contains parent jobs_fragments)
      && (urls.is_slug leaf || urls.is_digits leaf)
    then some (if contains parent news_fragments then news else jobs)
    else none

-- A path of one segment is `none` in any case: it is a marketing page, or there is no parent.
unfoldable pub classify_segments : UrlTexts → List String → Option Kind
classify_segments urls segments = elim (last_two segments) [
  | none ↦ none
  | some (parent, leaf) ↦ classify_leaf urls (urls.texts.lower parent) (urls.texts.lower leaf)
]

unfoldable pub classify_url : UrlTexts → String → Option Kind
classify_url urls url =
    let path = or_text (some (urls.path url)) "/" in
    let norm = normalized_path urls path in
    if any (λ ext. urls.ends_with ext (urls.texts.lower path)) exclude_extensions
    then none
    else if any (λ ex. urls.texts.is_in ex norm) exclude_substrings
    then none
    else if fragment_hit urls norm jobs_fragments
    then some jobs
    else if fragment_hit urls norm news_fragments
    then some news
    else classify_segments urls (path_segments urls path)

-- What the loop over the links keeps.
pub record Sorted : Type 0 where
  pub jobs_urls : List String
  pub news_urls : List String
  pub seen : List String
  pub skipped : ℕ
  pub out_of_domain : ℕ

abbrev pub add_url : Kind → String → Sorted → Sorted
add_url jobs url s = record s { jobs_urls = s.jobs_urls ++ url ∷ []; seen = url ∷ s.seen }
add_url news url s = record s { news_urls = s.news_urls ++ url ∷ []; seen = url ∷ s.seen }

unfoldable pub sort_known : UrlTexts → String → Sorted → Sorted
sort_known urls url s = elim (classify_url urls url) [
  | none ↦ record s { skipped = suc s.skipped }
  | some kind ↦ if contains url s.seen then s else add_url kind url s
]

-- One link, with its outer blanks.
unfoldable pub sort_link : UrlTexts → String → String → Sorted → Sorted
sort_link urls domain raw s =
    let url = urls.texts.strip raw in
    if str_eq url ""
    then s
    else if not (url_matches_domain urls.texts url domain)
    then record s { out_of_domain = suc s.out_of_domain }
    else sort_known urls url s

unfoldable pub sort_links : UrlTexts → String → List String → Sorted → Sorted
sort_links urls domain [] s = s
sort_links urls domain (raw ∷ links) s = sort_links urls domain links (sort_link urls domain raw s)

abbrev pub take {ℓ} : {A : Type ℓ} → ℕ → List A → List A
take zero xs = []
take (suc n) [] = []
take (suc n) (x ∷ xs) = x ∷ take n xs

unfoldable pub merge_urls : ℕ → List String → List String → List String
merge_urls max_total merged [] = merged
merge_urls max_total merged (u ∷ us) =
    let stop = merged in
    let same = merge_urls max_total merged us in
    let more = merge_urls max_total (merged ++ u ∷ []) us in
    if leb max_total (length merged) then stop else if contains u merged then same else more

abbrev pub is_jobs : Option Kind → Bool
is_jobs (some jobs) = true
is_jobs _ = false

abbrev pub is_news : Option Kind → Bool
is_news (some news) = true
is_news _ = false

pub record Stats : Type 0 where
  pub jobs_count : ℕ
  pub news_count : ℕ
  pub skipped : ℕ
  pub out_of_domain : ℕ

-- `select_intel_urls`
unfoldable pub select_intel_urls : UrlTexts → List String → String → ℕ → ℕ → ℕ → List String × Stats
select_intel_urls urls links domain max_news max_jobs max_total =
    let s =
      sort_links urls (urls.texts.strip (urls.texts.lower domain)) links
        (record { jobs_urls = []; news_urls = []; seen = []; skipped = 0; out_of_domain = 0 }) in
    let merged = merge_urls max_total [] (take max_jobs s.jobs_urls ++ take max_news s.news_urls) in
    (
      merged,
      record {
        jobs_count = length (select (λ u. is_jobs (classify_url urls u)) merged);
        news_count = length (select (λ u. is_news (classify_url urls u)) merged);
        skipped = s.skipped;
        out_of_domain = s.out_of_domain;
      },
    )

abbrev pub fallback_intel_paths : List String
fallback_intel_paths =
    "/careers" ∷ "/jobs" ∷ "/vacatures" ∷ "/vacature" ∷ "/werken-bij" ∷ "/news" ∷ "/nieuws"
    ∷ "/blog" ∷ "/press" ∷ []
