-- ===== src/Scoring.antt =====
-- backend/app/services/lead_scoring.py: the score of a company. The code computes with floating-point
-- numbers, and here a number is a fraction: it is exact until it is rounded to hundredths, with a half
-- rounded up. Times are in seconds.
pub mod Fractions
pub mod Monitoring
pub mod Average
pub mod Bounds
use sales_lead_gen.Base.{
  ℕ, zero, suc, ◌+◌, ◌-◌, ◌*◌, ◌/◌, ◌%◌, ◌^◌, ◌≤◌, ◌<◌, min, max, String, ◌≡◌, refl, sym, ap, ◌∙◌,
  subst, ◌≢◌, ◌↔◌, ◌⊎◌, inl, inr, Bool, true, false, not, ◌&&◌, ◌||◌, Option, none, some, List, [],
  ◌∷◌, ◌++◌, map, arith, str_eq, eq_iff, ltb, leb, ◌==◌, if◌then◌else◌, ==_iff, Bool-cases,
  Option-cases, is_some, length, length-append, select, any, find, All, All-append,
}
use sales_lead_gen.Models.{CompanyStatus, EmailStatus, Signal, is_no_signal, is_archived}
use sales_lead_gen.Texts.{Texts}
use sales_lead_gen.Discovery.Score.{IcpProfile, NegativeFilters, Facts, calculate_icp_score}
use sales_lead_gen.Scoring.Fractions.{Fraction, whole, ◌⊕◌, times, cap, round}

pub record ScoreBreakdown : Type 0 where
  pub icp_fit : ℕ
  pub signal_strength : ℕ
  pub contact_quality : ℕ
  pub recency : ℕ

-- The columns of a company that the service reads and writes; scores are in hundredths.
pub record ScoredCompany : Type 0 where
  pub id : ℕ
  pub status : CompanyStatus
  pub industry : Option String
  pub employee_count : Option ℕ
  pub location : Option String
  -- `company_info["technologies"]` and `bedrijfsdata["apps"]`
  pub technologies : Option (List String)
  pub apps : Option String
  pub monitor : Bool
  pub monitor_pinned : Bool
  pub icp_score : Option ℕ
  pub lead_score : Option ℕ
  pub score_breakdown : Option ScoreBreakdown
  pub score_updated_at : Option ℕ

pub record ScoredContact : Type 0 where
  pub company_id : ℕ
  pub title : Option String
  pub email : Option String
  pub email_status : Option EmailStatus
  pub created_at : ℕ

pub record Tables : Type 0 where
  pub companies : List ScoredCompany
  pub profiles : List IcpProfile
  pub signals : List Signal
  pub contacts : List ScoredContact

-- What lies outside: the texts, the apps between the commas, without blanks and empty ones, and the
-- weight of a signal by the present time and that of the signal, in any unit.
pub record Env : Type 0 where
  pub texts : Texts
  pub split_apps : String → List String
  pub decay : ℕ → ℕ → ℕ

abbrev pub recency_max : ℕ
recency_max = 90 * 86400

abbrev pub is_text : Option String → Bool
is_text none = false
is_text (some t) = not (str_eq t "")

abbrev pub any_excluded : Texts → Option NegativeFilters → Option String → Bool
any_excluded texts none industry = false
any_excluded texts (some filters) none = false
any_excluded texts (some filters) (some industry) =
    not (str_eq industry "")
    && any (λ ex. texts.is_in (texts.lower ex) (texts.lower industry)) filters.excluded_industries

-- The technologies of a company, or else its apps.
abbrev pub apps_of : Env → Option String → Option (List String) → Option (List String)
apps_of env none other = other
apps_of env (some apps) other = if str_eq apps "" then other else some (env.split_apps apps)

abbrev pub techs_of : Env → ScoredCompany → Option (List String) → Option (List String)
techs_of env c none = apps_of env c.apps none
techs_of env c (some []) = apps_of env c.apps (some [])
techs_of env c (some (t ∷ ts)) = some (t ∷ ts)

abbrev pub facts_of : Env → ScoredCompany → Facts
facts_of env c = record {
  industry = c.industry;
  employees = c.employee_count;
  location = c.location;
  techs = techs_of env c c.technologies;
}

-- The score of `calculate_icp_score` is in tenths.
unfoldable pub calc_icp_fit : Env → List IcpProfile → ScoredCompany → Fraction
calc_icp_fit env profiles c = elim (find (λ (p : IcpProfile). p.is_active) profiles) [
  | none ↦ whole 50
  | some profile ↦
      if any_excluded env.texts profile.negative_filters c.industry
      then whole 0
      else record { num = calculate_icp_score env.texts profile (facts_of env c); den = 10 }
]

-- `WHERE company_id = … AND is_processed AND signal_type != 'no_signal'`
abbrev pub is_counted : ℕ → Signal → Bool
is_counted i s = (s.company_id == i) && (s.is_processed && not (is_no_signal s.signal_type))

-- The weight of a signal: none without a score, or when it is too old.
abbrev pub score_of : Option ℕ → ℕ
score_of none = 0
score_of (some n) = n

abbrev pub weight : Env → ℕ → Signal → ℕ
weight env now s =
    if is_some s.relevance_score && leb (now - s.created_at) recency_max
    then env.decay now s.created_at
    else 0

unfoldable pub weighted_sum : Env → ℕ → List Signal → ℕ
weighted_sum env now [] = 0
weighted_sum env now (s ∷ ss) =
    score_of s.relevance_score * weight env now s + weighted_sum env now ss

unfoldable pub weight_total : Env → ℕ → List Signal → ℕ
weight_total env now [] = 0
weight_total env now (s ∷ ss) = weight env now s + weight_total env now ss

unfoldable pub calc_signal_strength : Env → ℕ → ℕ → List Signal → Fraction
calc_signal_strength env now i signals =
    let rows = select (is_counted i) signals in
    let average : Fraction = record {
      num = weighted_sum env now rows;
      den = weight_total env now rows;
    } in
    if weight_total env now rows == 0 then whole 0 else cap 100 average

abbrev pub is_verified : Option EmailStatus → Bool
is_verified (some EmailStatus.verified) = true
is_verified _ = false

abbrev pub decision_maker_keywords : List String
decision_maker_keywords =
    "ceo" ∷ "cto" ∷ "cio" ∷ "cfo" ∷ "coo" ∷ "cmo" ∷ "vp" ∷ "vice president" ∷ "director" ∷ "head of"
    ∷ "chief" ∷ "founder" ∷ "owner" ∷ "partner" ∷ "managing" ∷ "president" ∷ []

abbrev pub is_decision_maker : Texts → Option String → Bool
is_decision_maker texts none = false
is_decision_maker texts (some title) =
    not (str_eq title "") && any (λ kw. texts.is_in kw (texts.lower title)) decision_maker_keywords

-- The four parts of the quality, each between 0 and 100.
unfoldable pub verify_score : ℕ → ℕ → Fraction
verify_score verified has_email =
    if ltb 0 has_email then record { num = 100 * verified; den = has_email } else whole 0

unfoldable pub dm_score : ℕ → ℕ
dm_score decision_makers = min 100 (60 * decision_makers)

unfoldable pub calc_contact_quality : Texts → ℕ → List ScoredContact → Fraction
calc_contact_quality texts i contacts =
    let rows = select (λ c. c.company_id == i) contacts in
    let total = length rows in
    let has_email = length (select (λ c. is_text c.email) rows) in
    let verified = length (select (λ c. is_verified c.email_status) rows) in
    let decision_makers = length (select (λ c. is_decision_maker texts c.title) rows) in
    if total == 0
    then whole 0
    else times 1 4 (
        whole (min 100 (20 * total))
        ⊕ (record { num = 100 * has_email; den = total }
            ⊕ (verify_score verified has_email ⊕ whole (dm_score decision_makers))))

-- `max(created_at)` of a company's rows.
unfoldable pub latest_time : List ℕ → Option ℕ
latest_time [] = none
latest_time (t ∷ ts) = elim (latest_time ts) [ none ↦ some t | some u ↦ some (max t u) ]

abbrev pub activity_times : ℕ → List Signal → List ScoredContact → List ℕ
activity_times i signals contacts =
    map (λ (s : Signal). s.created_at) (select (λ s. s.company_id == i) signals)
    ++ map (λ (c : ScoredContact). c.created_at) (select (λ c. c.company_id == i) contacts)

unfoldable pub calc_recency : ℕ → ℕ → List Signal → List ScoredContact → Fraction
calc_recency now i signals contacts = elim (latest_time (activity_times i signals contacts)) [
  | none ↦ whole 0
  | some latest ↦ record { num = 100 * (recency_max - (now - latest)); den = recency_max }
]

-- 0.30, 0.35, 0.20 and 0.15 times the four dimensions.
unfoldable pub weighted : Fraction → Fraction → Fraction → Fraction → Fraction
weighted icp_fit signal_strength contact_quality recency =
    times 30 100 icp_fit
    ⊕ (times 35 100 signal_strength ⊕ (times 20 100 contact_quality ⊕ times 15 100 recency))

abbrev pub auto_monitor : ScoredCompany → ℕ → Bool
auto_monitor c icp_score = if c.monitor_pinned then c.monitor else leb 8500 icp_score

-- The row of a company with its scores.
unfoldable pub scored : Env → ℕ → Tables → ScoredCompany → ScoredCompany
scored env now t c =
    let icp_fit = calc_icp_fit env t.profiles c in
    let signal_strength = calc_signal_strength env now c.id t.signals in
    let contact_quality = calc_contact_quality env.texts c.id t.contacts in
    let recency = calc_recency now c.id t.signals t.contacts in
    record c {
      icp_score = some (round icp_fit);
      lead_score =
          some (round (cap 100 (weighted icp_fit signal_strength contact_quality recency)));
      score_breakdown = some record {
        icp_fit = round icp_fit;
        signal_strength = round signal_strength;
        contact_quality = round contact_quality;
        recency = round recency;
      };
      score_updated_at = some now;
      monitor = auto_monitor c (round icp_fit);
    }

unfoldable pub load_company : ℕ → List ScoredCompany → Option ScoredCompany
load_company i companies = find (λ c. c.id == i) companies

unfoldable pub put_company : ScoredCompany → List ScoredCompany → List ScoredCompany
put_company c [] = []
put_company c (r ∷ rs) = if r.id == c.id then c ∷ rs else r ∷ put_company c rs

unfoldable pub score_company : Env → ℕ → ℕ → Tables → Option ScoredCompany × Tables
score_company env now i t = elim (load_company i t.companies) [
  | none ↦ (none, t)
  | some c ↦
      let c' = scored env now t c in (some c', record t { companies = put_company c' t.companies })
]

-- The loop over the companies, each at its own time; an exception of one leaves the tables.
unfoldable pub score_each : Env → (ℕ → ℕ) → (ℕ → Bool) → List ℕ → ℕ × Tables → ℕ × Tables
score_each env now fails [] s = s
score_each env now fails (i ∷ is) (n, t) =
    let failed = score_each env now fails is (n, t) in
    let done = score_each env now fails is (suc n, (score_company env (now i) i t).1) in
    if fails i then failed else done

unfoldable pub score_all : Env → (ℕ → ℕ) → (ℕ → Bool) → Tables → ℕ × Tables
score_all env now fails t =
    score_each env now fails
      (map (λ (c : ScoredCompany). c.id) (select (λ c. not (is_archived c.status)) t.companies))
      (0, t)
