-- ===== src/Tests/Scores.antt =====
-- Scores and scans at concrete companies.
use sales_lead_gen.Base.{
  ℕ, ◌+◌, ◌-◌, ◌*◌, ◌≤◌, String, ◌≡◌, refl, ◌≢◌, true, false, not, none, some, List, [], ◌∷◌, map,
  arith, length, select,
}
use sales_lead_gen.Models.{CompanyStatus, Company, EmailStatus, SignalType, Signal, is_archived}
use sales_lead_gen.Dedup.Scan.{active_companies, company_ids, scan_duplicates}
use sales_lead_gen.Dedup.Scan.Counts.{occurrences, member_ids, AreGroups}
use sales_lead_gen.Dedup.Scan.Disjoint.{scan_duplicates_disjoint}
use sales_lead_gen.Dedup.Scan.Complete.{AreUnlike, AreGrouped, has_domain, scan_duplicates_complete}
use sales_lead_gen.Scoring.Fractions.{round}
use sales_lead_gen.Scoring.{
  Env, Tables, ScoredCompany, ScoredContact, is_counted, weight_total, calc_signal_strength,
  calc_icp_fit, calc_contact_quality, calc_recency, weighted, scored, score_all,
}
use sales_lead_gen.Scoring.Average.{calc_signal_strength_between}
use sales_lead_gen.Scoring.Bounds.{scored_bounds}
use sales_lead_gen.Scoring.Monitoring.{pinned_view, active_ids, score_all_keeps_pinned}
use sales_lead_gen.Tests.Runs.{plain, profile}

abbrev env : Env
env = record {
  texts = plain;
  split_apps = λ t. t ∷ [];
  decay = λ now created_at. 1000 - (now - created_at);
}

abbrev signal : ℕ → ℕ → Signal
signal i score = record {
  id = i;
  company_id = 3;
  signal_type = SignalType.partnership;
  relevance_score = some score;
  llm_summary = none;
  raw_content_hash = none;
  action_taken = none;
  raw_markdown = none;
  is_processed = true;
  action_executed_at = none;
  created_at = 5000 + i;
}

abbrev signals : List Signal
signals = signal 1 40 ∷ signal 2 80 ∷ []

abbrev acme : ScoredCompany
acme = record {
  id = 3;
  status = CompanyStatus.monitoring;
  industry = some "logistics";
  employee_count = some 40;
  location = none;
  technologies = none;
  apps = none;
  monitor = false;
  monitor_pinned = true;
  icp_score = none;
  lead_score = none;
  score_breakdown = none;
  score_updated_at = none;
}

abbrev jan : ScoredContact
jan = record {
  company_id = 3;
  title = some "cto";
  email = some "jan@acme.nl";
  email_status = some EmailStatus.verified;
  created_at = 4000;
}

abbrev tables : Tables
tables = record {
  companies = acme ∷ [];
  profiles = profile ∷ [];
  signals = signals;
  contacts = jan ∷ [];
}

some_weight : weight_total env 5100 (select (is_counted 3) signals) ≢ 0
unfolding weight_total
some_weight h = omega (arith, h)

calc_signal_strength_between_example :
    (let f = calc_signal_strength env 5100 3 signals in (40 * f.den ≤ f.num) × (f.num ≤ 80 * f.den))
calc_signal_strength_between_example =
    calc_signal_strength_between env 5100 3 40 80 signals (omega arith)
      ((omega arith, omega arith), ((omega arith, omega arith), tt)) some_weight

scored_bounds_example :
    (let icp_fit = calc_icp_fit env (profile ∷ []) acme in
      let signal_strength = calc_signal_strength env 5100 3 signals in
      let contact_quality = calc_contact_quality plain 3 (jan ∷ []) in
      let recency = calc_recency 5100 3 signals (jan ∷ []) in
      let lead_score = round (weighted icp_fit signal_strength contact_quality recency) in
      ((scored env 5100 tables acme).lead_score ≡ some lead_score)
      × (lead_score ≤ 10000)
      × (round icp_fit ≤ 10000)
      × (round signal_strength ≤ 10000)
      × (round contact_quality ≤ 10000)
      × (round recency ≤ 10000))
scored_bounds_example = scored_bounds env 5100 tables acme ((λ verified. refl), tt)

score_all_keeps_pinned_example :
    (let s = score_all env (λ i. 5100) (λ i. false) tables in
      (map pinned_view s.1.companies ≡ map pinned_view tables.companies)
      × (s.0 ≡ length (select (λ i. not false) (active_ids tables))))
score_all_keeps_pinned_example = score_all_keeps_pinned env (λ i. 5100) (λ i. false) tables

abbrev company : ℕ → String → String → Company
company i name domain = record {
  id = i;
  name = name;
  domain = domain;
  status = CompanyStatus.monitoring;
  slack_notified_at = none;
}

abbrev companies : List Company
companies =
    company 3 "Acme" "acme.nl"
    ∷ company 1 "Acme BV" "acme.nl"
    ∷ company 2 "Beta" "beta.nl"
    ∷ company 4 "Beta" "beta.eu"
    ∷ []

different_ids : (k : ℕ) → occurrences k (company_ids companies) ≤ 1
different_ids k = ground arith

scan_duplicates_disjoint_example :
    AreGroups (scan_duplicates plain companies)
    × ((k : ℕ)
        → occurrences k (member_ids (scan_duplicates plain companies))
          ≤ occurrences k
              (company_ids (select (λ (c : Company). not (is_archived c.status)) companies)))
scan_duplicates_disjoint_example = scan_duplicates_disjoint plain companies different_ids

scan_duplicates_complete_example :
    (let members = member_ids (scan_duplicates plain companies) in
      AreUnlike plain members (active_companies companies)
      × ((domain : String)
          → 2 ≤ length (select (has_domain plain domain) (active_companies companies))
          → AreGrouped members (select (has_domain plain domain) (active_companies companies))))
scan_duplicates_complete_example = scan_duplicates_complete plain companies different_ids
