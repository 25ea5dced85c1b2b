-- ===== src/Tests/Signals.antt =====
-- The analysis of signals at concrete inputs.
use sales_lead_gen.Base.{
  ℕ, String, ◌≡◌, refl, ◌≢◌, true, false, none, some, [], ◌∷◌, arith, leb, length,
}
use sales_lead_gen.Models.{
  SignalType, CompanyStatus, Signal, Company, Db, signal_by_id, company_by_id,
}
use sales_lead_gen.Intelligence.{Llm, returned, raised, process_queue, pending_signal_ids}
use sales_lead_gen.Intelligence.Queue.{AllTriaged, IsDone, process_queue-AllTriaged}
use sales_lead_gen.Intelligence.Drain.{Answers, IsLinked, process_queue_drains}

abbrev page : String
page = "The company opens three new warehouses and hires sixty people this year."

abbrev signal : ℕ → String → Signal
signal i text = record {
  id = i;
  company_id = 1;
  signal_type = SignalType.no_signal;
  relevance_score = none;
  llm_summary = none;
  raw_content_hash = some "a1";
  action_taken = none;
  raw_markdown = some text;
  is_processed = false;
  action_executed_at = none;
  created_at = i;
}

abbrev company : Company
company = record {
  id = 1;
  name = "Acme";
  domain = "acme.nl";
  status = CompanyStatus.enriched;
  slack_notified_at = none;
}

abbrev db : Db
db = record {
  companies = company ∷ [];
  signals = signal 7 page ∷ signal 8 "short" ∷ [];
  audit_logs = [];
  enrichment_jobs = [];
}

abbrev llm : Llm
llm = record {
  classify_signal = λ _ _. some (record { signal_type = "expansion"; reasoning = "opens" });
  score_and_recommend = λ _ _ _ _. some (record { relevance_score = 80; reasoning = "grows" });
}

abbrev silent : Llm
silent = record { classify_signal = λ _ _. none; score_and_recommend = λ _ _ _ _. none }

abbrev context : Company → String
context c = c.name

raised≢returned : raised ≢ returned true
raised≢returned h = cc

none_processed : AllTriaged db
unfolding signal_by_id
none_processed i s found done = ground arith

process_queue-AllTriaged_example :
    AllTriaged (process_queue context "icp" (some llm) (λ k. leb 2 k) db).1
process_queue-AllTriaged_example =
    process_queue-AllTriaged context "icp" (some llm) (λ k. leb 2 k) db none_processed

llm-Answers : Answers llm
llm-Answers = record {
  classifies = λ _ _. (record { signal_type = "expansion"; reasoning = "opens" }, refl);
  scores = λ _ _ _ _. (record { relevance_score = 80; reasoning = "grows" }, refl);
}

db-IsLinked : IsLinked db
unfolding signal_by_id company_by_id
db-IsLinked = ((signal 7 page, company, refl, refl), ((signal 8 "short", company, refl, refl), tt))

process_queue_drains_example :
    (let (count, db') = process_queue context "icp" (some llm) (λ _. false) db in
      ((i : ℕ) (s : Signal) → signal_by_id i db.signals ≡ some s → IsDone i db')
      × (count ≡ length (pending_signal_ids db)))
process_queue_drains_example =
    process_queue_drains context "icp" llm (λ _. false) db llm-Answers (λ _. refl) db-IsLinked
