-- ===== src/Intelligence/Triage.antt =====
-- What one analysis does to its signal, and to nothing else.
use sales_lead_gen.Base.{
  ℕ, String, ◌≡◌, refl, sym, ap, ◌∙◌, subst, ◌≢◌, ◌⊎◌, inl, inr, true, false, Option, some, arith,
  ◌==◌, if◌then◌else◌, ==_iff, Bool-cases, Option-cases,
}
use mathlib.Core.Bool.{false≢true}
use sales_lead_gen.Models.{
  SignalType, SignalAction, Signal, Company, Db, is_no_signal, signal_by_id, id-signal_by_id,
  signal_by_id-put_signal,
}
use sales_lead_gen.Intelligence.{
  Llm, Outcome, returned, score_to_action, parse_signal_type, type_or_other, score, classify,
  process, analyze, load_signal, save, skip, pre_filter, is_duplicate, or_empty,
}

-- A processed signal carries the action that follows from its type and its score.
abbrev pub IsTriaged : Signal → Type 0
IsTriaged s =
    ((s.signal_type ≡ SignalType.no_signal) × (s.action_taken ≡ some SignalAction.ignore))
    ⊎ ((is_no_signal s.signal_type ≡ false)
        × ((n : ℕ) × (s.relevance_score ≡ some n) × (s.action_taken ≡ some (score_to_action n))))

-- What an analysis leaves alone.
pub record Keeps (s s' : Signal) : Type 0 where
  pub same_id : s'.id ≡ s.id
  pub same_company : s'.company_id ≡ s.company_id
  pub same_text : s'.raw_markdown ≡ s.raw_markdown
  pub same_hash : s'.raw_content_hash ≡ s.raw_content_hash
  pub same_execution : s'.action_executed_at ≡ s.action_executed_at

-- The signal was saved, processed and triaged.
pub record Saves (s : Signal) (db : Db) (r : Outcome × Db) : Type 0 where
  pub saved : Signal
  pub result : r ≡ (returned true, save saved db)
  pub keeps : Keeps s saved
  pub processed : saved.is_processed ≡ true
  pub triaged : IsTriaged saved

-- Nothing was saved.
abbrev pub Fails : Db → Outcome × Db → Type 0
Fails db r = (r.1 ≡ db) × (r.0 ≢ returned true)

no_signal_of : (t : SignalType) → is_no_signal t ≡ true → t ≡ SignalType.no_signal
no_signal_of t h = ground arith

kept :
    (s s' : Signal)
    → s'.id ≡ s.id
    → s'.company_id ≡ s.company_id
    → s'.raw_markdown ≡ s.raw_markdown
    → s'.raw_content_hash ≡ s.raw_content_hash
    → s'.action_executed_at ≡ s.action_executed_at
    → Keeps s s'
kept s s' a b c d e = record {
  same_id = a;
  same_company = b;
  same_text = c;
  same_hash = d;
  same_execution = e;
}

skip-Saves : (s : Signal) (db : Db) → Saves s db (returned true, save (skip s) db)
unfolding skip
skip-Saves s db = record {
  saved = skip s;
  result = refl;
  keeps = kept s (skip s) refl refl refl refl refl;
  processed = refl;
  triaged = inl (refl, refl);
}

module _ (context : Company → String) (icp : String) where
  score_cases :
      (llm : Llm) (s : Signal) (t : SignalType) (c : Company) (content raw : String) (db : Db)
      → is_no_signal t ≡ false
      → (let r = score context icp llm (record s { signal_type = t }) c content raw db in
          Saves s db r ⊎ Fails db r)
  unfolding score
  score_cases llm s t c content raw db h =
      elim (Option-cases (llm.score_and_recommend content raw (context c) icp)) [
        | inl e ↦ rw (e, score) (inr (refl, λ p. cc))
        | inr (r, e) ↦
            rw (e, score)
              (inl (record {
                saved = record s {
                  signal_type = t;
                  relevance_score = some r.relevance_score;
                  llm_summary = some r.reasoning;
                  action_taken = some (score_to_action r.relevance_score);
                  is_processed = true;
                };
                result = refl;
                keeps = kept s _ refl refl refl refl refl;
                processed = refl;
                triaged = inr (h, (r.relevance_score, refl, refl));
              }))
      ]

  classify_cases :
      (llm : Llm) (s : Signal) (c : Company) (content : String) (db : Db)
      → (let r = classify context icp llm s c content db in Saves s db r ⊎ Fails db r)
  unfolding classify
  classify_cases llm s c content db =
      elim (Option-cases (llm.classify_signal content (context c))) [
        | inl e ↦ rw (e, classify) (inr (refl, λ p. cc))
        | inr (k, e) ↦
            let t : SignalType = type_or_other (parse_signal_type k.signal_type) in
            elim (Bool-cases (is_no_signal t)) [
              | inl h ↦
                  rw (e, classify)
                    (rw h (
                      inl (record {
                        saved = record s {
                          signal_type = t;
                          relevance_score = some 0;
                          llm_summary = some k.reasoning;
                          action_taken = some SignalAction.ignore;
                          is_processed = true;
                        };
                        result = refl;
                        keeps = kept s _ refl refl refl refl refl;
                        processed = refl;
                        triaged = inl (no_signal_of t h, refl);
                      })))
              | inr h ↦ rw (e, classify) (rw h (score_cases llm s t c content k.signal_type db h))
            ]
      ]

  process_cases :
      (llm : Option Llm) (s : Signal) (c : Company) (db : Db)
      → (let r = process context icp llm s c db in Saves s db r ⊎ Fails db r)
  unfolding process
  process_cases llm s c db = elim (Bool-cases (pre_filter (or_empty s.raw_markdown))) [
    | inl h ↦ rw h (inl (skip-Saves s db))
    | inr h ↦ elim (Bool-cases (is_duplicate s db)) [
      | inl d ↦ rw (h, d) (inl (skip-Saves s db))
      | inr d ↦ elim (Option-cases llm) [
        | inl e ↦ rw (h, d, e) (inr (refl, λ p. cc))
        | inr (l, e) ↦ rw (h, d, e) (classify_cases l s c (or_empty s.raw_markdown) db)
      ]
    ]
  ]

signal-load_signal :
    (i : ℕ) (db : Db) (s : Signal) (c : Company)
    → load_signal i db ≡ some (s, c)
    → signal_by_id i db.signals ≡ some s
unfolding load_signal
signal-load_signal i db s c h = ground arith

-- Reading after a save of a row that is there.
pub read_saved :
    (i : ℕ) (db : Db) (s s' : Signal)
    → signal_by_id i db.signals ≡ some s
    → s'.id ≡ s.id
    → (j : ℕ)
    → signal_by_id j (save s' db).signals ≡ (if i == j then some s' else signal_by_id j db.signals)
read_saved i db s s' h e j = ground (
  arith,
  signal_by_id-put_signal j s' db.signals,
  id-signal_by_id i db.signals s,
  h,
  e,
  ap (λ (k : ℕ). signal_by_id k db.signals),
  ==_iff i j,
)

module _ (context : Company → String) (icp : String) (llm : Option Llm) (i : ℕ) (db : Db) where
  abbrev run : Outcome × Db
  run = analyze context icp llm i db

  -- An analysis leaves a processed signal, fails, or saves an unprocessed one.
  pub analyze_cases :
      ((run ≡ (returned true, db))
        × ((s : Signal) × (signal_by_id i db.signals ≡ some s) × (s.is_processed ≡ true)))
      ⊎ Fails db run
      ⊎ ((s : Signal) × (signal_by_id i db.signals ≡ some s)
          × (s.is_processed ≡ false)
          × Saves s db run)
  unfolding analyze
  analyze_cases = elim (Option-cases (load_signal i db)) [
    | inl e ↦ rw (e, analyze) (inr (inl (refl, λ p. cc)))
    | inr ((s, c), e) ↦
        let found = signal-load_signal i db s c e in
        elim (Bool-cases s.is_processed) [
          | inl h ↦ rw (e, analyze) (simp h (inl (refl, (s, found, h))))
          | inr h ↦
              rw (e, analyze)
                (simp h (elim (process_cases context icp llm s c db) [
                  | inl saves ↦ inr (inr (s, found, h, saves))
                  | inr fails ↦ inr (inl fails)
                ]))
        ]
  ]

  same :
      {s t : Signal}
      → signal_by_id i db.signals ≡ some t
      → signal_by_id i db.signals ≡ some s
      → s ≡ t
  same p q = cc

  -- If the analysis of an unprocessed signal returns `True`, that signal is now processed and has
  -- the action that follows from its type and score; its company, content, hash and execution time
  -- are what they were.
  pub analyze_triages :
      (s : Signal)
      → signal_by_id i db.signals ≡ some s
      → s.is_processed ≡ false
      → run.0 ≡ returned true
      → (s' : Signal) × (signal_by_id i run.1.signals ≡ some s')
        × (s'.is_processed ≡ true)
        × IsTriaged s'
        × Keeps s s'
  analyze_triages s found fresh done = elim analyze_cases [
    | inl (e, (t, p, q)) ↦
        absurd (false≢true (sym fresh ∙ ap (λ (x : Signal). x.is_processed) (same p found) ∙ q))
    | inr (inl fails) ↦ absurd (fails.1 done)
    | inr (inr (t, p, q, saves)) ↦
        let at =
          ap (λ (r : Outcome × Db). signal_by_id i r.1.signals) saves.result
          ∙ read_saved i db t saves.saved p saves.keeps.same_id i in
        (
          saves.saved,
          at ∙ ground (arith, ==_iff i i),
          saves.processed,
          saves.triaged,
          subst (λ x. Keeps x saves.saved) (sym (same p found)) saves.keeps,
        )
  ]

  -- An analysis that raises or returns `False` changes no table.
  pub analyze_failed : run.0 ≢ returned true → run.1 ≡ db
  analyze_failed h = elim analyze_cases [
    | inl (e, _) ↦ absurd (h (ap (λ (r : Outcome × Db). r.0) e))
    | inr (inl fails) ↦ fails.0
    | inr (inr (t, p, q, saves)) ↦ absurd (h (ap (λ (r : Outcome × Db). r.0) saves.result))
  ]

  -- An analysis changes at most the row of its own signal: every other signal, and every other
  -- table, stays as it was.
  pub analyze_isolated :
      ((j : ℕ) → i ≢ j → signal_by_id j run.1.signals ≡ signal_by_id j db.signals)
      × (run.1.companies ≡ db.companies)
      × (run.1.audit_logs ≡ db.audit_logs)
      × (run.1.enrichment_jobs ≡ db.enrichment_jobs)
  analyze_isolated = elim analyze_cases [
    | inl (e, _) ↦ rw e ((λ j h. refl), refl, refl, refl)
    | inr (inl fails) ↦ rw fails.0 ((λ j h. refl), refl, refl, refl)
    | inr (inr (t, p, q, saves)) ↦ rw saves.result (
      (λ j h. read_saved i db t saves.saved p saves.keeps.same_id j ∙ ground (arith, ==_iff i j)),
      refl,
      refl,
      refl,
    )
  ]
