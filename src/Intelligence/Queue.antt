-- ===== src/Intelligence/Queue.antt =====
-- The queue: what holds of every signal after a run, and that a run which meets no failure leaves
-- nothing to do.
use sales_lead_gen.Base.{
  ℕ, ◌+◌, String, ◌≡◌, subst, inl, inr, Bool, true, Option, some, List, [], ◌∷◌, arith, ◌==◌,
  Bool-cases,
}
use sales_lead_gen.Models.{Signal, Company, Db, signal_by_id}
use sales_lead_gen.Intelligence.{
  Llm, Outcome, returned, raised, analyze, pending_signal_ids, queue_from, process_queue,
}
use sales_lead_gen.Intelligence.Triage.{IsTriaged, read_saved, analyze_cases}

-- Every processed signal is triaged.
abbrev pub AllTriaged : Db → Type 0
AllTriaged db =
    (i : ℕ) (s : Signal) → signal_by_id i db.signals ≡ some s → s.is_processed ≡ true → IsTriaged s

-- The signal is there and processed.
abbrev pub IsDone : ℕ → Db → Type 0
IsDone i db = (s : Signal) × (signal_by_id i db.signals ≡ some s) × (s.is_processed ≡ true)

module _ (context : Company → String) (icp : String) (llm : Option Llm) where
  analyze-AllTriaged :
      (i : ℕ) (db : Db) → AllTriaged db → AllTriaged (analyze context icp llm i db).1
  analyze-AllTriaged i db h = elim (analyze_cases context icp llm i db) [
    | inl (e, _) ↦ rw e h
    | inr (inl fails) ↦ rw fails.0 h
    | inr (inr (t, p, q, saves)) ↦ rw saves.result λ j s found done.
        let at = read_saved i db t saves.saved p saves.keeps.same_id j in
        elim (Bool-cases (i == j)) [
          | inl eq ↦
              let now : saves.saved ≡ s = ground (arith, at, found, eq) in
              subst IsTriaged now saves.triaged
          | inr ne ↦ h j s (ground (arith, at, found, ne)) done
        ]
  ]

  pub analyze-IsDone : (i j : ℕ) (db : Db) → IsDone j db → IsDone j (analyze context icp llm i db).1
  analyze-IsDone i j db (s, found, done) = elim (analyze_cases context icp llm i db) [
    | inl (e, _) ↦ rw e (s, found, done)
    | inr (inl fails) ↦ rw fails.0 (s, found, done)
    | inr (inr (t, p, q, saves)) ↦
        let at = read_saved i db t saves.saved p saves.keeps.same_id j in
        elim (Bool-cases (i == j)) [
          | inl eq ↦ rw saves.result (saves.saved, ground (arith, at, eq), saves.processed)
          | inr ne ↦ rw saves.result (s, ground (arith, at, found, ne), done)
        ]
  ]

  module _ (exceeded : ℕ → Bool) where
    queue_from-AllTriaged :
        (check processed : ℕ) (is : List ℕ) (db : Db)
        → AllTriaged db
        → AllTriaged (queue_from context icp llm exceeded check processed is db).1
    unfolding queue_from
    queue_from-AllTriaged check processed [] db h = h
    queue_from-AllTriaged check processed (i ∷ is) db h =
        let (outcome, db') = analyze context icp llm i db in
        let now : AllTriaged db' = analyze-AllTriaged i db h in
        elim (Bool-cases (exceeded check)) [
          | inl e ↦ rw e h
          | inr e ↦
              rw e
                (go outcome db' now (queue_from-AllTriaged (check + 1) (processed + 1) is db' now))
        ]
      where
        go :
            (o : Outcome) (d : Db)
            → AllTriaged d
            → AllTriaged (queue_from context icp llm exceeded (check + 1) (processed + 1) is d).1
            → AllTriaged
                (let rest = queue_from context icp llm exceeded (check + 1) (processed + 1) is d in
                  (let r : ℕ × Db = elim o [ returned _ ↦ rest | raised ↦ (processed, d) ] in r)).1
        go (returned b) d now later = later
        go raised d now later = now

    -- After the queue has run, with any answers of the model and wherever the budget stopped it,
    -- every processed signal is triaged, if that held before.
    pub process_queue-AllTriaged :
        (db : Db) → AllTriaged db → AllTriaged (process_queue context icp llm exceeded db).1
    unfolding process_queue
    process_queue-AllTriaged db h = elim (Bool-cases (exceeded 0)) [
      | inl e ↦ rw e h
      | inr e ↦ rw e (queue_from-AllTriaged 1 0 (pending_signal_ids db) db h)
    ]
