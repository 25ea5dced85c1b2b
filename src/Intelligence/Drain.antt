-- ===== src/Intelligence/Drain.antt =====
-- A run of the queue that meets no failure leaves nothing to do.
use sales_lead_gen.Base.{
  ℕ, ◌+◌, String, ◌≡◌, sym, ap, ◌∙◌, subst, inl, inr, Bool, true, false, some, List, [], ◌∷◌, map,
  arith, leb, ◌==◌, ==_iff, Bool-cases, length, All,
}
use sales_lead_gen.Models.{Signal, Company, Db, signal_by_id, company_by_id, is_no_signal}
use sales_lead_gen.Intelligence.{
  Llm, returned, Classification, Scoring, analyze, insert_by_time, pending_signals,
  pending_signal_ids, queue_from, process_queue, score, classify, process, load_signal, pre_filter,
  is_duplicate, or_empty, type_or_other, parse_signal_type,
}
use sales_lead_gen.Intelligence.Triage.{read_saved, analyze_cases}
use sales_lead_gen.Intelligence.Queue.{IsDone, analyze-IsDone}

-- The model answers every question.
pub record Answers (l : Llm) : Type 0 where
  pub classifies :
      (content context : String)
      → (k : Classification) × (l.classify_signal content context ≡ some k)
  pub scores :
      (content raw context icp : String)
      → (r : Scoring) × (l.score_and_recommend content raw context icp ≡ some r)

-- The signal can be loaded with its company.
abbrev pub IsReady : ℕ → Db → Type 0
IsReady i db =
    (s : Signal) × (c : Company) × (signal_by_id i db.signals ≡ some s)
    × (company_by_id s.company_id db.companies ≡ some c)

module _ (context : Company → String) (icp : String) (l : Llm) (answers : Answers l) where
  process_returns :
      (s : Signal) (c : Company) (db : Db) → (process context icp (some l) s c db).0 ≡ returned true
  unfolding process
  process_returns s c db =
      let content = or_empty s.raw_markdown in
      let (k, e) = answers.classifies content (context c) in
      let (r, f) = answers.scores content k.signal_type (context c) icp in
      elim (Bool-cases (pre_filter content)) [
        | inl h ↦ rw h
        | inr h ↦ elim (Bool-cases (is_duplicate s db)) [
          | inl d ↦ rw (h, d)
          | inr d ↦
              rw (h, d)
                (rw (e, classify)
                  (elim (Bool-cases
                    (is_no_signal (type_or_other (parse_signal_type k.signal_type)))) [
                      | inl t ↦ rw t
                      | inr t ↦ rw t (rw (f, score))
                    ]))
        ]
      ]

  analyze_returns :
      (i : ℕ) (db : Db) → IsReady i db → (analyze context icp (some l) i db).0 ≡ returned true
  unfolding analyze
  analyze_returns i db (s, c, p, q) =
      let loaded : load_signal i db ≡ some (s, c) = unfold load_signal in ground arith in
      elim (Bool-cases s.is_processed) [
        | inl h ↦ rw (loaded, analyze) (simp h)
        | inr h ↦ rw (loaded, analyze) (simp h (process_returns s c db))
      ]

  analyze_finishes :
      (i : ℕ) (db : Db) → IsReady i db → IsDone i (analyze context icp (some l) i db).1
  analyze_finishes i db ready = elim (analyze_cases context icp (some l) i db) [
    | inl (e, d) ↦ rw e d
    | inr (inl fails) ↦ absurd (fails.1 (analyze_returns i db ready))
    | inr (inr (t, p, q, saves)) ↦ rw saves.result (
      saves.saved,
      read_saved i db t saves.saved p saves.keeps.same_id i ∙ ground (arith, ==_iff i i),
      saves.processed,
    )
  ]

  analyze-IsReady :
      (i j : ℕ) (db : Db) → IsReady j db → IsReady j (analyze context icp (some l) i db).1
  analyze-IsReady i j db (s, c, found, owner) = elim (analyze_cases context icp (some l) i db) [
    | inl (e, _) ↦ rw e (s, c, found, owner)
    | inr (inl fails) ↦ rw fails.0 (s, c, found, owner)
    | inr (inr (t, p, q, saves)) ↦
        let at = read_saved i db t saves.saved p saves.keeps.same_id j in
        elim (Bool-cases (i == j)) [
          | inl eq ↦
              let was : t ≡ s =
                ground
                  (arith, p, found, ==_iff i j, eq, ap (λ (k : ℕ). signal_by_id k db.signals)) in
              rw saves.result (
                saves.saved,
                c,
                ground (arith, at, eq),
                rw saves.keeps.same_company (
                    subst (λ (x : Signal). company_by_id x.company_id db.companies ≡ some c)
                      (sym was) owner),
              )
          | inr ne ↦ rw saves.result (s, c, ground (arith, at, found, ne), owner)
        ]
  ]

  module _ (exceeded : ℕ → Bool) (within : (k : ℕ) → exceeded k ≡ false) where
    abbrev final : ℕ → ℕ → List ℕ → Db → ℕ × Db
    final = queue_from context icp (some l) exceeded

    queue_step :
        (check n i : ℕ) (is : List ℕ) (db : Db)
        → IsReady i db
        → final check n (i ∷ is) db
          ≡ final (check + 1) (n + 1) is (analyze context icp (some l) i db).1
    unfolding queue_from
    queue_step check n i is db ready = rw (within check, analyze_returns i db ready)

    All-IsReady :
        (i : ℕ) (is : List ℕ) (db : Db)
        → All (λ j. IsReady j db) is
        → All (λ j. IsReady j (analyze context icp (some l) i db).1) is
    All-IsReady i [] db h = tt
    All-IsReady i (j ∷ js) db h = (analyze-IsReady i j db h.0, All-IsReady i js db h.1)

    queue_from-IsDone :
        (check n j : ℕ) (is : List ℕ) (db : Db)
        → All (λ i. IsReady i db) is
        → IsDone j db
        → IsDone j (final check n is db).1
    unfolding queue_from
    queue_from-IsDone check n j [] db ready done = done
    queue_from-IsDone check n j (i ∷ is) db ready done = rw (queue_step check n i is db ready.0) (
        queue_from-IsDone (check + 1) (n + 1) j is _ (All-IsReady i is db ready.1)
          (analyze-IsDone context icp (some l) i j db done))

    queue_drains :
        (check n : ℕ) (is : List ℕ) (db : Db)
        → All (λ i. IsReady i db) is
        → All (λ i. IsDone i (final check n is db).1) is × ((final check n is db).0 ≡ n + length is)
    unfolding queue_from
    queue_drains check n [] db ready = (tt, omega arith)
    queue_drains check n (i ∷ is) db ready =
        let db' : Db = (analyze context icp (some l) i db).1 in
        let ready' = All-IsReady i is db ready.1 in
        let (rest, count) = queue_drains (check + 1) (n + 1) is db' ready' in
        subst (λ (r : ℕ × Db). All (λ j. IsDone j r.1) (i ∷ is) × (r.0 ≡ n + length (i ∷ is)))
          (sym (queue_step check n i is db ready.0))
          (
            (
              queue_from-IsDone (check + 1) (n + 1) i is db' ready' (analyze_finishes i db ready.0),
              rest,
            ),
            omega (arith, count),
          )

abbrev ids : List Signal → List ℕ
ids = map (λ (s : Signal). s.id)

module _ (P : ℕ → Type 0) where
  All-insert_by_time :
      (s : Signal) (ss : List Signal) → P s.id → All P (ids ss) → All P (ids (insert_by_time s ss))
  unfolding insert_by_time
  All-insert_by_time s [] p h = (p, tt)
  All-insert_by_time s (r ∷ rs) p h = elim (Bool-cases (leb s.created_at r.created_at)) [
    | inl e ↦ rw e (p, h)
    | inr e ↦ rw e (h.0, All-insert_by_time s rs p h.1)
  ]

  insert_by_time-All :
      (s : Signal) (ss : List Signal) → All P (ids (insert_by_time s ss)) → P s.id × All P (ids ss)
  unfolding insert_by_time
  insert_by_time-All s [] h = (h.0, tt)
  insert_by_time-All s (r ∷ rs) h = elim (Bool-cases (leb s.created_at r.created_at)) [
    | inl e ↦ let h' = rw e at h in (h'.0, h'.1)
    | inr e ↦
        let h' = rw e at h in let (p, rest) = insert_by_time-All s rs h'.1 in (p, (h'.0, rest))
  ]

  -- What holds of every listed id holds of each unprocessed signal that is found by its id.
  pending_covers :
      (i : ℕ) (ss : List Signal) (s : Signal)
      → All P (ids (pending_signals ss))
      → signal_by_id i ss ≡ some s
      → s.is_processed ≡ false
      → P i
  unfolding signal_by_id pending_signals
  pending_covers i [] s h found fresh = absurd (cc)
  pending_covers i (r ∷ rs) s h found fresh =
      let rest : All P (ids (pending_signals rs)) = elim (Bool-cases r.is_processed) [
        | inl e ↦ simp e at h
        | inr e ↦ (insert_by_time-All r (pending_signals rs) (simp e at h)).1
      ] in
      elim (Bool-cases (r.id == i)) [
        | inl at ↦
            let same : r ≡ s = ground (arith, found, at) in
            let fresh' : r.is_processed ≡ false =
              ap (λ (x : Signal). x.is_processed) same ∙ fresh in
            subst P ((==_iff r.id i).0 at)
              (insert_by_time-All r (pending_signals rs) (simp fresh' at h)).0
        | inr ne ↦ pending_covers i rs s rest (ground (arith, found, ne)) fresh
      ]

  All-pending :
      (ss : List Signal) → All (λ (s : Signal). P s.id) ss → All P (ids (pending_signals ss))
  unfolding pending_signals
  All-pending [] h = tt
  All-pending (r ∷ rs) h = elim (Bool-cases r.is_processed) [
    | inl e ↦ simp e (All-pending rs h.1)
    | inr e ↦ simp e (All-insert_by_time r (pending_signals rs) h.0 (All-pending rs h.1))
  ]

-- Every signal has its company, as the foreign key demands.
abbrev pub IsLinked : Db → Type 0
IsLinked db = All (λ (s : Signal). IsReady s.id db) db.signals

-- If the model answers every question, the budget is never exceeded and every signal has its
-- company, then after the queue has run every signal of the table is processed, and the number
-- returned is that of the signals that were pending.
pub process_queue_drains :
    (context : Company → String) (icp : String) (l : Llm) (exceeded : ℕ → Bool) (db : Db)
    → Answers l
    → ((k : ℕ) → exceeded k ≡ false)
    → IsLinked db
    → (let (count, db') = process_queue context icp (some l) exceeded db in
        ((i : ℕ) (s : Signal) → signal_by_id i db.signals ≡ some s → IsDone i db')
        × (count ≡ length (pending_signal_ids db)))
unfolding process_queue
process_queue_drains context icp l exceeded db answers within linked =
    let ready = All-pending (λ i. IsReady i db) db.signals linked in
    let (done, count) =
      queue_drains context icp l answers exceeded within 1 0 (pending_signal_ids db) db ready in
    rw (within 0) (
      (λ i s found. elim (Bool-cases s.is_processed) [
        | inl p ↦
            queue_from-IsDone context icp l answers exceeded within 1 0 i (pending_signal_ids db) db
              ready (s, found, p)
        | inr p ↦
            pending_covers
              (λ j.
                IsDone j
                  (queue_from context icp (some l) exceeded 1 0 (pending_signal_ids db) db).1)
              i db.signals s done found p
      ]),
      omega (arith, count),
    )
