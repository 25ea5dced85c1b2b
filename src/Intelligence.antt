-- ===== src/Intelligence.antt =====
-- `IntelligenceService` of backend/app/services/intelligence.py: `analyze`, `process_queue` and
-- their helpers. The language model answers through an `Llm`, with `none` for an exception; the
-- context strings that it is given are arguments. A session that ends in an exception discards
-- what it has not committed, so a failed analysis leaves the tables as they were.
pub mod Triage
pub mod Queue
pub mod Drain
pub mod Actions
use Prim.Native.String
use sales_lead_gen.Base.{
  ℕ, zero, suc, ◌+◌, ◌-◌, ◌*◌, ◌/◌, ◌%◌, ◌^◌, ◌≤◌, ◌<◌, min, max, String, ◌≡◌, refl, sym, ap, ◌∙◌,
  subst, ◌≢◌, ◌↔◌, ◌⊎◌, inl, inr, Bool, true, false, not, ◌&&◌, ◌||◌, Option, none, some, List, [],
  ◌∷◌, ◌++◌, map, arith, str_eq, eq_iff, ltb, leb, ◌==◌, if◌then◌else◌, ==_iff, Bool-cases,
  Option-cases, is_some, length, length-append, select, any, find, All,
}
use sales_lead_gen.Models.{
  SignalType, SignalAction, Signal, Company, Db, is_no_signal, signal_by_id, company_by_id,
  put_signal,
}

abbrev pub min_content_length : ℕ
min_content_length = 50

abbrev pub action_thresholds : List (ℕ × SignalAction)
action_thresholds =
    (75, SignalAction.notify_immediate)
    ∷ (50, SignalAction.notify_digest)
    ∷ (25, SignalAction.enrich_further)
    ∷ (0, SignalAction.ignore)
    ∷ []

-- The `for` loop over the thresholds, with the final `return`.
unfoldable pub first_reached : ℕ → List (ℕ × SignalAction) → SignalAction
first_reached score [] = SignalAction.ignore
first_reached score ((threshold, action) ∷ rest) =
    if leb threshold score then action else first_reached score rest

unfoldable pub score_to_action : ℕ → SignalAction
unfolding first_reached
score_to_action score = first_reached score action_thresholds

-- `SignalType(text)`: `none` stands for the `ValueError`.
unfoldable pub parse_signal_type : String → Option SignalType
parse_signal_type t =
    if str_eq t "hiring_surge"
    then some SignalType.hiring_surge
    else if str_eq t "technology_adoption"
    then some SignalType.technology_adoption
    else if str_eq t "digital_transformation"
    then some SignalType.digital_transformation
    else if str_eq t "workforce_challenge"
    then some SignalType.workforce_challenge
    else if str_eq t "funding_round"
    then some SignalType.funding_round
    else if str_eq t "leadership_change"
    then some SignalType.leadership_change
    else if str_eq t "expansion"
    then some SignalType.expansion
    else if str_eq t "partnership"
    then some SignalType.partnership
    else if str_eq t "product_launch"
    then some SignalType.product_launch
    else if str_eq t "other"
    then some SignalType.other
    else if str_eq t "no_signal"
    then some SignalType.no_signal
    else none

unfoldable pub type_or_other : Option SignalType → SignalType
type_or_other (some t) = t
type_or_other none = SignalType.other

pub record Classification : Type 0 where
  pub signal_type : String
  pub reasoning : String

pub record Scoring : Type 0 where
  pub relevance_score : ℕ
  pub reasoning : String

-- The calls of the language model; `none` is an exception.
pub record Llm : Type 0 where
  pub classify_signal : String → String → Option Classification
  pub score_and_recommend : String → String → String → String → Option Scoring

pub data Outcome : Type 0 where
  returned : Bool → Outcome
  raised : Outcome

-- `len(content)`
unfoldable pub chars : String → ℕ
chars String.[] = 0
chars (String.◌∷◌ c s) = suc (chars s)

unfoldable pub pre_filter : String → Bool
unfolding chars
pre_filter content = ltb (chars content) min_content_length

abbrev pub or_empty : Option String → String
or_empty none = ""
or_empty (some t) = t

abbrev pub same_hash : String → Option String → Bool
same_hash h none = false
same_hash h (some k) = str_eq k h

-- The rows that the query of `_hash_already_processed` selects.
unfoldable pub is_processed_copy : String → ℕ → ℕ → Signal → Bool
is_processed_copy hash company_id exclude s =
    same_hash hash s.raw_content_hash
    && (s.company_id == company_id)
    && s.is_processed
    && not (s.id == exclude)

unfoldable pub hash_already_processed : String → ℕ → ℕ → List Signal → Bool
unfolding is_processed_copy
hash_already_processed hash company_id exclude = any (is_processed_copy hash company_id exclude)

-- `signal.raw_content_hash and await self._hash_already_processed(…)`
unfoldable pub is_duplicate : Signal → Db → Bool
unfolding hash_already_processed
is_duplicate s db = elim s.raw_content_hash [
  | none ↦ false
  | some h ↦ not (str_eq h "") && hash_already_processed h s.company_id s.id db.signals
]

unfoldable pub skip : Signal → Signal
skip s = record s {
  signal_type = SignalType.no_signal;
  action_taken = some SignalAction.ignore;
  is_processed = true;
}

-- The signal is loaded by a join with its company.
unfoldable pub load_signal : ℕ → Db → Option (Signal × Company)
load_signal i db = elim (signal_by_id i db.signals) [
  | none ↦ none
  | some s ↦ elim (company_by_id s.company_id db.companies) [ none ↦ none | some c ↦ some (s, c) ]
]

abbrev pub save : Signal → Db → Db
save s db = record db { signals = put_signal s db.signals }

module _ (company_context : Company → String) (icp_context : String) where
  -- Stages 2 and 3, for a signal that was classified.
  unfoldable pub score : Llm → Signal → Company → String → String → Db → Outcome × Db
  unfolding score_to_action
  score llm s c content raw_type db =
      elim (llm.score_and_recommend content raw_type (company_context c) icp_context) [
        | none ↦ (raised, db)
        | some r ↦ (
          returned true,
          save
              (record s {
                relevance_score = some r.relevance_score;
                llm_summary = some r.reasoning;
                action_taken = some (score_to_action r.relevance_score);
                is_processed = true;
              })
              db,
        )
      ]

  -- Stage 1, and the short cut for `no_signal`.
  unfoldable pub classify : Llm → Signal → Company → String → Db → Outcome × Db
  unfolding score parse_signal_type type_or_other
  classify llm s c content db = elim (llm.classify_signal content (company_context c)) [
    | none ↦ (raised, db)
    | some k ↦
        let t = type_or_other (parse_signal_type k.signal_type) in
        let typed : Signal = record s { signal_type = t } in
        if is_no_signal t
        then (
          returned true,
          save
              (record typed {
                relevance_score = some 0;
                llm_summary = some k.reasoning;
                action_taken = some SignalAction.ignore;
                is_processed = true;
              })
              db,
        )
        else score llm typed c content k.signal_type db
  ]

  -- An unprocessed signal.
  unfoldable pub process : Option Llm → Signal → Company → Db → Outcome × Db
  unfolding classify pre_filter is_duplicate skip
  process llm s c db =
      let content = or_empty s.raw_markdown in
      if pre_filter content
      then (returned true, save (skip s) db)
      else if is_duplicate s db
      then (returned true, save (skip s) db)
      else elim llm [ none ↦ (returned false, db) | some l ↦ classify l s c content db ]

  unfoldable pub analyze : Option Llm → ℕ → Db → Outcome × Db
  unfolding load_signal
  analyze llm i db = elim (load_signal i db) [
    | none ↦ (returned false, db)
    | some (s, c) ↦ if s.is_processed then (returned true, db) else process llm s c db
  ]

-- `ORDER BY created_at ASC`
unfoldable pub insert_by_time : Signal → List Signal → List Signal
insert_by_time s [] = s ∷ []
insert_by_time s (r ∷ rs) =
    if leb s.created_at r.created_at then s ∷ r ∷ rs else r ∷ insert_by_time s rs

unfoldable pub pending_signals : List Signal → List Signal
unfolding insert_by_time
pending_signals [] = []
pending_signals (s ∷ ss) =
    let rest = pending_signals ss in if s.is_processed then rest else insert_by_time s rest

unfoldable pub pending_signal_ids : Db → List ℕ
unfolding pending_signals
pending_signal_ids db = map (λ (s : Signal). s.id) (pending_signals db.signals)

module _ (company_context : Company → String) (icp_context : String) (llm : Option Llm)
    (budget_exceeded : ℕ → Bool) where
  -- The loop of `process_queue`; `budget_exceeded k` is the answer to its k-th check of the budget,
  -- always `False` where no budget is given.
  unfoldable pub queue_from : ℕ → ℕ → List ℕ → Db → ℕ × Db
  queue_from check processed [] db = (processed, db)
  queue_from check processed (i ∷ is) db =
      let (outcome, db') = analyze company_context icp_context llm i db in
      let rest = queue_from (check + 1) (processed + 1) is db' in
      if budget_exceeded check
      then (processed, db)
      else elim outcome [ returned _ ↦ rest | raised ↦ (processed, db') ]

  unfoldable pub process_queue : Db → ℕ × Db
  unfolding queue_from pending_signal_ids
  process_queue db =
      if budget_exceeded 0 then (0, db) else queue_from 1 0 (pending_signal_ids db) db
