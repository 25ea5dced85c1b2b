-- ===== src/Models.antt =====
-- backend/app/models: the enumerations, and the rows of the tables with the columns that the
-- modelled services read or write. A relevance score is in
-- whole points, which is all that the language model returns; a time is in seconds.
use sales_lead_gen.Base.{
  ℕ, String, ◌≡◌, Bool, true, false, Option, none, some, List, [], ◌∷◌, arith, ◌==◌, if◌then◌else◌,
  is_some,
}

pub data CompanyStatus : Type 0 where
  discovered enriched monitoring qualified pushed archived : CompanyStatus

pub data EmailStatus : Type 0 where
  verified catch_all unverified : EmailStatus

pub data SignalType : Type 0 where
  hiring_surge technology_adoption digital_transformation workforce_challenge funding_round :
      SignalType
  leadership_change expansion partnership product_launch other no_signal : SignalType

pub data SignalAction : Type 0 where
  notify_immediate notify_digest enrich_further ignore : SignalAction

pub data AuditLogTarget : Type 0 where
  clickup crm slack enrichment : AuditLogTarget

pub data AuditLogStatus : Type 0 where
  success failure : AuditLogStatus

abbrev pub is_no_signal : SignalType → Bool
is_no_signal SignalType.no_signal = true
is_no_signal _ = false

abbrev pub is_archived : CompanyStatus → Bool
is_archived CompanyStatus.archived = true
is_archived _ = false

abbrev pub is_notify_immediate : SignalAction → Bool
is_notify_immediate SignalAction.notify_immediate = true
is_notify_immediate _ = false

abbrev pub is_success : AuditLogStatus → Bool
is_success AuditLogStatus.success = true
is_success AuditLogStatus.failure = false

pub record Signal : Type 0 where
  pub id : ℕ
  pub company_id : ℕ
  pub signal_type : SignalType
  pub relevance_score : Option ℕ
  pub llm_summary : Option String
  pub raw_content_hash : Option String
  pub action_taken : Option SignalAction
  pub raw_markdown : Option String
  pub is_processed : Bool
  pub action_executed_at : Option ℕ
  pub created_at : ℕ

pub record Company : Type 0 where
  pub id : ℕ
  pub name : String
  pub domain : String
  pub status : CompanyStatus
  pub slack_notified_at : Option ℕ

pub record Contact : Type 0 where
  pub id : ℕ
  pub company_id : ℕ
  pub email : Option String

-- What an `error_message` says: the two texts of the program, or that of an exception.
pub data ErrorMessage : Type 0 where
  daily_limit_reached : ℕ → ErrorMessage
  webhook_delivery_failed : ErrorMessage
  exception_text : String → ErrorMessage

pub record AuditLog : Type 0 where
  pub signal_id : ℕ
  pub action_type : SignalAction
  pub target : AuditLogTarget
  pub target_id : Option ℕ
  pub status : AuditLogStatus
  pub error_message : Option ErrorMessage

pub record ScrapeJob : Type 0 where
  pub id : ℕ
  pub company_id : ℕ

pub record EnrichmentJob : Type 0 where
  pub company_id : ℕ
  pub created_at : ℕ

-- The tables that a session reads and writes.
pub record Db : Type 0 where
  pub companies : List Company
  pub signals : List Signal
  pub audit_logs : List AuditLog
  pub enrichment_jobs : List EnrichmentJob

-- `SELECT … WHERE id = …` on a primary key, with `scalar_one_or_none()`.
unfoldable pub signal_by_id : ℕ → List Signal → Option Signal
signal_by_id i [] = none
signal_by_id i (s ∷ ss) = if s.id == i then some s else signal_by_id i ss

unfoldable pub company_by_id : ℕ → List Company → Option Company
company_by_id i [] = none
company_by_id i (c ∷ cs) = if c.id == i then some c else company_by_id i cs

-- The columns of a row that was loaded are written back to the row of its id.
unfoldable pub put_signal : Signal → List Signal → List Signal
put_signal s [] = []
put_signal s (r ∷ rs) = if r.id == s.id then s ∷ rs else r ∷ put_signal s rs

unfoldable pub put_company : Company → List Company → List Company
put_company c [] = []
put_company c (r ∷ rs) = if r.id == c.id then c ∷ rs else r ∷ put_company c rs

pub id-signal_by_id :
    (i : ℕ) (ss : List Signal) (s : Signal) → signal_by_id i ss ≡ some s → s.id ≡ i
unfolding signal_by_id
id-signal_by_id i [] s h = cc
id-signal_by_id i (r ∷ rs) s h = ground (arith, id-signal_by_id i rs s)

-- A write to a row that is there is read back, and no other row changes.
pub signal_by_id-put_signal :
    (i : ℕ) (s : Signal) (ss : List Signal)
    → signal_by_id i (put_signal s ss) ≡ (
        if s.id == i
        then (if is_some (signal_by_id i ss) then some s else none)
        else signal_by_id i ss)
unfolding signal_by_id put_signal
signal_by_id-put_signal i s [] = ground arith
signal_by_id-put_signal i s (r ∷ rs) = ground (arith, signal_by_id-put_signal i s rs)

pub company_by_id-put_company :
    (i : ℕ) (c : Company) (cs : List Company)
    → company_by_id i (put_company c cs) ≡ (
        if c.id == i
        then (if is_some (company_by_id i cs) then some c else none)
        else company_by_id i cs)
unfolding company_by_id put_company
company_by_id-put_company i c [] = ground arith
company_by_id-put_company i c (r ∷ rs) = ground (arith, company_by_id-put_company i c rs)

pub id-company_by_id :
    (i : ℕ) (cs : List Company) (c : Company) → company_by_id i cs ≡ some c → c.id ≡ i
unfolding company_by_id
id-company_by_id i [] c h = cc
id-company_by_id i (r ∷ rs) c h = ground (arith, id-company_by_id i rs c)
