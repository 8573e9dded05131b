-- ===== src/Signals.antt =====
-- backend/app/services/analytics_signal_store.py: the episodes of a client's inactivity, reconciled
-- with one decision for each client of a batch.
use sales_journal.Prelude.{Bool, Option, String, false, if◌then◌else◌, true, ℕ, ◌+◌}
pub mod Steps
use sales_journal.Inactivity.{Reason, SignalType, purchase_overdue, churn_risk, Decision}

pub data Status : Type 0 where
  active suspended resolved : Status

-- `resolution_reason`: a reason of the evaluator for a suspended episode, or how it was resolved.
pub data Resolution : Type 0 where
  ineligible : Reason → Resolution
  purchase_occurred data_correction model_reevaluation : Resolution

-- AnalyticsSignal. Of the columns that `apply_evidence` copies, `evidence` stands for those of the
-- features and the decision (name, phones, confidence, the client's metrics), and `run_evidence` for
-- those of the run (versions, coverage and freshness, and its source in the metrics), each as one
-- text. The period follows from the day. The score is in hundredths.
pub record Signal : Type 0 where
  pub client_key : String
  pub episode_no : ℕ
  pub status : Status
  pub signal_type : SignalType
  pub anchor_purchase_date : ℕ
  pub resolved_at : Option ℕ
  pub resolution_reason : Option Resolution
  pub severity : ℕ
  pub score : ℕ
  pub evidence : String
  pub run_evidence : String
  pub as_of : ℕ
  pub revision : ℕ
  pub run_id : String
  pub detected_at : ℕ
  pub updated_at : ℕ
  pub last_evaluated_at : ℕ

pub data Event : Type 0 where
  created resolved_event suspended_event resumed escalated deescalated updated : Event

-- AnalyticsSignalChange
pub record Change : Type 0 where
  pub event : Event
  pub signal_revision : ℕ
  pub payload : Signal

-- What the batch knows of a client: its features as far as they are used here, and the decision with
-- its score and the evidence that it makes.
pub record Finding : Type 0 where
  pub client_key : String
  pub last_purchase_date : Option ℕ
  pub decision : Decision
  pub score : ℕ
  pub evidence : String

-- The run and the clock of the batch. `evidence` stands for what its metadata put into a signal: the
-- versions of the algorithm for its scope, and the coverage, the freshness and the decision of its
-- source.
pub record Run : Type 0 where
  pub id : String
  pub as_of : ℕ
  pub now : ℕ
  pub evidence : String

pub same_type : SignalType → SignalType → Bool
same_type purchase_overdue purchase_overdue = true
same_type churn_risk churn_risk = true
same_type _ _ = false

pub is_resolved : Status → Bool
is_resolved resolved = true
is_resolved _ = false

-- `apply_evidence(s, f, decision, run)`
pub apply_evidence : Run → Finding → Signal → Signal
apply_evidence run f s = record s {
  severity =
      if is_resolved s.status then 0 else if same_type s.signal_type churn_risk then 3 else 2;
  score = if is_resolved s.status then 0 else f.score;
  evidence = f.evidence;
  run_evidence = run.evidence;
  as_of = run.as_of;
  run_id = run.id;
}

-- `record(db, signal, event, run, now)`
pub recorded : Run → Event → Signal → Signal × Change
recorded run event s =
    let s' : Signal = record s {
      revision = s.revision + 1;
      updated_at = run.now;
      run_id = run.id;
    } in
    (s', record { event = event; signal_revision = s'.revision; payload = s' })
