-- ===== src/Schedule/Lifecycle.antt =====
-- backend/app/churn_automation.py: what the host's commands do to one job.
use sales_journal.Prelude.{
  Bool, List, Option, Result, String, [], err, false, if◌then◌else◌, is_some, leb, min, none, not,
  ok, or_else, raise_if, some, true, ℕ, ◌&&◌, ◌*◌, ◌+◌, ◌==◌, ◌>>=◌, ◌>>◌, ◌^◌, ◌∷◌,
}
pub mod Laws
mod Tests
use sales_journal.Schedule.Clock.{Local}
use sales_journal.Schedule.Config.{Scalar, int, lookup}
use sales_journal.Schedule.Control.{ChurnSchedule, Error}
use sales_journal.Schedule.Jobs.{
  Job, Kind, daily, diagnostic, same_kind, Status, queued, calculating, awaiting_evidence,
  diagnosed, released, delivering, succeeded, partial, failed, expired, Counters, no_counters,
  guard_job,
}

pub data Failure : Type 0 where
  guarded : Error → Failure
  job_not_ready_for_release producer_policy_revision_changed invalid_evidence_bundle : Failure
  receiver_evidence_not_bound immutable_release_conflict job_not_retryable : Failure

-- How the analytical worker's batch ended, as far as `calculate` tells the endings apart.
pub data RunStatus : Type 0 where
  run_running run_succeeded run_disabled run_blocked run_superseded : RunStatus

pub record BatchResult : Type 0 where
  pub status : RunStatus
  pub run_id : Option String
  -- of the run named, when it has succeeded: its day, and its counter CHURN_RISK
  pub as_of : ℕ
  pub churn_risk : ℕ

pub run_code : RunStatus → String
run_code run_disabled = "CALCULATION_DISABLED"
run_code run_blocked = "CALCULATION_BLOCKED"
run_code run_superseded = "CALCULATION_SUPERSEDED"
run_code run_succeeded = "CALCULATION_SUCCEEDED"
run_code run_running = "CALCULATION_RUNNING"

-- The transaction after a batch in the loop of `calculate`; `target` is the day before the job's.
pub after_batch : ℕ → ℕ → BatchResult → Job → Job
after_batch now target result job =
    let touched : Job = record job {
      run_id = result.run_id;
      updated_at = now;
      status = calculating;
    } in
    elim result.status [
      | run_succeeded ↦
          if result.as_of == target
          then record touched {
            counters = record no_counters { calculated = some result.churn_risk };
            status = if same_kind job.kind diagnostic then diagnosed else awaiting_evidence;
          }
          else touched
      | run_running ↦ touched
      | stopped ↦ record touched { status = Status.blocked; error_code = some (run_code stopped) }
    ]

pub is_calculating : Status → Bool
is_calculating calculating = true
is_calculating _ = false

-- TERMINAL
pub is_terminal : Status → Bool
is_terminal succeeded = true
is_terminal partial = true
is_terminal diagnosed = true
is_terminal expired = true
is_terminal _ = false

pub is_retryable : Status → Bool
is_retryable failed = true
is_retryable Status.blocked = true
is_retryable _ = false

-- The command `failure`.
pub fail : ℕ → Job → Job
fail now job =
    if is_terminal job.status
    then job
    else let attempts = or_else 0 job.counters.failed_attempts + 1 in
      record job {
        counters = record (job.counters) {
          failed_attempts = some attempts;
          retry_after = some (now + 60 * 2 ^ min attempts 5 * 1000000);
        };
        error_code = some "HOST_STAGE_FAILED";
        updated_at = now;
        status = if leb 3 attempts then failed else job.status;
      }

-- What `release_churn` returns.
pub data ReleaseStatus : Type 0 where
  release_made release_exists release_refused : ReleaseStatus

pub record Release : Type 0 where
  pub status : ReleaseStatus
  pub candidates : ℕ
  pub ready : ℕ
  pub release_id : String

-- The evidence handed to `authorize`, as far as it is looked at before the release is made.
pub record Evidence : Type 0 where
  pub has_expected_keys : Bool
  pub is_bound : Bool

-- The loop over the events of the release: an event carries the revision of its permanent policy, or
-- none yet, when it is attached now.
pub check_events : ReleaseStatus → ℕ → List (Option ℕ) → Bool
check_events made revision [] = true
check_events made revision (some producer ∷ rest) =
    producer == revision && check_events made revision rest
check_events release_exists revision (none ∷ rest) = false
check_events made revision (none ∷ rest) = check_events made revision rest

-- `policy.revision != row.settings_json['producer_policy_revision']`
pub producer_matches : Option ℕ → Option ChurnSchedule → Bool
producer_matches (some revision) (some row) =
    elim (lookup "producer_policy_revision" row.settings_json) [
      | some (int n) ↦ revision == n
      | _ ↦ false
    ]
producer_matches _ _ = false

pub is_ready : Job → Bool
is_ready job =
    same_kind job.kind daily
    && elim job.status [ awaiting_evidence ↦ true | Status.blocked ↦ true | _ ↦ false ]
    && is_some job.run_id

-- The job once the release is made or found.
pub after_release : ℕ → Release → List (Option ℕ) → Job → Result Failure Job
after_release now release events job =
    let counted : Job = record job {
      counters = record (job.counters) {
        prepared = some release.candidates;
        allowed = some release.ready;
      };
    } in
    elim release.status [
      | release_refused ↦ ok (record counted {
        status = Status.blocked;
        error_code = some "RELEASE_NOT_APPROVED";
        updated_at = now;
      })
      | made ↦
          if check_events made job.policy_revision events
          then ok (record counted {
            release_id = some release.release_id;
            status = released;
            error_code = none;
            updated_at = now;
          })
          else err immutable_release_conflict
    ]

module _ (moscow : ℕ → Local) where
  -- The command `retry`.
  pub retry : Option ChurnSchedule → ℕ → Job → Result Failure Job
  retry row now job = elim (guard_job moscow job row now) [
    | err e ↦ err (guarded e)
    | ok _ ↦
        if not (is_retryable job.status)
        then err job_not_retryable
        else ok (record job {
          counters = record (job.counters) { failed_attempts = none; retry_after = none };
          status = if is_some job.release_id then released else queued;
          error_code = none;
          updated_at = now;
        })
  ]

  -- `authorize(db, job, data)`, given what `release_churn` returns and the events of its release.
  pub authorize :
      Option ChurnSchedule
      → Option ℕ
      → Evidence
      → Release
      → List (Option ℕ)
      → ℕ
      → Job
      → Result Failure Job
  authorize row policy evidence release events now job = elim (guard_job moscow job row now) [
    | err e ↦ err (guarded e)
    | ok _ ↦ do
      raise_if (not (is_ready job)) job_not_ready_for_release
      raise_if (not (producer_matches policy row)) producer_policy_revision_changed
      raise_if (not evidence.has_expected_keys) invalid_evidence_bundle
      raise_if (not evidence.is_bound) receiver_evidence_not_bound
      after_release now release events job
  ]
