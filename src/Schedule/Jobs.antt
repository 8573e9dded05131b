-- ===== src/Schedule/Jobs.antt =====
-- churn_schedule.py: jobs, `enqueue` and `guard_job`; models/churn_schedule.py: ChurnJob. An instant
-- is a number of microseconds, and `moscow` stands for the conversion of the time zone library.
use sales_journal.Prelude.{
  Bool, List, Option, Result, String, [], codes, err, false, if◌then◌else◌, lex_lt, none, not, ok,
  some, true, ℕ, ◌&&◌, ◌++◌, ◌==◌, ◌||◌, ◌∷◌,
}
pub mod Laws
mod Tests
use sales_journal.Schedule.Clock.{Local, strftime}
use sales_journal.Schedule.Config.{Scalar, text, Fields, lookup, validate}
use sales_journal.Schedule.Control.{
  Error, invalid_settings, algorithm_policy_mismatch, policy_revoked_or_changed, job_expired,
  key_error, ChurnSchedule, Db, control, algorithm_matches,
}

pub data Kind : Type 0 where
  daily diagnostic : Kind

pub same_kind : Kind → Kind → Bool
same_kind daily daily = true
same_kind diagnostic diagnostic = true
same_kind _ _ = false

pub data Status : Type 0 where
  queued calculating awaiting_evidence diagnosed blocked released delivering : Status
  succeeded partial failed expired : Status

-- The keys of the JSON object `counters` that the program writes; `none` is a missing key.
pub record Counters : Type 0 where
  pub calculated : Option ℕ
  pub prepared : Option ℕ
  pub allowed : Option ℕ
  pub sent : Option ℕ
  pub accepted : Option ℕ
  pub tasks_created : Option ℕ
  pub tasks_linked : Option ℕ
  pub rejected : Option ℕ
  pub failed_attempts : Option ℕ
  pub retry_after : Option ℕ

abbrev pub no_counters : Counters
no_counters = record {
  calculated = none;
  prepared = none;
  allowed = none;
  sent = none;
  accepted = none;
  tasks_created = none;
  tasks_linked = none;
  rejected = none;
  failed_attempts = none;
  retry_after = none;
}

pub record Job : Type 0 where
  pub id : String
  pub business_date : ℕ
  pub kind : Kind
  pub policy_revision : ℕ
  pub status : Status
  pub run_id : Option String
  pub release_id : Option String
  pub created_at : ℕ
  pub updated_at : ℕ
  pub counters : Counters
  pub error_code : Option String

pub record Store : Type 0 where
  pub base : Db
  pub jobs : List Job

-- `ChurnJob.business_date == day, ChurnJob.kind == kind`
pub for_day : ℕ → Kind → Job → Bool
for_day day kind job = job.business_date == day && same_kind job.kind kind

-- `db.scalar(select(ChurnJob).where(...))`: the first row, if any.
pub first_job : (Job → Bool) → List Job → Option Job
first_job p [] = none
first_job p (job ∷ jobs) = let rest = first_job p jobs in if p job then some job else rest

-- `local.strftime('%H:%M') < config['time']`
pub too_early : Local → String → Bool
too_early local time = lex_lt (strftime local) (codes time)

-- The checks of a daily run: nothing, an error, or go on.
pub data Admission : Type 0 where
  skip proceed : Admission
  refuse : Error → Admission

pub admission : Local → Bool → ChurnSchedule → Admission
admission local true row = proceed
admission local false row =
    if not row.approved || not row.enabled then skip else elim (validate row.settings_json) [
      | none ↦ refuse invalid_settings
      | some config ↦
          if not (algorithm_matches row.settings_json)
          then refuse algorithm_policy_mismatch
          else if too_early local config.time
          then skip
          else proceed
    ]

abbrev pub kind_of : Bool → Kind
kind_of true = diagnostic
kind_of false = daily

module _ (moscow : ℕ → Local) where
  -- `enqueue(db, now=now, diagnostic=diagnostic)`; `id` is the fresh uuid4.
  pub enqueue : ℕ → Bool → String → Store → Result Error (Option Job) × Store
  enqueue now is_diagnostic id store =
      let (row, base) = control store.base in
      let kept : Store = record store { base = base } in
      elim (admission (moscow now) is_diagnostic row) [
        | skip ↦ (ok none, kept)
        | refuse e ↦ (err e, kept)
        | proceed ↦
            elim (first_job (for_day (moscow now).date (kind_of is_diagnostic)) store.jobs) [
              | some job ↦ (ok (some job), kept)
              | none ↦
                  let job : Job = record {
                    id = id;
                    business_date = (moscow now).date;
                    kind = kind_of is_diagnostic;
                    policy_revision = row.revision;
                    status = queued;
                    run_id = none;
                    release_id = none;
                    created_at = now;
                    updated_at = now;
                    counters = no_counters;
                    error_code = none;
                  } in
                  (ok (some job), record { base = base; jobs = store.jobs ++ job ∷ [] })
            ]
      ]

  -- `guard_job(job, row, now)`
  pub guard_job : Job → Option ChurnSchedule → ℕ → Result Error (Unit {0})
  guard_job job row now =
      let current : Bool = elim row [
        | none ↦ false
        | some r ↦ r.enabled && r.approved && r.revision == job.policy_revision
      ] in
      if not (same_kind job.kind diagnostic) && not current
      then err policy_revoked_or_changed
      else if job.business_date == (moscow now).date
      then ok tt
      else err job_expired
