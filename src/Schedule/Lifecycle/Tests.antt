-- ===== src/Schedule/Lifecycle/Tests.antt =====
-- churn_automation.py: a queued job, its calculation and a failure.
use sales_journal.Prelude.{String, false, none, refl, some, ℕ, ◌≡◌, ◌⊎◌}
use sales_journal.Schedule.Clock.{Local}
use sales_journal.Schedule.Jobs.{Job, daily, queued, no_counters}
use sales_journal.Schedule.Lifecycle.{BatchResult, run_succeeded, after_batch, fail, is_terminal}
use sales_journal.Schedule.Lifecycle.Laws.{
  is_sent, IsConsistent, here, next, batch, failure, Reach-IsConsistent,
}

abbrev wall : ℕ → Local
wall now = record { date = now; hour = 12; minute = 0; second = 0; microsecond = 0 }

abbrev plain_digest : String → String
plain_digest s = s

abbrev job : Job
job = record {
  id = "j";
  business_date = 7;
  kind = daily;
  policy_revision = 2;
  status = queued;
  run_id = none;
  release_id = none;
  created_at = 1;
  updated_at = 2;
  counters = no_counters;
  error_code = none;
}

abbrev calculated : BatchResult
calculated = record { status = run_succeeded; run_id = some "r"; as_of = 6; churn_risk = 12 }

job-IsConsistent : IsConsistent job
unfolding is_sent
job-IsConsistent = record { diagnostic_unreleased = λ h. refl; sent_released = λ h. cc }

Reach-IsConsistent_example :
    IsConsistent (fail 9 (after_batch 8 6 calculated job))
    × (((fail 9 (after_batch 8 6 calculated job)).kind ≡ daily)
        ⊎ (is_sent (fail 9 (after_batch 8 6 calculated job)).status ≡ false))
Reach-IsConsistent_example =
    Reach-IsConsistent wall plain_digest {job = job}
      {job' = fail 9 (after_batch 8 6 calculated job)} job-IsConsistent
      (next (next here (batch 8 6 calculated)) (failure 9))

open_job : is_terminal job.status ≡ false
unfolding is_terminal
open_job = refl
