-- ===== src/Season/Tests.antt =====
-- backend/app/seasonality.py: a healthy row.
use sales_journal.Prelude.{[], false, none, refl, some, true, ◌≡◌}
use sales_journal.Season.{State, scheduled, execute}
use sales_journal.Season.Laws.{breaking, scheduled_thrice}

abbrev healthy : State
healthy = record {
  enabled = true;
  stop_requested = false;
  is_idle = false;
  failure_count = 0;
  error_code = none;
  source_revision = 4;
  job_revision = 4;
  last_checked = none;
  rebuild_required = false;
}

scheduled_thrice_example :
    let after = execute (breaking []) (execute (breaking []) (execute (breaking []) healthy)) in
    (after.enabled ≡ false)
    × (after.failure_count ≡ 3)
    × (after.error_code ≡ some "calculation_error")
    × (execute (scheduled []) after ≡ after)
scheduled_thrice_example = scheduled_thrice [] [] [] [] healthy refl refl refl
