-- ===== src/Schedule/Jobs/Tests.antt =====
-- churn_schedule.py: queueing on one morning.
use sales_journal.Prelude.{[], false, none, ok, refl, some, true, ℕ, ◌%◌, ◌/◌, ◌∷◌, ◌≡◌}
use sales_journal.Schedule.Clock.{Local, strftime, two_digits, time_pattern}
use sales_journal.Schedule.Config.{
  Fields, Settings, text, int, lookup, strict_int, any_text, time_text, known_key, validate,
}
use sales_journal.Schedule.Control.{ChurnSchedule, control, algorithm_matches}
use sales_journal.Schedule.Control.Laws.{current}
use sales_journal.Schedule.Jobs.{
  Job, no_counters, queued, daily, Store, first_job, for_day, too_early, admission, proceed,
  enqueue, guard_job,
}
use sales_journal.Schedule.Jobs.Laws.{enqueue_again, enqueue-guard}

abbrev config : Fields
config =
    ("time", text "09:30")
    ∷ ("daily_limit", int 10)
    ∷ ("cooldown_days", int 30)
    ∷ ("algorithm_policy", text "aviator-churn-pilot/2")
    ∷ ("receiver_policy_revision", int 1)
    ∷ ("producer_policy_revision", int 2)
    ∷ []

abbrev settings : Settings
settings = record {
  time = "09:30";
  daily_limit = 10;
  cooldown_days = 30;
  algorithm_policy = "aviator-churn-pilot/2";
  receiver_policy_revision = 1;
  producer_policy_revision = 2;
}

-- The clock of a host that counts minutes from a midnight.
abbrev wall : ℕ → Local
wall now = record {
  date = now / 1440;
  hour = now % 1440 / 60;
  minute = now % 60;
  second = 0;
  microsecond = 0;
}

abbrev row : ChurnSchedule
row = record { revision = 2; enabled = true; approved = true; settings_json = config }

abbrev store : Store
store = record { base = record { schedule = some row; decisions = [] }; jobs = [] }

abbrev made : Job
made = record {
  id = "first";
  business_date = 0;
  kind = daily;
  policy_revision = 2;
  status = queued;
  run_id = none;
  release_id = none;
  created_at = 600;
  updated_at = 600;
  counters = no_counters;
  error_code = none;
}

passes :
    (now : ℕ)
    → too_early (wall now) "09:30" ≡ false
    → admission (wall now) false (current store.base) ≡ proceed
unfolding admission control algorithm_matches validate lookup strict_int any_text time_text
    known_key time_pattern
passes now h = rw h refl

at_ten : too_early (wall 600) "09:30" ≡ false
unfolding too_early strftime two_digits
at_ten = refl

at_eleven : too_early (wall 660) "09:30" ≡ false
unfolding too_early strftime two_digits
at_eleven = refl

first_made : (enqueue wall 600 false "first" store).0 ≡ ok (some made)
unfolding enqueue control first_job admission validate lookup known_key time_text time_pattern
    strict_int any_text algorithm_matches too_early strftime two_digits
first_made = refl

enqueue_again_example :
    enqueue wall 660 false "second" (enqueue wall 600 false "first" store).1
    ≡ (ok (some made), (enqueue wall 600 false "first" store).1)
enqueue_again_example =
    enqueue_again wall 600 660 false "first" "second" store first_made refl (passes 660 at_eleven)

no_job : first_job (for_day 0 daily) [] ≡ none
unfolding first_job
no_job = refl

enqueue-guard_example :
    (made.kind ≡ daily)
    × (made.business_date ≡ 0)
    × (made.policy_revision ≡ (current store.base).revision)
    × ((current store.base).enabled ≡ true)
    × ((current store.base).approved ≡ true)
    × (algorithm_matches (current store.base).settings_json ≡ true)
    × ((s : Settings) × (validate (current store.base).settings_json ≡ some s)
        × (too_early (wall 600) s.time ≡ false))
    × (guard_job wall made (some (current store.base)) 600 ≡ ok tt)
enqueue-guard_example = enqueue-guard wall 600 "first" store made no_job first_made
