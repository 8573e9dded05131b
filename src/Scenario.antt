-- ===== src/Scenario.antt =====
-- backend/app/services/scenario_retry.py, scenario_periods.py and scenarios.py: the scheduled runs of
-- one scenario. Instants are seconds; a day is a day number with its place in the calendar.
use sales_journal.Prelude.{
  All, Bool, Bool-cases, List, Option, [], arith, false, holds, if◌then◌else◌, inl, inr, ltb, none,
  refl, some, true, ℕ, ◌+◌, ◌-◌, ◌<◌, ◌==◌, ◌∷◌, ◌≡◌, ◌≤◌, ◌⊎◌,
}
mod Tests

pub record Day : Type 0 where
  pub number : ℕ
  pub day : ℕ
  -- how many days the month before it has
  pub previous_length : ℕ

pub data Status : Type 0 where
  running failed completed : Status

-- ScenarioRun of the type "scheduled".
pub record Run : Type 0 where
  pub run_date : ℕ
  pub created_at : ℕ
  pub period : Option (ℕ × ℕ)
  pub status : Status

abbrev pub retry_interval : ℕ
retry_interval = 3600

-- `report_period(day)`
pub report_period : Day → Option (ℕ × ℕ)
report_period d =
    if d.day == 14
    then some (d.number - 14 - (d.previous_length - 27), d.number - 1)
    else if d.day == 28
    then some (d.number - 14, d.number - 1)
    else none

pub is_unfinished : Status → Bool
is_unfinished running = true
is_unfinished failed = true
is_unfinished completed = false

-- A run of this day, where it is a day of reports and has none yet.
pub plan_today : Day → Option Run → Option (ℕ × ℕ × ℕ)
plan_today today latest = elim (report_period today) [
  | none ↦ none
  | some (start, end) ↦
      if holds (λ (r : Run). r.run_date == today.number) latest
      then none
      else some (today.number, start, end)
]

-- `scheduled_run_plan(now, latest)`: the date of the run and its period. The rows have no other time
-- of the last attempt than created_at.
pub scheduled_run_plan : ℕ → Day → Option Run → Option (ℕ × ℕ × ℕ)
scheduled_run_plan now today none = plan_today today none
scheduled_run_plan now today (some latest) =
    if is_unfinished latest.status
    then (if ltb now (latest.created_at + retry_interval) then none else elim latest.period [
      | some (start, end) ↦ some (latest.run_date, start, end)
      | none ↦ plan_today today (some latest)
    ])
    else plan_today today (some latest)

pub outcome : Bool → Status
outcome sent = if sent then completed else failed

-- `process_scheduled_scenarios` for one scenario, its runs newest first; `sent` says whether
-- `run_scenario` succeeds.
pub process : ℕ → Day → Bool → List Run → List Run
process now today sent [] = elim (scheduled_run_plan now today none) [
  | none ↦ []
  | some (date, start, end) ↦
      record {
        run_date = date;
        created_at = now;
        period = some (start, end);
        status = outcome sent;
      }
      ∷ []
]
process now today sent (latest ∷ older) = elim (scheduled_run_plan now today (some latest)) [
  | none ↦ latest ∷ older
  | some (date, start, end) ↦
      let run : Run = record {
        run_date = date;
        created_at = now;
        period = some (start, end);
        status = outcome sent;
      } in
      if latest.run_date == date then run ∷ older else run ∷ latest ∷ older
]

-- Newest first, and one run for each date at most.
abbrev pub IsDescending : List Run → Type 0
IsDescending [] = Unit
IsDescending (r ∷ rs) = All (λ older. older.run_date < r.run_date) rs × IsDescending rs

-- The newest run is not of a day to come.
abbrev pub IsPast : ℕ → List Run → Type 0
IsPast day [] = Unit
IsPast day (r ∷ rs) = r.run_date ≤ day

All-before :
    (a b : ℕ) (rs : List Run)
    → a ≤ b
    → All (λ (older : Run). older.run_date < a) rs
    → All (λ (older : Run). older.run_date < b) rs
All-before a b [] h s = tt
All-before a b (r ∷ rs) h s = (omega (arith, s.0), All-before a b rs h s.1)

plan_date :
    (now : ℕ) (today : Day) (latest : Run) (date start end : ℕ)
    → scheduled_run_plan now today (some latest) ≡ some (date, start, end)
    → (date ≡ latest.run_date)
      ⊎ ((date ≡ today.number) × ((latest.run_date == today.number) ≡ false))
unfolding scheduled_run_plan plan_today
plan_date now today latest date start end h = ground arith

first_date :
    (now : ℕ) (today : Day) (date start end : ℕ)
    → scheduled_run_plan now today none ≡ some (date, start, end)
    → date ≤ today.number
unfolding scheduled_run_plan plan_today
first_date now today date start end h = ground arith

-- Whenever it runs and whether or not the report is sent, the scheduler keeps one run for each date,
-- newest first and none of a day to come: a failed one is tried again in its place.
pub process-IsDescending :
    (now : ℕ) (today : Day) (sent : Bool) (runs : List Run)
    → IsDescending runs
    → IsPast today.number runs
    → IsDescending (process now today sent runs) × IsPast today.number (process now today sent runs)
unfolding process
process-IsDescending now today sent [] d p = by_plan (scheduled_run_plan now today none) refl
  where
    by_plan :
        (o : Option (ℕ × ℕ × ℕ))
        → scheduled_run_plan now today none ≡ o
        → IsDescending (process now today sent []) × IsPast today.number (process now today sent [])
    by_plan none e = rw (e, process) (tt, tt)
    by_plan (some (date, start, end)) e =
        rw (e, process) ((tt, tt), first_date now today date start end e)
process-IsDescending now today sent (latest ∷ older) d p =
    by_plan (scheduled_run_plan now today (some latest)) refl
  where
    by_plan :
        (o : Option (ℕ × ℕ × ℕ))
        → scheduled_run_plan now today (some latest) ≡ o
        → IsDescending (process now today sent (latest ∷ older))
          × IsPast today.number (process now today sent (latest ∷ older))
    by_plan none e = rw (e, process) (d, p)
    by_plan (some (date, start, end)) e = elim (Bool-cases (latest.run_date == date)) [
      | inl same ↦
          let here : latest.run_date ≡ date = ground arith in
          rw (e, same, process) ((rw (← here) (d.0), d.1), rw (← here) p)
      | inr other ↦ elim (plan_date now today latest date start end e) [
        | inl retried ↦ absurd (ground arith)
        | inr (new_one, _) ↦
            let newer : latest.run_date < date = ground arith in
            rw (e, other, process)
              (
                ((newer, All-before latest.run_date date older (omega arith) (d.0)), d),
                omega (arith, new_one),
              )
      ]
    ]
