-- ===== src/Schedule/Control/Tests.antt =====
-- churn_schedule.py: `change` on concrete schedules.
use sales_journal.Prelude.{Any, [], err, false, inl, none, ok, refl, true, ◌∷◌, ◌≡◌}
use sales_journal.Schedule.Config.{
  dump, Fields, text, int, flag, validate, lookup, strict_int, any_text, time_text, known_key,
}
use sales_journal.Schedule.Clock.{time_pattern}
use sales_journal.Schedule.Control.{
  Error, Db, ChurnSchedule, draft, approve, enable, disable, control, actor_char, audited_actor,
  same_revision, confirms, algorithm_matches, step, change,
}
use sales_journal.Schedule.Control.Laws.{current, IsSafe, Outcome, change-Outcome}
use sales_journal.Schedule.Control.History.{
  Approves, IsAudited, Request, run, run-approved, change_stale,
}

abbrev config : Fields
config =
    ("time", text "09:30")
    ∷ ("daily_limit", int 10)
    ∷ ("cooldown_days", int 30)
    ∷ ("algorithm_policy", text "aviator-churn-pilot/2")
    ∷ ("receiver_policy_revision", int 1)
    ∷ ("producer_policy_revision", int 2)
    ∷ []

abbrev empty : Db
empty = record { schedule = none; decisions = [] }

abbrev drafting : Request
drafting = record { action = draft; payload = config; revision = int 0; actor = text "ops@host" }

abbrev approving : Request
approving = record {
  action = approve;
  payload = ("confirm_business_approval", flag true) ∷ [];
  revision = int 1;
  actor = text "owner";
}

abbrev enabling : Request
enabling = record { action = enable; payload = []; revision = int 2; actor = text "owner" }

empty-IsSafe : IsSafe (current empty)
unfolding control dump
empty-IsSafe = record { enabled_approved = λ h. cc; approved_valid = λ h. cc }

empty-IsAudited : IsAudited empty
unfolding control dump
empty-IsAudited = λ h. cc

switched_on : (current (run empty (drafting ∷ approving ∷ enabling ∷ []))).enabled ≡ true
unfolding run change control step audited_actor same_revision confirms algorithm_matches actor_char
    validate lookup strict_int any_text time_text known_key time_pattern dump
switched_on = refl

run-approved_example :
    ((current (run empty (drafting ∷ approving ∷ enabling ∷ []))).approved ≡ true)
    × Any
        (Approves (current (run empty (drafting ∷ approving ∷ enabling ∷ []))))
        (run empty (drafting ∷ approving ∷ enabling ∷ [])).decisions
run-approved_example =
    run-approved empty (drafting ∷ approving ∷ enabling ∷ []) empty-IsSafe empty-IsAudited
      switched_on

change-Outcome_example :
    Outcome draft config (int 0) empty (change empty draft config (int 0) (text "ops@host"))
change-Outcome_example = change-Outcome empty draft config (int 0) (text "ops@host")

abbrev drafted : ChurnSchedule
drafted = record { revision = 1; enabled = false; approved = false; settings_json = config }

draft_accepted : (change empty draft config (int 0) (text "ops@host")).0 ≡ ok drafted
unfolding run change control step audited_actor same_revision actor_char validate lookup strict_int
    any_text time_text known_key time_pattern dump
draft_accepted = refl

abbrev late : Request
late = record { action = disable; payload = []; revision = int 0; actor = text "other" }

change_stale_example :
    let after = (change empty draft config (int 0) (text "ops@host")).1 in
    let again = change after disable [] (int 0) (text "other") in
    (drafted.revision ≡ 1)
    × (drafted.enabled ≡ false)
    × ((e : Error) × (again.0 ≡ err e))
    × (current again.1 ≡ drafted)
    × (again.1.decisions ≡ after.decisions)
change_stale_example = change_stale empty drafting late 0 (inl refl) refl refl draft_accepted
