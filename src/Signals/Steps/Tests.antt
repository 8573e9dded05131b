-- ===== src/Signals/Steps/Tests.antt =====
-- analytics_signal_store.py: an overdue client that has become a lost one.
use sales_journal.Prelude.{[], arith, false, none, refl, some, true, ◌∷◌, ◌≡◌}
use sales_journal.Signals.Steps.Fits.{IsSound}
use sales_journal.Inactivity.{eligible, churn_risk, purchase_overdue}
use sales_journal.Signals.{
  Signal, active, Finding, Run, escalated, is_resolved, apply_evidence, recorded, same_type,
}
use sales_journal.Signals.Steps.{
  Reconciled, reconcile, revised, close_pass, revise_pass, revise, renew, latest, unchanged,
  event_of, is_source_unreliable, bought_since, bought_before, same_status, same_reason,
  same_resolution, same_instant,
}
use sales_journal.Signals.Steps.Episodes.{IsEpisode, Outcome, is_ineligible, reconcile-Outcome}
use sales_journal.Signals.Steps.Repeat.{reconcile_again}

abbrev overdue : Signal
overdue = record {
  client_key = "c1";
  episode_no = 2;
  status = active;
  signal_type = purchase_overdue;
  anchor_purchase_date = 50;
  resolved_at = none;
  resolution_reason = none;
  severity = 2;
  score = 130;
  evidence = "e1";
  run_evidence = "v1";
  as_of = 70;
  revision = 3;
  run_id = "r1";
  detected_at = 700;
  updated_at = 700;
  last_evaluated_at = 700;
}

abbrev lost : Finding
lost = record {
  client_key = "c1";
  last_purchase_date = some 50;
  decision = record {
    is_eligible = true;
    reason = eligible;
    signal_type = some churn_risk;
    overdue_threshold = some 15;
    churn_threshold = some 30;
  };
  score = 310;
  evidence = "e2";
}

abbrev tonight : Run
tonight = record { id = "r2"; as_of = 81; now = 810; evidence = "v2" }

abbrev again : Run
again = record { id = "r3"; as_of = 81; now = 815; evidence = "v2" }

abbrev escalation : Signal
escalation = record overdue {
  signal_type = churn_risk;
  severity = 3;
  score = 310;
  evidence = "e2";
  run_evidence = "v2";
  as_of = 81;
  revision = 4;
  run_id = "r2";
  updated_at = 810;
  last_evaluated_at = 810;
}

abbrev first_result : Reconciled
first_result = record {
  last = some escalation;
  opened = none;
  changes = record { event = escalated; signal_revision = 4; payload = escalation } ∷ [];
}

overdue-IsEpisode : IsEpisode overdue
unfolding is_resolved is_ineligible
overdue-IsEpisode = record {
  resolved_closed = λ h. cc;
  open_unresolved = λ h. refl;
  active_clear = λ h. (refl, omega arith);
  suspended_reason = λ h. cc;
}

lost-IsSound : IsSound lost
lost-IsSound = record { signal_eligible = λ h. refl; eligible_bought = λ h. refl }

is_reliable : is_source_unreliable lost.decision.reason ≡ false
unfolding is_source_unreliable
is_reliable = refl

first_run : reconcile tonight lost (some overdue) ≡ some first_result
unfolding reconcile revised close_pass revise_pass revise renew unchanged event_of
    is_source_unreliable bought_since bought_before same_status same_reason same_resolution
    same_instant is_resolved apply_evidence recorded same_type
first_run = refl

reconcile-Outcome_example : Outcome lost overdue first_result
reconcile-Outcome_example =
    reconcile-Outcome tonight lost overdue first_result overdue-IsEpisode first_run

overdue_only : (s : Signal) → some overdue ≡ some s → IsEpisode s
overdue_only s e = let same : overdue ≡ s = ground arith in rw (← same) overdue-IsEpisode

reconcile_again_example :
    (r : Reconciled) × (reconcile again lost (latest first_result) ≡ some r) × (r.changes ≡ [])
reconcile_again_example =
    reconcile_again tonight again lost (some overdue) first_result overdue_only lost-IsSound
      is_reliable refl refl first_run
