-- ===== src/Inactivity/Tests.antt =====
-- inactivity.py and churn_pilot.py: one client with a cycle of ten days.
use sales_journal.Prelude.{arith, refl, some, ◌*◌, ◌-◌, ◌<◌, ◌↔◌, ◌≡◌, ◌≤◌}
use sales_journal.Inactivity.{Features, healthy, churn_risk, evaluate_pilot}
use sales_journal.Inactivity.Laws.{evaluate_pilot-signal_iff}

abbrev weekly : Features
weekly = record {
  last_purchase_date = some 100;
  median_interval = some 40;
  mad = some 4;
  q75 = some 48;
  distinct_purchase_days = some 9;
  gap_count = some 8;
  history_span_days = some 80;
}

evaluate_pilot-signal_iff_example :
    ((evaluate_pilot weekly 111 healthy).signal_type ≡ some churn_risk)
    ↔ ((3 ≤ 9) × (2 ≤ 8) × (0 < 40) × (40 < 4 * (111 - 100)))
evaluate_pilot-signal_iff_example =
    evaluate_pilot-signal_iff weekly 100 111 40 refl refl (omega arith)
