-- ===== src/Inactivity.antt =====
-- backend/app/services/inactivity.py and churn_pilot.py: when a client is overdue or lost. Medians,
-- deviations and quartiles of whole days are multiples of a quarter day, and are kept in quarters.
use sales_journal.Prelude.{
  Bool, Option, false, if◌then◌else◌, is_none, leb_ℤ, ltb, max, none, or_else, pos, some, sub_ℕ,
  true, ℕ, ℤ, ◌&&◌, ◌*◌, ◌+◌, ◌/◌, ◌==◌, ◌||◌,
}
pub mod Laws
mod Tests

pub record Features : Type 0 where
  pub last_purchase_date : Option ℕ
  pub median_interval : Option ℕ
  pub mad : Option ℕ
  pub q75 : Option ℕ
  pub distinct_purchase_days : Option ℕ
  pub gap_count : Option ℕ
  pub history_span_days : Option ℕ

pub data Reason : Type 0 where
  eligible no_valid_purchase_days insufficient_history irregular_purchase_pattern : Reason
  interval_too_long source_unreliable : Reason

pub data SignalType : Type 0 where
  purchase_overdue churn_risk : SignalType

pub data Freshness : Type 0 where
  healthy unhealthy : Freshness

-- The result without its score, confidence and metrics.
pub record Decision : Type 0 where
  pub is_eligible : Bool
  pub reason : Reason
  pub signal_type : Option SignalType
  pub overdue_threshold : Option ℕ
  pub churn_threshold : Option ℕ

-- POLICY, the interval and the dispersion in quarters.
abbrev pub min_days : ℕ
min_days = 8

abbrev pub min_gaps : ℕ
min_gaps = 7

abbrev pub min_span : ℕ
min_span = 56

abbrev pub max_interval : ℕ
max_interval = 240

-- `ceil(1.5*mid)`, `ceil(3*mid)` and `ceil(mid)` of a number of quarters.
pub ceil_half_more : ℕ → ℕ
ceil_half_more mid = (3 * mid + 7) / 8

pub ceil_triple : ℕ → ℕ
ceil_triple mid = (3 * mid + 3) / 4

pub ceil_quarters : ℕ → ℕ
ceil_quarters mid = (mid + 3) / 4

-- `mad/max(mid, 1) > 0.75`
pub is_irregular : ℕ → ℕ → Bool
is_irregular mad mid = ltb (3 * max mid 4) (4 * mad)

pub is_eligible_reason : Reason → Bool
is_eligible_reason eligible = true
is_eligible_reason _ = false

-- `max(ceil(1.5*mid), ceil(q75)+2, ceil(mid)+2)`
pub overdue_at : ℕ → ℕ → ℕ
overdue_at mid q75 = max (ceil_half_more mid) (max (ceil_quarters q75 + 2) (ceil_quarters mid + 2))

-- `max(ceil(3*mid), ceil(q75)+7, 14)`
pub churn_at : ℕ → ℕ → ℕ
churn_at mid q75 = max (ceil_triple mid) (max (ceil_quarters q75 + 7) 14)

-- The chain of reasons of `evaluate`, the source's freshness last and overriding.
pub reason_of : Features → Freshness → Reason
reason_of f unhealthy = source_unreliable
reason_of f healthy =
    let mid = or_else 0 f.median_interval in
    let count = or_else 0 f.distinct_purchase_days in
    if is_none f.last_purchase_date || count == 0
    then no_valid_purchase_days
    else if ltb count min_days
        || ltb (or_else 0 f.gap_count) min_gaps
        || ltb (or_else 0 f.history_span_days) min_span
        || mid == 0
    then insufficient_history
    else if is_irregular (or_else 0 f.mad) mid
    then irregular_purchase_pattern
    else if ltb max_interval mid
    then interval_too_long
    else eligible

-- The stage that a number of days without a purchase has reached.
pub stage : ℕ → ℕ → ℤ → Option SignalType
stage mid q75 days =
    if leb_ℤ (pos (churn_at mid q75)) days
    then some churn_risk
    else if leb_ℤ (pos (overdue_at mid q75)) days
    then some purchase_overdue
    else none

pub threshold : (ℕ → ℕ → ℕ) → ℕ → ℕ → Option ℕ
threshold at mid q75 = if mid == 0 then none else some (at mid q75)

-- `evaluate(features, as_of, freshness=...)` of inactivity.py
pub evaluate : Features → ℕ → Freshness → Decision
evaluate f as_of freshness =
    let mid = or_else 0 f.median_interval in
    let q75 = or_else 0 f.q75 in
    let reason = reason_of f freshness in
    record {
      is_eligible = is_eligible_reason reason;
      reason = reason;
      signal_type = elim f.last_purchase_date [
        | none ↦ none
        | some last ↦ if is_eligible_reason reason then stage mid q75 (sub_ℕ as_of last) else none
      ];
      overdue_threshold = threshold overdue_at mid q75;
      churn_threshold = threshold churn_at mid q75;
    }

-- The reasons of the pilot.
pub pilot_reason : Features → Freshness → Reason
pilot_reason f unhealthy = source_unreliable
pilot_reason f healthy =
    let count = or_else 0 f.distinct_purchase_days in
    if is_none f.last_purchase_date || count == 0
    then no_valid_purchase_days
    else if ltb count 3 || ltb (or_else 0 f.gap_count) 2 || or_else 0 f.median_interval == 0
    then insufficient_history
    else eligible

-- `evaluate` of churn_pilot.py: `floor(mid) + 1` days are one more than the cycle.
pub evaluate_pilot : Features → ℕ → Freshness → Decision
evaluate_pilot f as_of freshness =
    let mid = or_else 0 f.median_interval in
    let reason = pilot_reason f freshness in
    record {
      is_eligible = is_eligible_reason reason;
      reason = reason;
      signal_type = elim f.last_purchase_date [
        | none ↦ none
        | some last ↦
            if is_eligible_reason reason && leb_ℤ (pos (mid / 4 + 1)) (sub_ℕ as_of last)
            then some churn_risk
            else none
      ];
      overdue_threshold = none;
      churn_threshold = if mid == 0 then none else some (mid / 4 + 1);
    }
