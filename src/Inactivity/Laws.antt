-- ===== src/Inactivity/Laws.antt =====
-- inactivity.py and churn_pilot.py: the stages follow one another, and what the pilot's threshold means.
use sales_journal.Prelude.{
  Bool, Bool-cases, Option, Option-cases, arith, false, if◌then◌else◌, inl, inr, max, none, or_else,
  refl, some, sub_ℕ, true, ℕ, ℤ, ◌*◌, ◌+◌, ◌-◌, ◌<◌, ◌↔◌, ◌≡◌, ◌≤ℤ◌, ◌≤◌,
}
use sales_journal.Inactivity.{
  Features, SignalType, purchase_overdue, churn_risk, Freshness, healthy, ceil_half_more,
  ceil_triple, ceil_quarters, is_irregular, is_eligible_reason, overdue_at, churn_at, reason_of,
  stage, evaluate, pilot_reason, evaluate_pilot,
}

-- How far a client has gone.
pub rank : Option SignalType → ℕ
rank none = 0
rank (some purchase_overdue) = 1
rank (some churn_risk) = 2

-- Ordered thresholds, whatever the interval: overdue never comes after churn.
overdue_at-le-churn_at : (mid q75 : ℕ) → overdue_at mid q75 ≤ churn_at mid q75
unfolding overdue_at churn_at ceil_half_more ceil_triple ceil_quarters
overdue_at-le-churn_at mid q75 = omega arith

sub_mono : (a b c : ℕ) → a ≤ b → sub_ℕ a c ≤ℤ sub_ℕ b c
sub_mono a b c h = ground arith

stage_mono : (mid q75 : ℕ) (a b : ℤ) → a ≤ℤ b → rank (stage mid q75 a) ≤ rank (stage mid q75 b)
unfolding rank stage
stage_mono mid q75 a b h = ground (arith, overdue_at-le-churn_at mid q75)

stage_bounds :
    (mid q75 as_of last : ℕ)
    → last ≤ as_of
    → ((1 ≤ rank (stage mid q75 (sub_ℕ as_of last))) ↔ (overdue_at mid q75 + last ≤ as_of))
      × ((stage mid q75 (sub_ℕ as_of last) ≡ some churn_risk) ↔ (churn_at mid q75 + last ≤ as_of))
unfolding rank stage
stage_bounds mid q75 as_of last h =
    let order = overdue_at-le-churn_at mid q75 in
    ((ground (arith, order), ground (arith, order)), (ground (arith, order), ground (arith, order)))

eligible_iff :
    (f : Features) (last : ℕ)
    → f.last_purchase_date ≡ some last
    → (is_eligible_reason (reason_of f healthy) ≡ true) ↔ (
        (8 ≤ or_else 0 f.distinct_purchase_days)
        × (7 ≤ or_else 0 f.gap_count)
        × (56 ≤ or_else 0 f.history_span_days)
        × (0 < or_else 0 f.median_interval)
        × (or_else 0 f.median_interval ≤ 240)
        × (4 * or_else 0 f.mad ≤ 3 * max (or_else 0 f.median_interval) 4))
unfolding reason_of is_eligible_reason is_irregular
eligible_iff f last l = (ground arith, ground arith)

-- As days pass without a purchase and nothing else changes, the signal only escalates: it is never
-- weaker at a later date.
pub evaluate_mono :
    (f : Features) (as_of later : ℕ) (freshness : Freshness)
    → as_of ≤ later
    → rank (evaluate f as_of freshness).signal_type ≤ rank (evaluate f later freshness).signal_type
unfolding evaluate
evaluate_mono f as_of later freshness h = elim (Option-cases f.last_purchase_date) [
  | inl never ↦ rw (never, evaluate) (omega arith)
  | inr (last, e) ↦
      rw (e, evaluate)
        (elim (Bool-cases (is_eligible_reason (reason_of f freshness))) [
          | inl good ↦ rw good (stage_mono _ _ _ _ (sub_mono as_of later last h))
          | inr bad ↦ rw bad (omega arith)
        ])
]

guarded_iff :
    {P : Type 0} (b : Bool) (s : Option SignalType)
    → ((1 ≤ rank s) ↔ P)
    → (1 ≤ rank (if b then s else none)) ↔ ((b ≡ true) × P)
unfolding rank
guarded_iff true s e = (λ h. (refl, e.0 h), λ p. e.1 p.1)
guarded_iff false s e = (λ h. absurd (omega arith), λ p. cc (p.0))

guarded_churn :
    {P : Type 0} (b : Bool) (s : Option SignalType)
    → ((s ≡ some churn_risk) ↔ P)
    → ((if b then s else none) ≡ some churn_risk) ↔ ((b ≡ true) × P)
guarded_churn true s e = (λ h. (refl, e.0 h), λ p. e.1 p.1)
guarded_churn false s e = (λ h. cc, λ p. cc (p.0))

signal_lem :
    (f : Features) (last as_of : ℕ) (freshness : Freshness)
    → f.last_purchase_date ≡ some last
    → (evaluate f as_of freshness).signal_type ≡ (
        if is_eligible_reason (reason_of f freshness)
        then stage (or_else 0 f.median_interval) (or_else 0 f.q75) (sub_ℕ as_of last)
        else none)
unfolding evaluate
signal_lem f last as_of freshness l = ground arith

eligible_lem :
    (f : Features) (as_of : ℕ) (freshness : Freshness)
    → (evaluate f as_of freshness).is_eligible ≡ is_eligible_reason (reason_of f freshness)
unfolding evaluate
eligible_lem f as_of freshness = refl

-- For a client whose last purchase is not after the day, on a healthy source: a signal of any type is
-- raised exactly for an eligible client past the overdue threshold, and of
-- churn exactly past the churn threshold; what makes a client eligible is a regular cycle of at most
-- 60 days over enough days, gaps and span.
pub evaluate-signal_iff :
    (f : Features) (last as_of : ℕ)
    → f.last_purchase_date ≡ some last
    → last ≤ as_of
    → let d = evaluate f as_of healthy in
      let mid = or_else 0 f.median_interval in
      let q75 = or_else 0 f.q75 in
      ((1 ≤ rank d.signal_type) ↔ ((d.is_eligible ≡ true) × (overdue_at mid q75 + last ≤ as_of)))
      × ((d.signal_type ≡ some churn_risk)
          ↔ ((d.is_eligible ≡ true) × (churn_at mid q75 + last ≤ as_of)))
      × ((d.is_eligible ≡ true) ↔ (
          (8 ≤ or_else 0 f.distinct_purchase_days)
          × (7 ≤ or_else 0 f.gap_count)
          × (56 ≤ or_else 0 f.history_span_days)
          × (0 < mid)
          × (mid ≤ 240)
          × (4 * or_else 0 f.mad ≤ 3 * max mid 4)))
evaluate-signal_iff f last as_of l h =
    let limits = stage_bounds (or_else 0 f.median_interval) (or_else 0 f.q75) as_of last h in
    rw (signal_lem f last as_of healthy l) (
      rw (eligible_lem f as_of healthy) (
        guarded_iff (is_eligible_reason (reason_of f healthy)) _ limits.0,
        guarded_churn (is_eligible_reason (reason_of f healthy)) _ limits.1,
        eligible_iff f last l,
      ))

-- For a client with a median interval and a last purchase that is not after the day, on a healthy
-- source: the pilot raises its signal exactly for an eligible client whose days without a purchase
-- exceed the median interval, compared without rounding.
pub evaluate_pilot-signal_iff :
    (f : Features) (last as_of mid : ℕ)
    → f.last_purchase_date ≡ some last
    → f.median_interval ≡ some mid
    → last ≤ as_of
    → ((evaluate_pilot f as_of healthy).signal_type ≡ some churn_risk) ↔ (
        (3 ≤ or_else 0 f.distinct_purchase_days)
        × (2 ≤ or_else 0 f.gap_count)
        × (0 < mid)
        × (mid < 4 * (as_of - last)))
unfolding evaluate_pilot pilot_reason is_eligible_reason
evaluate_pilot-signal_iff f last as_of mid l m h = (ground arith, ground arith)
