-- ===== src/Signals/Steps.antt =====
-- analytics_signal_store.py: the two passes of `reconcile_batch` for one client.
use sales_journal.Prelude.{
  Bool, List, Option, [], false, if◌then◌else◌, ltb, none, not, or_else, some, str_eq, true, ℕ,
  ◌&&◌, ◌++◌, ◌+◌, ◌==◌, ◌∷◌,
}
pub mod Episodes
pub mod Fits
pub mod Repeat
mod Tests
use sales_journal.Inactivity.{
  Reason, eligible, no_valid_purchase_days, insufficient_history, irregular_purchase_pattern,
  interval_too_long, source_unreliable, SignalType, churn_risk,
}
use sales_journal.Signals.{
  Status, active, suspended, resolved, Resolution, ineligible, purchase_occurred, data_correction,
  model_reevaluation, Signal, Event, created, resolved_event, suspended_event, resumed, escalated,
  deescalated, updated, Change, Finding, Run, same_type, is_resolved, apply_evidence, recorded,
}

-- The signal of a client after a pass, and the changes that it recorded.
abbrev pub Passed : Type 0
Passed = Option Signal × List Change

pub is_source_unreliable : Reason → Bool
is_source_unreliable source_unreliable = true
is_source_unreliable _ = false

-- `last and last > s.anchor_purchase_date`
pub bought_since : Option ℕ → ℕ → Bool
bought_since none anchor = false
bought_since (some last) anchor = ltb anchor last

-- The first pass: a purchase after the anchor closes the open episode.
pub close_pass : Run → Finding → Signal → Signal × List Change
close_pass run f s =
    if not (is_resolved s.status)
      && not (is_source_unreliable f.decision.reason)
      && bought_since f.last_purchase_date s.anchor_purchase_date
    then (let closed : Signal = record s {
      status = resolved;
      resolved_at = some run.now;
      resolution_reason = some purchase_occurred;
      last_evaluated_at = run.now;
      as_of = run.as_of;
    } in
        let (s', change) = recorded run resolved_event (apply_evidence run f closed) in
        (s', change ∷ []))
    else (s, [])

-- `f["last_purchase_date"] < s.anchor_purchase_date`
pub bought_before : Option ℕ → ℕ → Bool
bought_before none anchor = false
bought_before (some last) anchor = ltb last anchor

-- The branches for an open episode, up to the evidence.
pub revise : Run → Finding → Signal → Signal
revise run f s =
    if not f.decision.is_eligible
    then record s { status = suspended; resolution_reason = some (ineligible f.decision.reason) }
    else if bought_before f.last_purchase_date s.anchor_purchase_date
    then record s {
      status = resolved;
      resolved_at = some run.now;
      resolution_reason = some data_correction;
    }
    else elim f.decision.signal_type [
      | none ↦ record s {
        status = resolved;
        resolved_at = some run.now;
        resolution_reason = some model_reevaluation;
      }
      | some kind ↦ record s { status = active; signal_type = kind; resolution_reason = none }
    ]

pub same_status : Status → Status → Bool
same_status active active = true
same_status suspended suspended = true
same_status resolved resolved = true
same_status _ _ = false

pub same_reason : Reason → Reason → Bool
same_reason eligible eligible = true
same_reason no_valid_purchase_days no_valid_purchase_days = true
same_reason insufficient_history insufficient_history = true
same_reason irregular_purchase_pattern irregular_purchase_pattern = true
same_reason interval_too_long interval_too_long = true
same_reason source_unreliable source_unreliable = true
same_reason _ _ = false

pub same_resolution : Option Resolution → Option Resolution → Bool
same_resolution none none = true
same_resolution (some (ineligible r)) (some (ineligible q)) = same_reason r q
same_resolution (some purchase_occurred) (some purchase_occurred) = true
same_resolution (some data_correction) (some data_correction) = true
same_resolution (some model_reevaluation) (some model_reevaluation) = true
same_resolution _ _ = false

pub same_instant : Option ℕ → Option ℕ → Bool
same_instant none none = true
same_instant (some a) (some b) = a == b
same_instant _ _ = false

-- `any(before[k] != snapshot(s)[k] for k in before if k not in ignored)`: the bookkeeping columns are
-- ignored, and the columns that no branch writes are equal.
pub unchanged : Signal → Signal → Bool
unchanged before s =
    same_status before.status s.status
    && same_type before.signal_type s.signal_type
    && same_instant before.resolved_at s.resolved_at
    && same_resolution before.resolution_reason s.resolution_reason
    && before.severity == s.severity
    && before.score == s.score
    && str_eq before.evidence s.evidence
    && str_eq before.run_evidence s.run_evidence
    && before.as_of == s.as_of

-- The event of a meaningful change.
pub event_of : Signal → Signal → Event
event_of before s =
    if is_resolved s.status
    then resolved_event
    else if not (same_status before.status suspended) && same_status s.status suspended
    then suspended_event
    else if same_status before.status suspended && same_status s.status active
    then resumed
    else if not (same_type before.signal_type s.signal_type)
    then (if same_type s.signal_type churn_risk then escalated else deescalated)
    else updated

-- The second pass on an open episode.
pub revise_pass : Run → Finding → Signal → Signal × List Change
revise_pass run f s =
    let s' : Signal = record (apply_evidence run f (revise run f s)) {
      last_evaluated_at = run.now;
    } in
    if unchanged s s'
    then (s', [])
    else (let (s'', change) = recorded run (event_of s s') s' in (s'', change ∷ []))

-- A new episode. Every decision with a signal has a last purchase; 0 stands for a missing one.
pub open_episode : Run → Finding → ℕ → SignalType → Signal × List Change
open_episode run f number kind =
    let (s, change) = recorded run created (
      apply_evidence run f (record {
        client_key = f.client_key;
        episode_no = number;
        status = active;
        signal_type = kind;
        anchor_purchase_date = or_else 0 f.last_purchase_date;
        resolved_at = none;
        resolution_reason = none;
        severity = 0;
        score = 0;
        evidence = "";
        run_evidence = "";
        as_of = run.as_of;
        revision = 0;
        run_id = run.id;
        detected_at = run.now;
        updated_at = run.now;
        last_evaluated_at = run.now;
      })) in
    (s, change ∷ [])

-- The episode of a number, where the decision has a signal.
pub raise_signal : Run → Finding → ℕ → Option Signal × List Change
raise_signal run f number = elim f.decision.signal_type [
  | none ↦ (none, [])
  | some kind ↦ let (s, changes) = open_episode run f number kind in (some s, changes)
]

-- After the passes on the last episode: a new one where none is open and the decision has a signal.
pub renew : Run → Finding → Option Signal → Option Signal × List Change
renew run f none = raise_signal run f 1
renew run f (some s) =
    if is_resolved s.status then raise_signal run f (s.episode_no + 1) else (none, [])

-- What `reconcile_batch` does for one client: the last episode as it is left, the episode that is
-- opened, and the changes in the order in which they are recorded; `none` is the ValueError for an
-- episode that is ahead of the run.
pub record Reconciled : Type 0 where
  pub last : Option Signal
  pub opened : Option Signal
  pub changes : List Change

-- Both passes on the last episode.
pub revised : Run → Finding → Signal → Signal × List Change
revised run f s =
    let (s1, first) = close_pass run f s in
    if is_resolved s1.status
    then (s1, first)
    else (let (s2, second) = revise_pass run f s1 in (s2, first ++ second))

pub reconcile : Run → Finding → Option Signal → Option Reconciled
reconcile run f none =
    let (opened, changes) = renew run f none in
    some (record { last = none; opened = opened; changes = changes })
reconcile run f (some s) =
    if ltb run.as_of s.as_of
    then none
    else (let (s', changes) = revised run f s in
        let (opened, more) = renew run f (some s') in
        some (record { last = some s'; opened = opened; changes = changes ++ more }))

-- The episode that the next run finds as the client's last.
pub latest : Reconciled → Option Signal
latest r = elim r.opened [ some s ↦ some s | none ↦ r.last ]
