-- ===== src/Signals/Steps/Episodes.antt =====
-- analytics_signal_store.py: what every episode is like, and which changes a run records.
use sales_journal.Prelude.{
  Bool, Bool-cases, List, Option, Option-cases, [], arith, false, inl, inr, is_some, length, ltb,
  none, or_else, refl, some, some_inj, sym, true, ℕ, ◌++◌, ◌+◌, ◌≡◌, ◌≤◌, ◌⊎◌,
}
use mathlib.Core.List.{append-nil}
use sales_journal.Inactivity.{SignalType}
use sales_journal.Signals.{
  active, suspended, resolved, Resolution, ineligible, Signal, Change, Finding, Run, is_resolved,
  apply_evidence, recorded,
}
use sales_journal.Signals.Steps.{
  revised, raise_signal, close_pass, revise, revise_pass, open_episode, renew, Reconciled,
  reconcile,
}

unfoldable pub is_ineligible : Option Resolution → Bool
is_ineligible (some (ineligible r)) = true
is_ineligible _ = false

-- A resolved episode has an instant, a reason and no score; an open one has no instant, and its
-- reason is that of its suspension.
pub record IsEpisode (s : Signal) : Type 0 where
  pub resolved_closed :
      s.status ≡ resolved
      → (is_some s.resolved_at ≡ true)
        × (is_some s.resolution_reason ≡ true)
        × (is_ineligible s.resolution_reason ≡ false)
        × (s.score ≡ 0)
        × (s.severity ≡ 0)
  pub open_unresolved : is_resolved s.status ≡ false → s.resolved_at ≡ none
  pub active_clear : s.status ≡ active → (s.resolution_reason ≡ none) × (2 ≤ s.severity)
  pub suspended_reason : s.status ≡ suspended → is_ineligible s.resolution_reason ≡ true

close_pass-IsEpisode :
    (run : Run) (f : Finding) (s : Signal) → IsEpisode s → IsEpisode (close_pass run f s).0
unfolding close_pass recorded apply_evidence is_resolved is_ineligible
close_pass-IsEpisode run f s e = ground arith

revise_pass-IsEpisode :
    (run : Run) (f : Finding) (s : Signal)
    → is_resolved s.status ≡ false
    → IsEpisode s
    → IsEpisode (revise_pass run f s).0
unfolding revise_pass revise recorded apply_evidence is_resolved is_ineligible
revise_pass-IsEpisode run f s o e = ground (arith, e.open_unresolved o)

open_episode-IsEpisode :
    (run : Run) (f : Finding) (n : ℕ) (kind : SignalType) → IsEpisode (open_episode run f n kind).0
unfolding open_episode recorded apply_evidence is_resolved is_ineligible
open_episode-IsEpisode run f n kind = ground arith

-- What is opened is an episode of the number asked for, active from the last purchase on, at its
-- first revision, with one change recorded.
pub record Opened (f : Finding) (number : ℕ) (n : Signal) (changes : List Change) : Type 0 where
  pub numbered : n.episode_no ≡ number
  pub active_now : n.status ≡ active
  pub typed : f.decision.signal_type ≡ some n.signal_type
  pub anchored : n.anchor_purchase_date ≡ or_else 0 f.last_purchase_date
  pub first_revision : n.revision ≡ 1
  pub one_change : length changes ≡ 1

open_episode-Opened :
    (run : Run) (f : Finding) (number : ℕ) (kind : SignalType)
    → f.decision.signal_type ≡ some kind
    → Opened f number (open_episode run f number kind).0 (open_episode run f number kind).1
unfolding open_episode recorded apply_evidence
open_episode-Opened run f number kind raised = ground arith

pub raise_signal_lem :
    (run : Run) (f : Finding) (number : ℕ)
    → ((raise_signal run f number ≡ (none, [])) × (f.decision.signal_type ≡ none))
      ⊎ ((n : Signal) × (changes : List Change) × (raise_signal run f number ≡ (some n, changes))
          × IsEpisode n
          × Opened f number n changes)
unfolding raise_signal
raise_signal_lem run f number = elim (Option-cases f.decision.signal_type) [
  | inl no_signal ↦ inl (ground arith, no_signal)
  | inr (kind, raised) ↦ inr (
    (open_episode run f number kind).0,
    (open_episode run f number kind).1,
    ground arith,
    open_episode-IsEpisode run f number kind,
    open_episode-Opened run f number kind raised,
  )
]

-- What a pass does to an episode: one revision for each change, at most one change, and the number
-- and the anchor stay.
pub record Kept (s s' : Signal) (changes : List Change) : Type 0 where
  pub episode : IsEpisode s'
  pub counted : s'.revision ≡ s.revision + length changes
  pub at_most_one : length changes ≤ 1
  pub same_number : s'.episode_no ≡ s.episode_no
  pub same_anchor : s'.anchor_purchase_date ≡ s.anchor_purchase_date
  pub final : is_resolved s.status ≡ true → (s' ≡ s) × (changes ≡ [])

close_pass-frame :
    (run : Run) (f : Finding) (s : Signal)
    → let (s', changes) = close_pass run f s in
      (s'.revision ≡ s.revision + length changes)
      × (s'.episode_no ≡ s.episode_no)
      × (s'.anchor_purchase_date ≡ s.anchor_purchase_date)
      × (((s' ≡ s) × (changes ≡ []))
          ⊎ ((is_resolved s.status ≡ false)
              × (is_resolved s'.status ≡ true)
              × (length changes ≡ 1)))
unfolding close_pass recorded apply_evidence is_resolved
close_pass-frame run f s = ground arith

revise_pass-frame :
    (run : Run) (f : Finding) (s : Signal)
    → let (s', changes) = revise_pass run f s in
      (s'.revision ≡ s.revision + length changes)
      × (s'.episode_no ≡ s.episode_no)
      × (s'.anchor_purchase_date ≡ s.anchor_purchase_date)
      × (length changes ≤ 1)
unfolding revise_pass revise recorded apply_evidence
revise_pass-frame run f s = ground arith

pub revised-Kept :
    (run : Run) (f : Finding) (s : Signal)
    → IsEpisode s
    → Kept s (revised run f s).0 (revised run f s).1
unfolding revised
revised-Kept run f s e = elim (close_pass-frame run f s).3 [
  | inl (same, silent) ↦ elim (Bool-cases (is_resolved s.status)) [
    | inl done ↦
        rw (same, silent, done, revised)
          (record {
            episode = e;
            counted = omega arith;
            at_most_one = omega arith;
            same_number = refl;
            same_anchor = refl;
            final = λ _. (refl, refl);
          })
    | inr open_still ↦
        let frame = revise_pass-frame run f s in
        rw (same, silent, open_still, revised)
          (record {
            episode = revise_pass-IsEpisode run f s open_still e;
            counted = frame.0;
            at_most_one = frame.3;
            same_number = frame.1;
            same_anchor = frame.2;
            final = λ h. cc;
          })
  ]
  | inr (was_open, closed, one) ↦
      let frame = close_pass-frame run f s in
      rw (closed, revised)
        (record {
          episode = close_pass-IsEpisode run f s e;
          counted = frame.0;
          at_most_one = omega (arith, one);
          same_number = frame.1;
          same_anchor = frame.2;
          final = λ h. cc;
        })
]

-- What one run does to the last episode of a client, and what it opens.
pub record Outcome (f : Finding) (s : Signal) (r : Reconciled) : Type 0 where
  pub after : Signal
  pub own : List Change
  pub stored : r.last ≡ some after
  pub kept : Kept s after own
  pub opening :
      ((r.opened ≡ none)
        × (r.changes ≡ own)
        × ((is_resolved after.status ≡ false) ⊎ (f.decision.signal_type ≡ none)))
      ⊎ ((n : Signal) × (more : List Change) × (r.opened ≡ some n)
          × (r.changes ≡ own ++ more)
          × (is_resolved after.status ≡ true)
          × IsEpisode n
          × Opened f (s.episode_no + 1) n more)

-- The result, by whether the episode is ahead of the run.
pub reconcile-some :
    (run : Run) (f : Finding) (s : Signal) (r : Reconciled)
    → reconcile run f (some s) ≡ some r
    → let (s', own) = revised run f s in
      let (opened, more) = renew run f (some s') in
      r ≡ record { last = some s'; opened = opened; changes = own ++ more }
unfolding reconcile
reconcile-some run f s r h = elim (Bool-cases (ltb run.as_of s.as_of)) [
  | inl ahead ↦ cc (rw (ahead, reconcile) at h)
  | inr fine ↦ sym (some_inj (rw (fine, reconcile) at h))
]

pub renew_resolved :
    (run : Run) (f : Finding) (s : Signal)
    → is_resolved s.status ≡ true
    → renew run f (some s) ≡ raise_signal run f (s.episode_no + 1)
unfolding renew
renew_resolved run f s h = rw (h, renew) refl

pub renew_open :
    (run : Run) (f : Finding) (s : Signal)
    → is_resolved s.status ≡ false
    → renew run f (some s) ≡ (none, [])
unfolding renew
renew_open run f s h = rw (h, renew) refl

-- One run on a client whose last episode is well formed: that episode stays one, with its number and
-- its anchor; if it was resolved, it is not touched again; each change it records is one revision,
-- and there is one at most. A new episode is opened only where the last one is resolved: it has the
-- next number, the signal of the decision and the last purchase for its anchor, and one change more.
-- None is opened only where the last one is open or the decision has no signal.
pub reconcile-Outcome :
    (run : Run) (f : Finding) (s : Signal) (r : Reconciled)
    → IsEpisode s
    → reconcile run f (some s) ≡ some r
    → Outcome f s r
reconcile-Outcome run f s r e h =
    go (revised run f s) (revised-Kept run f s e) (reconcile-some run f s r h)
  where
    go :
        (p : Signal × List Change)
        → Kept s p.0 p.1
        → r ≡ record {
          last = some p.0;
          opened = (renew run f (some p.0)).0;
          changes = p.1 ++ (renew run f (some p.0)).1;
        }
        → Outcome f s r
    go (s', own) kept result = elim (Bool-cases (is_resolved s'.status)) [
      | inr still_open ↦
          rw (result, renew_open run f s' still_open)
            (record {
              after = s';
              own = own;
              stored = refl;
              kept = kept;
              opening = inl (refl, append-nil own, inl still_open);
            })
      | inl closed ↦ elim (raise_signal_lem run f (s'.episode_no + 1)) [
        | inl (nothing, no_signal) ↦
            rw (result, renew_resolved run f s' closed, nothing)
              (record {
                after = s';
                own = own;
                stored = refl;
                kept = kept;
                opening = inl (refl, append-nil own, inr no_signal);
              })
        | inr (n, more, raised, episode, opened) ↦
            rw (result, renew_resolved run f s' closed, raised)
              (record {
                after = s';
                own = own;
                stored = refl;
                kept = kept;
                opening =
                    inr (n, more, refl, refl, closed, episode, (rw (← kept.same_number) opened));
              })
      ]
    ]
