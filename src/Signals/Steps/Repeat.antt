-- ===== src/Signals/Steps/Repeat.antt =====
-- analytics_signal_store.py: a run repeated on the same findings records nothing.
use sales_journal.Prelude.{
  Bool-cases, Option, Option-cases, [], arith, false, inl, inr, ltb, none, refl, some, true, ◌+◌,
  ◌≡◌, ◌⊎◌,
}
use sales_journal.Signals.{Signal, Finding, Run, is_resolved, apply_evidence, recorded}
use sales_journal.Signals.Steps.{
  is_source_unreliable, raise_signal, renew, latest, close_pass, revise_pass, open_episode, revised,
  Reconciled, reconcile, unchanged,
}
use sales_journal.Signals.Steps.Episodes.{
  renew_resolved, revised-Kept, IsEpisode, reconcile-some, renew_open,
}
use sales_journal.Signals.Steps.Fits.{
  open_episode-Fits, raise_some, raise_none, revised-Fits, resolved_silent, Fits-silent, Fits,
  IsSound,
}

reconcile-some_not_none :
    (run : Run) (f : Finding) (s : Signal)
    → ltb run.as_of s.as_of ≡ false
    → ¬ (reconcile run f (some s) ≡ none)
unfolding reconcile
reconcile-some_not_none run f s h = λ e. cc (rw (h, reconcile) at e)

reconcile_returns :
    (run : Run) (f : Finding) (s : Signal)
    → ltb run.as_of s.as_of ≡ false
    → (r : Reconciled) × (reconcile run f (some s) ≡ some r)
reconcile_returns run f s h = elim (Option-cases (reconcile run f (some s))) [
  | inl ahead ↦ absurd (reconcile-some_not_none run f s h ahead)
  | inr returned ↦ returned
]

Fits-not_ahead :
    (run : Run) (f : Finding) (s : Signal) → Fits run f s → ltb run.as_of s.as_of ≡ false
unfolding unchanged apply_evidence
Fits-not_ahead run f s fits = ground (arith, fits.settled)

accepted_not_ahead :
    (run : Run) (f : Finding) (s : Signal) (r : Reconciled)
    → reconcile run f (some s) ≡ some r
    → ltb run.as_of s.as_of ≡ false
unfolding reconcile
accepted_not_ahead run f s r h = ground arith

close_pass_not_ahead :
    (run : Run) (f : Finding) (s : Signal)
    → ltb run.as_of s.as_of ≡ false
    → ltb run.as_of (close_pass run f s).0.as_of ≡ false
unfolding close_pass recorded apply_evidence
close_pass_not_ahead run f s h = ground arith

revise_pass_not_ahead :
    (run : Run) (f : Finding) (s : Signal) → ltb run.as_of (revise_pass run f s).0.as_of ≡ false
unfolding revise_pass recorded apply_evidence
revise_pass_not_ahead run f s = ground arith

revised_not_ahead :
    (run : Run) (f : Finding) (s : Signal)
    → ltb run.as_of s.as_of ≡ false
    → ltb run.as_of (revised run f s).0.as_of ≡ false
unfolding revised
revised_not_ahead run f s h =
    ground
      (arith, close_pass_not_ahead run f s h, revise_pass_not_ahead run f (close_pass run f s).0)

-- What the next run finds, by how the last episode was left.
latest_cases :
    (run run' : Run) (f : Finding) (s : Signal) (r : Reconciled)
    → IsEpisode s
    → IsSound f
    → is_source_unreliable f.decision.reason ≡ false
    → run'.as_of ≡ run.as_of
    → run'.evidence ≡ run.evidence
    → reconcile run f (some s) ≡ some r
    → (t : Signal) × (latest r ≡ some t)
      × (ltb run'.as_of t.as_of ≡ false)
      × (Fits run' f t
          ⊎ (IsEpisode t × (is_resolved t.status ≡ true) × (f.decision.signal_type ≡ none)))
unfolding latest
latest_cases run run' f s r e sound reliable same alike h =
    let result = reconcile-some run f s r h in
    let last = (revised run f s).0 in
    let fine : ltb run'.as_of last.as_of ≡ false =
      rw same (revised_not_ahead run f s (accepted_not_ahead run f s r h)) in
    elim (Bool-cases (is_resolved last.status)) [
      | inr still_open ↦ (
        last,
        rw (result, renew_open run f last still_open) refl,
        fine,
        inl (revised-Fits run run' f s reliable same alike still_open),
      )
      | inl closed ↦ elim (Option-cases f.decision.signal_type) [
        | inl no_signal ↦ (
          last,
          rw
              (
                result,
                renew_resolved run f last closed,
                raise_none run f (last.episode_no + 1) no_signal,
              )
              refl,
          fine,
          inr ((revised-Kept run f s e).episode, closed, no_signal),
        )
        | inr (kind, raised) ↦ (
          (open_episode run f (last.episode_no + 1) kind).0,
          rw
              (
                result,
                renew_resolved run f last closed,
                raise_some run f (last.episode_no + 1) kind raised,
              )
              refl,
          Fits-not_ahead run' f _
              (open_episode-Fits run run' f (last.episode_no + 1) kind sound same alike raised),
          inl (open_episode-Fits run run' f (last.episode_no + 1) kind sound same alike raised),
        )
      ]
    ]

reconcile_known_again :
    (run run' : Run) (f : Finding) (s : Signal) (r : Reconciled)
    → IsEpisode s
    → IsSound f
    → is_source_unreliable f.decision.reason ≡ false
    → run'.as_of ≡ run.as_of
    → run'.evidence ≡ run.evidence
    → reconcile run f (some s) ≡ some r
    → (r' : Reconciled) × (reconcile run' f (latest r) ≡ some r') × (r'.changes ≡ [])
reconcile_known_again run run' f s r e sound reliable same alike h =
    let (t, found, fine, how) = latest_cases run run' f s r e sound reliable same alike h in
    let (r', again) = reconcile_returns run' f t fine in
    rw found (
      r',
      again,
      elim how [
        | inl fits ↦ Fits-silent run' f t r' fits again
        | inr (episode, closed, no_signal) ↦
            resolved_silent run' f t r' episode closed no_signal again
      ],
    )

-- A client without an episode.
reconcile_new :
    (run : Run) (f : Finding)
    → reconcile run f none
      ≡ some (record {
        last = none;
        opened = (raise_signal run f 1).0;
        changes = (raise_signal run f 1).1;
      })
unfolding reconcile renew
reconcile_new run f = refl

new_result :
    (run : Run) (f : Finding) (r : Reconciled)
    → reconcile run f none ≡ some r
    → r ≡ record {
      last = none;
      opened = (raise_signal run f 1).0;
      changes = (raise_signal run f 1).1;
    }
new_result run f r h = let e = reconcile_new run f in ground arith

reconcile_new_again :
    (run run' : Run) (f : Finding) (r : Reconciled)
    → IsSound f
    → run'.as_of ≡ run.as_of
    → run'.evidence ≡ run.evidence
    → reconcile run f none ≡ some r
    → (r' : Reconciled) × (reconcile run' f (latest r) ≡ some r') × (r'.changes ≡ [])
unfolding latest
reconcile_new_again run run' f r sound same alike h = elim (Option-cases f.decision.signal_type) [
  | inl no_signal ↦
      rw (new_result run f r h, raise_none run f 1 no_signal)
        (
          record { last = none; opened = none; changes = [] },
          rw (reconcile_new run' f, raise_none run' f 1 no_signal) refl,
          refl,
        )
  | inr (kind, raised) ↦
      let t = (open_episode run f 1 kind).0 in
      let fits = open_episode-Fits run run' f 1 kind sound same alike raised in
      let (r', again) = reconcile_returns run' f t (Fits-not_ahead run' f t fits) in
      rw (new_result run f r h, raise_some run f 1 kind raised)
        (r', again, Fits-silent run' f t r' fits again)
]

-- A second run on the same finding, to the same day, with the same evidence of its own, under any
-- id and at any time, returns and records no change after the first. The client has no episode yet
-- or its last one is well formed, the decision is sound and its reason is not an unreliable source.
pub reconcile_again :
    (run run' : Run) (f : Finding) (before : Option Signal) (r : Reconciled)
    → ((s : Signal) → before ≡ some s → IsEpisode s)
    → IsSound f
    → is_source_unreliable f.decision.reason ≡ false
    → run'.as_of ≡ run.as_of
    → run'.evidence ≡ run.evidence
    → reconcile run f before ≡ some r
    → (r' : Reconciled) × (reconcile run' f (latest r) ≡ some r') × (r'.changes ≡ [])
reconcile_again run run' f none r e sound reliable same alike h =
    reconcile_new_again run run' f r sound same alike h
reconcile_again run run' f (some s) r e sound reliable same alike h =
    reconcile_known_again run run' f s r (e s refl) sound reliable same alike h
