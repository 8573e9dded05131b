-- ===== src/Signals/Steps/Fits.antt =====
-- analytics_signal_store.py: an open episode on which a finding has nothing more to say.
use sales_journal.Prelude.{
  Bool-cases, List, Option, [], ap, arith, eq_iff, false, if◌then◌else◌, inl, inr, is_some, none,
  or_else, refl, some, sym, true, ℕ, ◌+◌, ◌∙◌, ◌≡◌,
}
use sales_journal.Inactivity.{churn_risk, Reason, SignalType}
use sales_journal.Signals.{
  Status, Resolution, Signal, Change, Finding, Run, same_type, is_resolved, apply_evidence,
  recorded,
}
use sales_journal.Signals.Steps.{
  raise_signal, is_source_unreliable, close_pass, revise, revise_pass, open_episode, revised,
  Reconciled, reconcile, unchanged, same_status, same_reason, same_resolution, same_instant,
  bought_since, bought_before,
}
use sales_journal.Signals.Steps.Episodes.{
  renew_resolved, revised-Kept, IsEpisode, reconcile-some, renew_open,
}

-- A decision with a signal is one of an eligible client that has bought, and its reason says whether
-- the client is eligible.
pub record IsSound (f : Finding) : Type 0 where
  pub signal_eligible : is_some f.decision.signal_type ≡ true → f.decision.is_eligible ≡ true
  pub eligible_bought : f.decision.is_eligible ≡ true → is_some f.last_purchase_date ≡ true

same_status_self : (s : Status) → same_status s s ≡ true
unfolding same_status
same_status_self s = ground arith

same_type_self : (s : SignalType) → same_type s s ≡ true
unfolding same_type
same_type_self s = ground arith

same_instant_self : (t : Option ℕ) → same_instant t t ≡ true
unfolding same_instant
same_instant_self none = refl
same_instant_self (some t) = ground arith

same_reason_self : (r : Reason) → same_reason r r ≡ true
unfolding same_reason
same_reason_self r = ground arith

same_resolution_self : (r : Option Resolution) → same_resolution r r ≡ true
unfolding same_resolution
same_resolution_self none = refl
same_resolution_self (some (Resolution.ineligible r)) = same_reason_self r
same_resolution_self (some Resolution.purchase_occurred) = refl
same_resolution_self (some Resolution.data_correction) = refl
same_resolution_self (some Resolution.model_reevaluation) = refl

revised_open :
    (run : Run) (f : Finding) (s : Signal)
    → close_pass run f s ≡ (s, [])
    → is_resolved s.status ≡ false
    → revised run f s ≡ revise_pass run f s
unfolding revised
revised_open run f s c o = rw (c, o, revised) refl

-- An open episode on which the finding has nothing more to say.
pub record Fits (run : Run) (f : Finding) (s : Signal) : Type 0 where
  pub is_open : is_resolved s.status ≡ false
  pub not_since : bought_since f.last_purchase_date s.anchor_purchase_date ≡ false
  pub settled : unchanged s (apply_evidence run f (revise run f s)) ≡ true

close_pass_silent :
    (run : Run) (f : Finding) (s : Signal)
    → bought_since f.last_purchase_date s.anchor_purchase_date ≡ false
    → close_pass run f s ≡ (s, [])
unfolding close_pass
close_pass_silent run f s h = ground arith

revise_pass_silent :
    (run : Run) (f : Finding) (s : Signal)
    → unchanged s (apply_evidence run f (revise run f s)) ≡ true
    → is_resolved s.status ≡ false
    → ((revise_pass run f s).1 ≡ []) × (is_resolved (revise_pass run f s).0.status ≡ false)
unfolding revise_pass unchanged same_status is_resolved apply_evidence
revise_pass_silent run f s h o = (ground arith, ground arith)

-- Such an episode is left without a change, and nothing is opened.
pub Fits-silent :
    (run : Run) (f : Finding) (s : Signal) (r : Reconciled)
    → Fits run f s
    → reconcile run f (some s) ≡ some r
    → r.changes ≡ []
Fits-silent run f s r fits h =
    let silent = revise_pass_silent run f s fits.settled fits.is_open in
    let passes : revised run f s ≡ ((revise_pass run f s).0, []) =
      rw (revised_open run f s (close_pass_silent run f s fits.not_since) fits.is_open)
        (ap (λ (c : List Change). ((revise_pass run f s).0, c)) silent.0) in
    rw (reconcile-some run f s r h)
      (rw passes (rw (renew_open run f (revise_pass run f s).0 silent.1) refl))

unchanged_of :
    (a b : Signal)
    → a.status ≡ b.status
    → a.signal_type ≡ b.signal_type
    → a.resolved_at ≡ b.resolved_at
    → a.resolution_reason ≡ b.resolution_reason
    → a.severity ≡ b.severity
    → a.score ≡ b.score
    → a.evidence ≡ b.evidence
    → a.run_evidence ≡ b.run_evidence
    → a.as_of ≡ b.as_of
    → unchanged a b ≡ true
unfolding unchanged
unchanged_of a b e1 e2 e3 e4 e5 e6 e7 e8 e9 =
    rw (← e1, ← e2, ← e3, ← e4, ← e5, ← e6, ← e7, ← e8, ← e9)
      (ground (
        arith,
        same_status_self a.status,
        same_type_self a.signal_type,
        same_instant_self a.resolved_at,
        same_resolution_self a.resolution_reason,
        eq_iff a.evidence a.evidence,
        eq_iff a.run_evidence a.run_evidence,
      ))

-- The branches for an open episode do not move it twice.
revise_again :
    (run run' : Run) (f : Finding) (s t : Signal)
    → t.status ≡ (revise run f s).status
    → t.signal_type ≡ (revise run f s).signal_type
    → t.resolution_reason ≡ (revise run f s).resolution_reason
    → t.anchor_purchase_date ≡ s.anchor_purchase_date
    → is_resolved t.status ≡ false
    → let u = revise run' f t in
      (u.status ≡ t.status)
      × (u.signal_type ≡ t.signal_type)
      × (u.resolution_reason ≡ t.resolution_reason)
      × (u.resolved_at ≡ t.resolved_at)
unfolding revise is_resolved
revise_again run run' f s t e1 e2 e3 e4 o = ground arith

-- An episode with the evidence of the finding on which the branches agree fits it.
Fits-of :
    (run' : Run) (f : Finding) (t : Signal)
    → is_resolved t.status ≡ false
    → bought_since f.last_purchase_date t.anchor_purchase_date ≡ false
    → (let u = revise run' f t in
        (u.status ≡ t.status)
        × (u.signal_type ≡ t.signal_type)
        × (u.resolution_reason ≡ t.resolution_reason)
        × (u.resolved_at ≡ t.resolved_at))
    → t.severity ≡ (if same_type t.signal_type churn_risk then 3 else 2)
    → t.score ≡ f.score
    → t.evidence ≡ f.evidence
    → t.run_evidence ≡ run'.evidence
    → t.as_of ≡ run'.as_of
    → Fits run' f t
unfolding apply_evidence
Fits-of run' f t o since (e1, e2, e3, e4) sev sc ev rev day = record {
  is_open = o;
  not_since = since;
  settled =
      unchanged_of t (apply_evidence run' f (revise run' f t)) (sym e1) (sym e2) (sym e4) (sym e3)
        (rw (e1, e2, o) sev) (rw (e1, o) sc) ev rev day;
}

not_after : (last : Option ℕ) → bought_since last (or_else 0 last) ≡ false
unfolding bought_since
not_after none = refl
not_after (some last) = ground arith

not_ahead : (last : Option ℕ) → bought_before last (or_else 0 last) ≡ false
unfolding bought_before
not_ahead none = refl
not_ahead (some last) = ground arith

revise_anchor :
    (run : Run) (f : Finding) (s : Signal)
    → (revise run f s).anchor_purchase_date ≡ s.anchor_purchase_date
unfolding revise
revise_anchor run f s = ground arith

-- What the second pass makes of an episode, whether it records a change or not.
revise_pass_core :
    (run : Run) (f : Finding) (s : Signal)
    → let t = (revise_pass run f s).0 in
      let r = revise run f s in
      (t.status ≡ r.status)
      × (t.signal_type ≡ r.signal_type)
      × (t.resolution_reason ≡ r.resolution_reason)
      × (t.anchor_purchase_date ≡ s.anchor_purchase_date)
      × (is_resolved t.status ≡ false
          → t.severity ≡ (if same_type t.signal_type churn_risk then 3 else 2))
      × (is_resolved t.status ≡ false → t.score ≡ f.score)
      × (t.evidence ≡ f.evidence)
      × (t.as_of ≡ run.as_of)
      × (t.run_evidence ≡ run.evidence)
unfolding revise_pass recorded apply_evidence
revise_pass_core run f s = (
  ground arith,
  ground arith,
  ground arith,
  ground (arith, revise_anchor run f s),
  ground arith,
  ground arith,
  ground arith,
  ground arith,
  ground arith,
)

-- A new episode fits the finding that opened it.
pub open_episode-Fits :
    (run run' : Run) (f : Finding) (n : ℕ) (kind : SignalType)
    → IsSound f
    → run'.as_of ≡ run.as_of
    → run'.evidence ≡ run.evidence
    → f.decision.signal_type ≡ some kind
    → Fits run' f (open_episode run f n kind).0
unfolding open_episode recorded apply_evidence is_resolved revise bought_before bought_since
open_episode-Fits run run' f n kind sound same alike raised =
    Fits-of run' f (open_episode run f n kind).0 refl (not_after f.last_purchase_date)
      (ground (arith, sound.signal_eligible, sound.eligible_bought, not_ahead f.last_purchase_date))
      refl refl refl (sym alike) (sym same)

-- What the second pass leaves open fits the finding.
revise_pass-Fits :
    (run run' : Run) (f : Finding) (s : Signal)
    → run'.as_of ≡ run.as_of
    → run'.evidence ≡ run.evidence
    → bought_since f.last_purchase_date s.anchor_purchase_date ≡ false
    → is_resolved (revise_pass run f s).0.status ≡ false
    → Fits run' f (revise_pass run f s).0
revise_pass-Fits run run' f s same alike since o =
    let core = revise_pass_core run f s in
    Fits-of run' f (revise_pass run f s).0 o (rw (core.3) since)
      (revise_again run run' f s (revise_pass run f s).0 core.0 core.1 core.2 core.3 o) (core.4 o)
      (core.5 o) core.6 (core.8 ∙ sym alike) (core.7 ∙ sym same)

pub raise_none :
    (run : Run) (f : Finding) (n : ℕ)
    → f.decision.signal_type ≡ none
    → raise_signal run f n ≡ (none, [])
unfolding raise_signal
raise_none run f n no_signal = ground arith

pub resolved_silent :
    (run : Run) (f : Finding) (s : Signal) (r : Reconciled)
    → IsEpisode s
    → is_resolved s.status ≡ true
    → f.decision.signal_type ≡ none
    → reconcile run f (some s) ≡ some r
    → r.changes ≡ []
resolved_silent run f s r e closed no_signal h =
    let final = (revised-Kept run f s e).final closed in
    rw (reconcile-some run f s r h) (
      rw (final.0, final.1)
        (rw (renew_resolved run f s closed)
          (rw (raise_none run f (s.episode_no + 1) no_signal) refl)))

-- The first pass fires once: what it leaves open has seen no later purchase.
close_pass_open :
    (run : Run) (f : Finding) (s : Signal)
    → is_source_unreliable f.decision.reason ≡ false
    → is_resolved (close_pass run f s).0.status ≡ false
    → (close_pass run f s ≡ (s, []))
      × (bought_since f.last_purchase_date s.anchor_purchase_date ≡ false)
      × (is_resolved s.status ≡ false)
unfolding close_pass recorded apply_evidence is_resolved
close_pass_open run f s reliable o = (ground arith, ground arith, ground arith)

pub raise_some :
    (run : Run) (f : Finding) (n : ℕ) (kind : SignalType)
    → f.decision.signal_type ≡ some kind
    → raise_signal run f n ≡ (some (open_episode run f n kind).0, (open_episode run f n kind).1)
unfolding raise_signal
raise_some run f n kind raised = ground arith

-- An episode that both passes leave open fits the finding.
pub revised-Fits :
    (run run' : Run) (f : Finding) (s : Signal)
    → is_source_unreliable f.decision.reason ≡ false
    → run'.as_of ≡ run.as_of
    → run'.evidence ≡ run.evidence
    → is_resolved (revised run f s).0.status ≡ false
    → Fits run' f (revised run f s).0
unfolding revised
revised-Fits run run' f s reliable same alike o =
    elim (Bool-cases (is_resolved (close_pass run f s).0.status)) [
      | inl closed ↦ ground (arith, closed)
      | inr still ↦
          let quiet = close_pass_open run f s reliable still in
          let e = revised_open run f s quiet.0 quiet.2 in
          rw e (revise_pass-Fits run run' f s same alike quiet.1 (rw e at o))
    ]
