-- ===== src/Schedule/Lifecycle/Laws.antt =====
-- churn_automation.py: the jobs that can be reached, and what three failures do.
use sales_journal.Prelude.{
  Bool, Bool-cases, List, Option, Result-cases, String, arith, false, inl, inr, is_some, none, ok,
  sym, true, ℕ, ◌∙◌, ◌≡◌, ◌⊎◌,
}
use sales_journal.Schedule.Clock.{Local}
use sales_journal.Schedule.Control.{ChurnSchedule}
use sales_journal.Schedule.Jobs.{
  Job, daily, diagnostic, Status, released, delivering, succeeded, partial, failed, guard_job,
}
use sales_journal.Schedule.Receipts.{Event, Incoming, Receipt, acknowledge}
use sales_journal.Schedule.Receipts.Release.{file_all-released}
use sales_journal.Schedule.Jobs.Laws.{same_kind-eq}
use sales_journal.Schedule.Receipts.Laws.{settle-frame, acknowledge_ok}
use sales_journal.Schedule.Lifecycle.{
  producer_matches, BatchResult, after_batch, fail, is_terminal, Release, Evidence, retry,
  authorize, after_release, is_ready,
}

-- The states in which events of a release are handed out or have been.
unfoldable pub is_sent : Status → Bool
is_sent released = true
is_sent delivering = true
is_sent succeeded = true
is_sent partial = true
is_sent _ = false

pub record IsConsistent (job : Job) : Type 0 where
  pub diagnostic_unreleased : job.kind ≡ diagnostic → job.release_id ≡ none
  pub sent_released : is_sent job.status ≡ true → is_some job.release_id ≡ true

module _ (moscow : ℕ → Local) (digest : String → String) where
  -- One command on a job.
  pub data Step (job : Job) : Job → Type 0 where
    batch : (now target : ℕ) (result : BatchResult) → Step job (after_batch now target result job)
    failure : (now : ℕ) → Step job (fail now job)
    retried :
        (row : Option ChurnSchedule) (now : ℕ) {job' : Job}
        → retry moscow row now job ≡ ok job'
        → Step job job'
    authorized :
        (row : Option ChurnSchedule) (policy : Option ℕ) (evidence : Evidence) (release : Release)
        (events : List (Option ℕ)) (now : ℕ) {job' : Job}
        → authorize moscow row policy evidence release events now job ≡ ok job'
        → Step job job'
    acknowledged :
        (now : ℕ) (events : List Event) (receipts : List Incoming) (records filed : List Receipt)
        {job' : Job}
        → acknowledge digest job now events receipts records ≡ ok (job', filed)
        → Step job job'

  pub data Reach (job : Job) : Job → Type 0 where
    here : Reach job job
    next : {via to : Job} → Reach job via → Step via to → Reach job to

  after_batch-IsConsistent :
      (now target : ℕ) (result : BatchResult) (job : Job)
      → IsConsistent job
      → IsConsistent (after_batch now target result job)
  unfolding after_batch is_sent
  after_batch-IsConsistent now target result job c = record {
    diagnostic_unreleased = ground arith;
    sent_released = ground arith;
  }

  fail-IsConsistent : (now : ℕ) (job : Job) → IsConsistent job → IsConsistent (fail now job)
  unfolding fail is_sent
  fail-IsConsistent now job c = record {
    diagnostic_unreleased = ground arith;
    sent_released = ground arith;
  }

  retry-IsConsistent :
      (row : Option ChurnSchedule) (now : ℕ) (job job' : Job)
      → retry moscow row now job ≡ ok job'
      → IsConsistent job
      → IsConsistent job'
  unfolding retry is_sent
  retry-IsConsistent row now job job' h c = record {
    diagnostic_unreleased = ground arith;
    sent_released = ground arith;
  }

  -- Only daily jobs are given a release.
  after_release-IsConsistent :
      (now : ℕ) (release : Release) (events : List (Option ℕ)) (job job' : Job)
      → job.kind ≡ daily
      → after_release now release events job ≡ ok job'
      → IsConsistent job
      → IsConsistent job'
  unfolding after_release is_sent
  after_release-IsConsistent now release events job job' k h c = record {
    diagnostic_unreleased = ground arith;
    sent_released = ground arith;
  }

  authorize_inv :
      (row : Option ChurnSchedule) (policy : Option ℕ) (evidence : Evidence) (release : Release)
      (events : List (Option ℕ)) (now : ℕ) (job job' : Job)
      → authorize moscow row policy evidence release events now job ≡ ok job'
      → (is_ready job ≡ true)
        × (producer_matches policy row ≡ true)
        × (evidence.is_bound ≡ true)
        × (guard_job moscow job row now ≡ ok tt)
        × (after_release now release events job ≡ ok job')
  unfolding authorize
  authorize_inv row policy evidence release events now job job' h =
      elim (Result-cases (guard_job moscow job row now)) [
        | inl (e, bad) ↦ cc (rw (bad, authorize) at h)
        | inr (t, good) ↦ (
          ground (arith, good),
          ground (arith, good),
          ground (arith, good),
          ground (arith, good),
          ground (arith, good),
        )
      ]

  ready_daily : (job : Job) → is_ready job ≡ true → job.kind ≡ daily
  unfolding is_ready
  ready_daily job h = same_kind-eq job.kind daily (ground arith)

  acknowledge-IsConsistent :
      (job : Job) (now : ℕ) (events : List Event) (receipts : List Incoming)
      (records filed : List Receipt) (job' : Job)
      → acknowledge digest job now events receipts records ≡ ok (job', filed)
      → IsConsistent job
      → IsConsistent job'
  acknowledge-IsConsistent job now events receipts records filed job' h c =
      let (bounds, done, made) = acknowledge_ok digest job now events receipts records filed h in
      let there : is_some job.release_id ≡ true =
        file_all-released digest job.id job.release_id now events receipts records filed
          (ground (arith, bounds.0)) done in
      let frame = settle-frame job now filed in
      rw made (record {
        diagnostic_unreleased = λ k. frame.1 ∙ c.diagnostic_unreleased (sym frame.0 ∙ k);
        sent_released = λ _. rw (frame.1) there;
      })

  Step-IsConsistent : {job job' : Job} → Step job job' → IsConsistent job → IsConsistent job'
  Step-IsConsistent {job} (batch now target result) c =
      after_batch-IsConsistent now target result job c
  Step-IsConsistent {job} (failure now) c = fail-IsConsistent now job c
  Step-IsConsistent {job} {job'} (retried row now h) c = retry-IsConsistent row now job job' h c
  Step-IsConsistent {job} {job'} (authorized row policy evidence release events now h) c =
      let inv = authorize_inv row policy evidence release events now job job' h in
      after_release-IsConsistent now release events job job' (ready_daily job inv.0) inv.4 c
  Step-IsConsistent {job} {job'} (acknowledged now events receipts records filed h) c =
      acknowledge-IsConsistent job now events receipts records filed job' h c

  unsent : {job : Job} → IsConsistent job → (job.kind ≡ daily) ⊎ (is_sent job.status ≡ false)
  unsent {job} c = elim (Bool-cases (is_sent job.status)) [
    | inr quiet ↦ inr quiet
    | inl sent ↦ ground (arith, c.sent_released sent, c.diagnostic_unreleased)
  ]

  -- From a job that is consistent, whatever commands follow in whatever order: a job in a state of sending has a release, and a diagnostic job is never in such a state.
  pub Reach-IsConsistent :
      {job job' : Job}
      → IsConsistent job
      → Reach job job'
      → IsConsistent job' × ((job'.kind ≡ daily) ⊎ (is_sent job'.status ≡ false))
  Reach-IsConsistent c here = (c, unsent c)
  Reach-IsConsistent c (next r s) =
      let after = Step-IsConsistent s (Reach-IsConsistent c r).0 in (after, unsent after)

-- Whatever else a job holds, and whenever they come: after three failures in a row a job has failed,
-- unless it had ended before.
pub fail_thrice :
    (t1 t2 t3 : ℕ) (job : Job)
    → is_terminal job.status ≡ false
    → (fail t3 (fail t2 (fail t1 job))).status ≡ failed
unfolding fail is_terminal
fail_thrice t1 t2 t3 job h = ground arith
