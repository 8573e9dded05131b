-- ===== src/Schedule/Jobs/Laws.antt =====
-- churn_schedule.py: one job for each day and kind, and when a daily job may be queued.
use sales_journal.Prelude.{
  Bool, List, Option, Option-cases, Result, String, [], any, ap, arith, err, false, inl, inr, none,
  ok, refl, some, true, ℕ, ◌++◌, ◌||◌, ◌∷◌, ◌≡◌, ◌⊎◌,
}
use sales_journal.Schedule.Clock.{Local}
use sales_journal.Schedule.Config.{Settings, validate}
use sales_journal.Schedule.Control.{Error, ChurnSchedule, Db, control, algorithm_matches}
use sales_journal.Schedule.Control.Laws.{control-control, current}
use sales_journal.Schedule.Jobs.{
  no_counters, Kind, same_kind, daily, Job, queued, Store, for_day, first_job, too_early, Admission,
  skip, proceed, refuse, admission, kind_of, enqueue, guard_job,
}

-- The unique constraint on (business_date, kind).
abbrev pub IsUnique : List Job → Type 0
IsUnique [] = Unit
IsUnique (job ∷ jobs) = (any (for_day job.business_date job.kind) jobs ≡ false) × IsUnique jobs

pub same_kind-eq : (a b : Kind) → same_kind a b ≡ true → a ≡ b
unfolding same_kind
same_kind-eq a b h = ground arith

same_kind_self : (a : Kind) → same_kind a a ≡ true
unfolding same_kind
same_kind_self a = ground arith

any-append_one :
    (p : Job → Bool) (jobs : List Job) (job : Job) → any p (jobs ++ job ∷ []) ≡ any p jobs || p job
any-append_one p [] job = ground arith
any-append_one p (j ∷ jobs) job = ground (arith, any-append_one p jobs job)

first_job-none : (p : Job → Bool) (jobs : List Job) → first_job p jobs ≡ none → any p jobs ≡ false
unfolding first_job
first_job-none p [] h = refl
first_job-none p (j ∷ jobs) h = ground (arith, first_job-none p jobs)

first_job-append :
    (p : Job → Bool) (jobs : List Job) (job : Job)
    → first_job p jobs ≡ none
    → p job ≡ true
    → first_job p (jobs ++ job ∷ []) ≡ some job
unfolding first_job
first_job-append p [] job h t = ground arith
first_job-append p (j ∷ jobs) job h t = ground (arith, first_job-append p jobs job)

first_job-holds :
    (p : Job → Bool) (jobs : List Job) {job : Job} → first_job p jobs ≡ some job → p job ≡ true
unfolding first_job
first_job-holds p [] h = cc
first_job-holds p (j ∷ jobs) {job} h = ground (arith, first_job-holds p jobs {job = job})

same_kind_symm : (a b : Kind) → same_kind a b ≡ same_kind b a
unfolding same_kind
same_kind_symm a b = ground arith

IsUnique-append :
    (jobs : List Job) (job : Job)
    → IsUnique jobs
    → any (for_day job.business_date job.kind) jobs ≡ false
    → IsUnique (jobs ++ job ∷ [])
unfolding for_day
IsUnique-append [] job u h = (refl, tt)
IsUnique-append (j ∷ jobs) job u h = (
  ground (
    arith,
    any-append_one (for_day j.business_date j.kind) jobs job,
    same_kind_symm j.kind job.kind,
  ),
  IsUnique-append jobs job u.1 (ground arith),
)

-- Two readings of one result.
answer_eq :
    (r : Result Error (Option Job) × Store) (s : Store) (a b : Job)
    → r.0 ≡ ok (some a)
    → r ≡ (ok (some b), s)
    → a ≡ b
answer_eq r s a b p q =
    let e : r.0 ≡ ok (some b) = ap (λ (x : Result Error (Option Job) × Store). x.0) q in cc

module _ (moscow : ℕ → Local) where
  abbrev here : ℕ → Bool → Job → Bool
  here now d = for_day (moscow now).date (kind_of d)

  abbrev fresh_job : ℕ → Bool → String → ChurnSchedule → Job
  fresh_job now d id row = record {
    id = id;
    business_date = (moscow now).date;
    kind = kind_of d;
    policy_revision = row.revision;
    status = queued;
    run_id = none;
    release_id = none;
    created_at = now;
    updated_at = now;
    counters = no_counters;
    error_code = none;
  }

  abbrev Added : ℕ → Bool → String → Store → Type 0
  Added now d id store =
      (admission (moscow now) d (current store.base) ≡ proceed)
      × (first_job (here now d) store.jobs ≡ none)
      × (enqueue moscow now d id store ≡ (
        ok (some (fresh_job now d id (current store.base))),
        record {
          base = (control store.base).1;
          jobs = store.jobs ++ fresh_job now d id (current store.base) ∷ [];
        },
      ))

  abbrev Found : ℕ → Bool → String → Store → Type 0
  Found now d id store =
      (job : Job) × (admission (moscow now) d (current store.base) ≡ proceed)
      × (first_job (here now d) store.jobs ≡ some job)
      × (enqueue moscow now d id store
          ≡ (ok (some job), record store { base = (control store.base).1 }))

  abbrev Idle : ℕ → Bool → String → Store → Type 0
  Idle now d id store =
      (r : Result Error (Option Job)) × (¬ (
        admission (moscow now) d (current store.base) ≡ proceed))
      × ((job : Job) → ¬ (r ≡ ok (some job)))
      × (enqueue moscow now d id store ≡ (r, record store { base = (control store.base).1 }))

  admission_cases : (a : Admission) → (a ≡ skip) ⊎ ((e : Error) × (a ≡ refuse e)) ⊎ (a ≡ proceed)
  admission_cases skip = inl refl
  admission_cases (refuse e) = inr (inl (e, refl))
  admission_cases proceed = inr (inr refl)

  enqueue_cases :
      (now : ℕ) (d : Bool) (id : String) (store : Store)
      → Added now d id store ⊎ Found now d id store ⊎ Idle now d id store
  unfolding enqueue
  enqueue_cases now d id store =
      elim (admission_cases (admission (moscow now) d (current store.base))) [
        | inl skipped ↦
            inr
              (inr (ok none, λ e. ground arith, λ job e. ground arith, rw (skipped, enqueue) refl))
        | inr (inl (e, refused)) ↦
            inr (inr (err e, λ p. ground arith, λ job p. ground arith, rw (refused, enqueue) refl))
        | inr (inr go) ↦ elim (Option-cases (first_job (here now d) store.jobs)) [
          | inl free ↦ inl (go, free, rw (go, free, enqueue) refl)
          | inr (job, taken) ↦ inr (inl (job, go, taken, rw (go, taken, enqueue) refl))
        ]
      ]

  -- Queueing keeps one job for each day and kind, whatever it returns.
  pub enqueue-IsUnique :
      (now : ℕ) (d : Bool) (id : String) (store : Store)
      → IsUnique store.jobs
      → IsUnique (enqueue moscow now d id store).1.jobs
  enqueue-IsUnique now d id store unique = elim (enqueue_cases now d id store) [
    | inl (go, free, e) ↦
        rw e (IsUnique-append store.jobs _ unique (first_job-none (here now d) store.jobs free))
    | inr (inl (job, go, taken, e)) ↦ rw e unique
    | inr (inr (r, idle, nothing, e)) ↦ rw e unique
  ]

  found_result :
      (now : ℕ) (d : Bool) (id : String) (store : Store) (job : Job)
      → admission (moscow now) d (current store.base) ≡ proceed
      → first_job (here now d) store.jobs ≡ some job
      → enqueue moscow now d id store
        ≡ (ok (some job), record store { base = (control store.base).1 })
  unfolding enqueue
  found_result now d id store job go taken = rw (go, taken, enqueue) refl

  -- The same for a store whose row is there already.
  settled_result :
      (now : ℕ) (d : Bool) (id : String) (base : Db) (jobs : List Job) (job : Job)
      → admission (moscow now) d (current base) ≡ proceed
      → first_job (here now d) jobs ≡ some job
      → enqueue moscow now d id (record { base = (control base).1; jobs = jobs })
        ≡ (ok (some job), record { base = (control base).1; jobs = jobs })
  settled_result now d id base jobs job go taken =
      rw
        (found_result now d id (record { base = (control base).1; jobs = jobs }) job
          (rw ((control-control base).0) go) taken)
        (rw ((control-control base).1) refl)

  here_fresh :
      (now : ℕ) (d : Bool) (id : String) (row : ChurnSchedule)
      → here now d (fresh_job now d id row) ≡ true
  unfolding for_day
  here_fresh now d id row = ground (arith, same_kind_self (kind_of d))

  -- Once a call has returned a job, a later call of the same day and kind on the store that it left,
  -- if it passes the checks, returns the same job and changes nothing.
  pub enqueue_again :
      (now later : ℕ) (d : Bool) (id id' : String) (store : Store) {job : Job}
      → (enqueue moscow now d id store).0 ≡ ok (some job)
      → (moscow later).date ≡ (moscow now).date
      → admission (moscow later) d (current store.base) ≡ proceed
      → enqueue moscow later d id' (enqueue moscow now d id store).1
        ≡ (ok (some job), (enqueue moscow now d id store).1)
  enqueue_again now later d id id' store {job} first same_day passes =
      elim (enqueue_cases now d id store) [
        | inl (go, free, e) ↦
            let made : job ≡ fresh_job now d id (current store.base) =
              answer_eq _ _ job _ first e in
            rw (e, made)
              (settled_result later d id' store.base _ _ passes (
                rw same_day (
                  first_job-append (here now d) store.jobs _ free
                    (here_fresh now d id (current store.base)))))
        | inr (inl (old, go, taken, e)) ↦
            let same : job ≡ old = answer_eq _ _ job old first e in
            rw (e, same)
              (settled_result later d id' store.base store.jobs old passes (rw same_day taken))
        | inr (inr (r, idle, nothing, e)) ↦ absurd (nothing job (rw e at first))
      ]

  guard_fresh :
      (now : ℕ) (id : String) (row : ChurnSchedule)
      → row.enabled ≡ true
      → row.approved ≡ true
      → guard_job moscow (fresh_job now false id row) (some row) now ≡ ok tt
  unfolding guard_job same_kind
  guard_fresh now id row en ap = ground arith

  admission_daily :
      (local : Local) (row : ChurnSchedule)
      → admission local false row ≡ proceed
      → (row.enabled ≡ true)
        × (row.approved ≡ true)
        × (algorithm_matches row.settings_json ≡ true)
        × ((config : Settings) × (validate row.settings_json ≡ some config)
            × (too_early local config.time ≡ false))
  unfolding admission
  admission_daily local row go = elim (Option-cases (validate row.settings_json)) [
    | inl bad ↦ ground arith
    | inr (config, good) ↦ (ground arith, ground arith, ground arith, (config, good, ground arith))
  ]

  -- Where no daily job of the day is on file, a job that a daily call returns is a daily job of that
  -- day and of the schedule's revision. The schedule was enabled and approved, its settings were
  -- valid and of the current algorithm, and its time had come; the job passes `guard_job` against it.
  pub enqueue-guard :
      (now : ℕ) (id : String) (store : Store) (job : Job)
      → first_job (for_day (moscow now).date daily) store.jobs ≡ none
      → (enqueue moscow now false id store).0 ≡ ok (some job)
      → (job.kind ≡ daily)
        × (job.business_date ≡ (moscow now).date)
        × (job.policy_revision ≡ (current store.base).revision)
        × ((current store.base).enabled ≡ true)
        × ((current store.base).approved ≡ true)
        × (algorithm_matches (current store.base).settings_json ≡ true)
        × ((config : Settings) × (validate (current store.base).settings_json ≡ some config)
            × (too_early (moscow now) config.time ≡ false))
        × (guard_job moscow job (some (current store.base)) now ≡ ok tt)
  enqueue-guard now id store job free first = elim (enqueue_cases now false id store) [
    | inl (go, none_there, e) ↦
        let allowed = admission_daily (moscow now) (current store.base) go in
        let made : job ≡ fresh_job now false id (current store.base) =
          answer_eq _ _ job _ first e in
        (
          rw made refl,
          rw made refl,
          rw made refl,
          allowed.0,
          allowed.1,
          allowed.2,
          allowed.3,
          rw made (guard_fresh now id (current store.base) allowed.0 allowed.1),
        )
    | inr (inl (old, go, taken, e)) ↦ cc (free, taken)
    | inr (inr (r, idle, nothing, e)) ↦ absurd (nothing job (rw e at first))
  ]
