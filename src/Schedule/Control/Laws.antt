-- ===== src/Schedule/Control/Laws.antt =====
-- churn_schedule.py: what `change` keeps on every branch, and what its audit log says.
use sales_journal.Prelude.{
  Bool-cases, List, Option-cases, Result, Result-cases, String, [], arith, err, false, inl, inr, ok,
  refl, some, true, ℕ, ◌++◌, ◌+◌, ◌∷◌, ◌≡◌, ◌⊎◌,
}
use sales_journal.Schedule.Config.{Scalar, int, Fields, Settings, validate}
use sales_journal.Schedule.Control.{
  Error, audited_actor_required, policy_revision_conflict, ChurnSchedule, Action, draft, approve,
  enable, disable, unknown, Decision, Db, control, audited_actor, same_revision, algorithm_matches,
  step, change,
}

-- The row as the next call sees it.
abbrev pub current : Db → ChurnSchedule
current db = (control db).0

-- An enabled schedule is approved, and an approved one has valid settings of the current algorithm.
pub record IsSafe (row : ChurnSchedule) : Type 0 where
  pub enabled_approved : row.enabled ≡ true → row.approved ≡ true
  pub approved_valid :
      row.approved ≡ true
      → (s : Settings) × (validate row.settings_json ≡ some s)
        × (algorithm_matches row.settings_json ≡ true)

step-IsSafe :
    (action : Action) (payload : Fields) (row row' : ChurnSchedule)
    → IsSafe row
    → step action payload row ≡ ok row'
    → IsSafe row'
unfolding step
step-IsSafe draft payload row row' safe h = record {
  enabled_approved = ground arith;
  approved_valid = ground arith;
}
step-IsSafe approve payload row row' safe h = elim (Option-cases (validate row.settings_json)) [
  | inl bad ↦ ground arith
  | inr (config, good) ↦ record {
    enabled_approved = ground arith;
    approved_valid = λ _. (config, ground arith, ground arith);
  }
]
step-IsSafe enable payload row row' safe h =
    let e : row' ≡ record row { enabled = true } = ground arith in
    rw e (record { enabled_approved = ground arith; approved_valid = safe.approved_valid })
step-IsSafe disable payload row row' safe h =
    let e : row' ≡ record row { enabled = false } = ground arith in
    rw e (record { enabled_approved = ground arith; approved_valid = safe.approved_valid })
step-IsSafe unknown payload row row' safe h = cc

-- How the row and the log may differ after an accepted change.
pub record Accepted (action : Action) (before after : Db) (row : ChurnSchedule) : Type 0 where
  pub stored : current after ≡ row
  pub logged :
      (name : String) × (after.decisions
        ≡ before.decisions
          ++ record {
            action = action;
            actor = name;
            policy_revision = row.revision;
            settings = row.settings_json;
          }
            ∷ [])

-- What `change` does, by its result.
abbrev pub Outcome : Action → Fields → Scalar → Db → Result Error ChurnSchedule × Db → Type 0
Outcome action payload revision db (err e, db') =
    (current db' ≡ current db) × (db'.decisions ≡ db.decisions)
Outcome action payload revision db (ok row, db') =
    (revision ≡ int (current db).revision)
    × (step action payload (current db) ≡ ok row)
    × Accepted action db db' row

-- Asking for the row again gives the same row and adds nothing.
pub control-control :
    (db : Db)
    → ((control (control db).1).0 ≡ (control db).0) × ((control (control db).1).1 ≡ (control db).1)
unfolding control
control-control db = (ground arith, ground arith)

control-keeps :
    (db : Db) → (current (control db).1 ≡ current db) × ((control db).1.decisions ≡ db.decisions)
unfolding control
control-keeps db = (ground arith, ground arith)

current_stored :
    (row : ChurnSchedule) (log : List Decision)
    → current (record { schedule = some row; decisions = log }) ≡ row
unfolding control
current_stored row log = refl

same_revision_int : (revision : Scalar) (r : ℕ) → same_revision revision r ≡ true → revision ≡ int r
unfolding same_revision
same_revision_int revision r h = ground arith

-- The three ways in which a call ends.
change_cases :
    (db : Db) (action : Action) (payload : Fields) (revision actor : Scalar)
    → (change db action payload revision actor ≡ (err audited_actor_required, db))
      ⊎ ((e : Error) × (change db action payload revision actor ≡ (err e, (control db).1)))
      ⊎ ((row : ChurnSchedule) × (name : String) × (same_revision revision (control db).0.revision
            ≡ true)
          × (step action payload (control db).0 ≡ ok row)
          × (change db action payload revision actor ≡ (
            ok row,
            record {
              schedule = some row;
              decisions =
                  (control db).1.decisions
                  ++ record {
                    action = action;
                    actor = name;
                    policy_revision = row.revision;
                    settings = row.settings_json;
                  }
                    ∷ [];
            },
          )))
unfolding change
change_cases db action payload revision actor = elim (Option-cases (audited_actor actor)) [
  | inl bad ↦ inl (rw (bad, change) refl)
  | inr (name, good) ↦ inr (elim (Bool-cases (same_revision revision (control db).0.revision)) [
    | inr stale ↦ inl (policy_revision_conflict, rw (good, stale, change) refl)
    | inl fresh_one ↦ elim (Result-cases (step action payload (control db).0)) [
      | inl (e, raised) ↦ inl (e, rw (good, fresh_one, raised, change) refl)
      | inr (row, done) ↦ inr (row, name, fresh_one, done, rw (good, fresh_one, done, change) refl)
    ]
  ])
]

-- A call that raises leaves the row and the log as they were; an accepted one was given the row's own
-- revision, stores the row of its branch, and adds exactly one entry, of the new revision and settings.
pub change-Outcome :
    (db : Db) (action : Action) (payload : Fields) (revision actor : Scalar)
    → Outcome action payload revision db (change db action payload revision actor)
change-Outcome db action payload revision actor =
    elim (change_cases db action payload revision actor) [
      | inl refused ↦ rw refused (refl, refl)
      | inr (inl (e, raised)) ↦ rw raised (control-keeps db)
      | inr (inr (row, name, same, done, accepted)) ↦ rw accepted (
        same_revision_int revision (control db).0.revision same,
        done,
        record { stored = current_stored row _; logged = (name, rw ((control-keeps db).1) refl) },
      )
    ]

-- A safe schedule is safe after any call, whether it is accepted or raises.
pub change-IsSafe :
    (db : Db) (action : Action) (payload : Fields) (revision actor : Scalar)
    → IsSafe (current db)
    → IsSafe (current (change db action payload revision actor).1)
change-IsSafe db action payload revision actor safe =
    elim (change_cases db action payload revision actor) [
      | inl refused ↦ rw refused safe
      | inr (inl (e, raised)) ↦ rw raised (rw ((control-keeps db).0) safe)
      | inr (inr (row, name, same, done, accepted)) ↦
          rw accepted
            (rw (current_stored row _) (step-IsSafe action payload (current db) row safe done))
    ]

-- The revision after an accepted change, and that neither a draft nor an approval starts sending.
pub step-revision :
    (action : Action) (payload : Fields) (row row' : ChurnSchedule)
    → step action payload row ≡ ok row'
    → ((action ≡ draft) ⊎ (action ≡ approve)
        → (row'.revision ≡ row.revision + 1) × (row'.enabled ≡ false))
unfolding step
step-revision draft payload row row' h = λ _. elim (Option-cases (validate payload)) [
  | inl bad ↦ ground arith
  | inr (config, good) ↦ ground arith
]
step-revision approve payload row row' h = λ _. elim (Option-cases (validate row.settings_json)) [
  | inl bad ↦ ground arith
  | inr (config, good) ↦ ground arith
]
step-revision enable payload row row' h = λ other. ground arith
step-revision disable payload row row' h = λ other. ground arith
step-revision unknown payload row row' h = λ other. ground arith
