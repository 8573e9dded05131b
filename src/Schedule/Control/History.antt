-- ===== src/Schedule/Control/History.antt =====
-- churn_schedule.py: sequences of calls of `change`.
use sales_journal.Prelude.{
  Any, Any-append_left, Any-append_right, List, Result, [], arith, err, false, inl, inr, ok, refl,
  true, ℕ, ◌+◌, ◌∙◌, ◌∷◌, ◌≡◌, ◌⊎◌,
}
use sales_journal.Schedule.Config.{Scalar, int, Fields}
use sales_journal.Schedule.Control.{
  Error, ChurnSchedule, Action, draft, approve, enable, disable, unknown, Decision, Db,
  same_revision, step, change,
}
use sales_journal.Schedule.Control.Laws.{
  current, IsSafe, Outcome, change-Outcome, change-IsSafe, step-revision,
}

-- One entry of the log approves just this revision and these settings.
abbrev pub Approves : ChurnSchedule → Decision → Type 0
Approves row d =
    (d.action ≡ approve) × (d.policy_revision ≡ row.revision) × (d.settings ≡ row.settings_json)

-- An approved row has its approval in the log.
abbrev pub IsAudited : Db → Type 0
IsAudited db = (current db).approved ≡ true → Any (Approves (current db)) db.decisions

-- A request to change the schedule.
pub record Request : Type 0 where
  pub action : Action
  pub payload : Fields
  pub revision : Scalar
  pub actor : Scalar

-- Each call of a sequence starts from the database that the call before it left.
unfoldable pub run : Db → List Request → Db
run db [] = db
run db (r ∷ rs) = run (change db r.action r.payload r.revision r.actor).1 rs

-- The approval survives the branches that keep both the revision and the settings.
step_keeps_approval :
    (action : Action) (payload : Fields) (row row' : ChurnSchedule)
    → step action payload row ≡ ok row'
    → row'.approved ≡ true
    → (action ≡ approve)
      ⊎ ((row.approved ≡ true)
          × (row'.revision ≡ row.revision)
          × (row'.settings_json ≡ row.settings_json))
unfolding step
step_keeps_approval draft payload row row' h a = ground arith
step_keeps_approval approve payload row row' h a = inl refl
step_keeps_approval enable payload row row' h a = ground arith
step_keeps_approval disable payload row row' h a = ground arith
step_keeps_approval unknown payload row row' h a = cc

change-IsAudited :
    (db : Db) (r : Request)
    → IsAudited db
    → IsAudited (change db r.action r.payload r.revision r.actor).1
change-IsAudited db r audited =
    go (change db r.action r.payload r.revision r.actor)
      (change-Outcome db r.action r.payload r.revision r.actor)
  where
    go :
        (p : Result Error ChurnSchedule × Db)
        → Outcome r.action r.payload r.revision db p
        → IsAudited p.1
    go (err e, db') (same_row, same_log) = rw (same_row, same_log) audited
    go (ok row, db') (rev, done, accepted) =
        rw (accepted.stored, accepted.logged.1)
          λ approved. elim (step_keeps_approval r.action r.payload (current db) row done approved) [
            | inl approval ↦
                Any-append_right (Approves row) db.decisions _ (inl (approval, refl, refl))
            | inr (was, same_revision, same_settings) ↦
                Any-append_left (Approves row) db.decisions _
                  (rw (same_revision, same_settings) (audited was))
          ]

-- After any sequence of calls from a safe and audited database, whatever they return: if the schedule
-- is enabled, it is approved, and the log holds an approval of just its revision and its settings.
pub run-approved :
    (db : Db) (requests : List Request)
    → IsSafe (current db)
    → IsAudited db
    → (current (run db requests)).enabled ≡ true
    → ((current (run db requests)).approved ≡ true)
      × Any (Approves (current (run db requests))) (run db requests).decisions
unfolding run
run-approved db [] safe audited enabled =
    (safe.enabled_approved enabled, audited (safe.enabled_approved enabled))
run-approved db (r ∷ rs) safe audited enabled =
    run-approved (change db r.action r.payload r.revision r.actor).1 rs
      (change-IsSafe db r.action r.payload r.revision r.actor safe) (change-IsAudited db r audited)
      enabled

stale_raises :
    (db : Db) (r : Request) (n : ℕ) (p : Result Error ChurnSchedule × Db)
    → r.revision ≡ int n
    → (current db).revision ≡ n + 1
    → Outcome r.action r.payload r.revision db p
    → ((e : Error) × (p.0 ≡ err e)) × (current p.1 ≡ current db) × (p.1.decisions ≡ db.decisions)
stale_raises db r n (err e, db') same next (same_row, same_log) = ((e, refl), same_row, same_log)
stale_raises db r n (ok row, db') same next (given, done, accepted) = absurd (ground arith)

accepted_step :
    (db : Db) (r : Request) (p : Result Error ChurnSchedule × Db) {row : ChurnSchedule}
    → Outcome r.action r.payload r.revision db p
    → p.0 ≡ ok row
    → (r.revision ≡ int (current db).revision)
      × (step r.action r.payload (current db) ≡ ok row)
      × (current p.1 ≡ row)
accepted_step db r (err e, db') o h = cc
accepted_step db r (ok row', db') {row} (given, done, accepted) h =
    let e : row' ≡ row = cc in rw (← e) (given, done, accepted.stored)

-- Two operators who both saw revision n: after a draft or an approval of one is accepted at n, any
-- call of the other at n raises and leaves the row and the log alone.
pub change_stale :
    (db : Db) (first second : Request) (n : ℕ) {row : ChurnSchedule}
    → (first.action ≡ draft) ⊎ (first.action ≡ approve)
    → first.revision ≡ int n
    → second.revision ≡ int n
    → (change db first.action first.payload first.revision first.actor).0 ≡ ok row
    → let after = (change db first.action first.payload first.revision first.actor).1 in
      let again = change after second.action second.payload second.revision second.actor in
      (row.revision ≡ n + 1)
      × (row.enabled ≡ false)
      × ((e : Error) × (again.0 ≡ err e))
      × (current again.1 ≡ row)
      × (again.1.decisions ≡ after.decisions)
change_stale db first second n {row} kind fn sn accepted = go (
    accepted_step db first (change db first.action first.payload first.revision first.actor)
      (change-Outcome db first.action first.payload first.revision first.actor) accepted)
  where
    after : Db
    after = (change db first.action first.payload first.revision first.actor).1

    again : Result Error ChurnSchedule × Db
    again = change after second.action second.payload second.revision second.actor

    go :
        (first.revision ≡ int (current db).revision)
          × (step first.action first.payload (current db) ≡ ok row)
          × (current after ≡ row)
        → (row.revision ≡ n + 1)
          × (row.enabled ≡ false)
          × ((e : Error) × (again.0 ≡ err e))
          × (current again.1 ≡ row)
          × (again.1.decisions ≡ after.decisions)
    go (given, done, stored) =
        let news = step-revision first.action first.payload (current db) row done kind in
        let next : row.revision ≡ n + 1 = ground (arith, news.0) in
        let raised =
          stale_raises after second n again sn (rw stored next)
            (change-Outcome after second.action second.payload second.revision second.actor) in
        (next, news.1, raised.0, raised.1 ∙ stored, raised.2)
