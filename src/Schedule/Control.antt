-- ===== src/Schedule/Control.antt =====
-- churn_schedule.py: the durable control row and `change`. A call returns its result beside the
-- database as the session leaves it, also when it raises.
use sales_journal.Prelude.{
  Bool, List, Option, Result, String, [], all, codes, err, false, if◌then◌else◌, is_alnum, leb,
  length, none, not, ok, some, str_eq, true, ℕ, ◌&&◌, ◌++◌, ◌+◌, ◌==◌, ◌||◌, ◌∷◌,
}
pub mod Laws
pub mod History
mod Tests
use sales_journal.Schedule.Clock.{Local}
use sales_journal.Schedule.Config.{
  Scalar, int, text, null, flag, Fields, lookup, Settings, algorithm_policy, validate, dump,
}

pub data Error : Type 0 where
  audited_actor_required policy_revision_conflict algorithm_policy_mismatch : Error
  explicit_approval_required policy_not_approved invalid_control_action invalid_settings : Error
  policy_revoked_or_changed job_expired invalid_receipts : Error
  invalid_receiver_acknowledgement receipt_conflict : Error
  key_error : Error

-- models/churn_schedule.py
pub record ChurnSchedule : Type 0 where
  pub revision : ℕ
  pub enabled : Bool
  pub approved : Bool
  pub settings_json : Fields

pub data Action : Type 0 where
  draft approve enable disable unknown : Action

-- AnalyticsAutomationDecision: the audit record of an accepted change.
pub record Decision : Type 0 where
  pub action : Action
  pub actor : String
  pub policy_revision : ℕ
  pub settings : Fields

pub record Db : Type 0 where
  pub schedule : Option ChurnSchedule
  pub decisions : List Decision

abbrev pub new_schedule : ChurnSchedule
new_schedule = record { revision = 0; enabled = false; approved = false; settings_json = [] }

-- The row, which is added when there is none.
unfoldable pub control : Db → ChurnSchedule × Db
control db = elim db.schedule [
  | none ↦ (new_schedule, record db { schedule = some new_schedule })
  | some row ↦ (row, db)
]

-- `[a-zA-Z0-9_.@-]{1,100}`
pub actor_char : ℕ → Bool
actor_char c = is_alnum c || c == b'_' || c == b'.' || c == b'@' || c == b'-'

pub audited_actor : Scalar → Option String
audited_actor (text s) =
    if all actor_char (codes s) && leb 1 (length (codes s)) && leb (length (codes s)) 100
    then some s
    else none
audited_actor _ = none

-- `type(revision) is int and revision == row.revision`
pub same_revision : Scalar → ℕ → Bool
same_revision (int n) r = n == r
same_revision _ r = false

-- `payload == {'confirm_business_approval': True}` with a true Boolean: in Python 1 == True too.
pub confirms : Fields → Bool
confirms ((k, flag b) ∷ []) = str_eq k "confirm_business_approval" && b
confirms _ = false

-- `config['algorithm_policy'] != ALGORITHM_POLICY`
unfoldable pub algorithm_matches : Fields → Bool
algorithm_matches fields = elim (lookup "algorithm_policy" fields) [
  | some (text s) ↦ str_eq s algorithm_policy
  | _ ↦ false
]

-- The branches of `change` on the row, up to the new revision.
pub step : Action → Fields → ChurnSchedule → Result Error ChurnSchedule
step draft payload row = elim (validate payload) [
  | none ↦ err invalid_settings
  | some config ↦
      if str_eq config.algorithm_policy algorithm_policy
      then ok (record row {
        settings_json = dump config;
        approved = false;
        enabled = false;
        revision = row.revision + 1;
      })
      else err algorithm_policy_mismatch
]
step approve payload row = elim (validate row.settings_json) [
  | none ↦ err invalid_settings
  | some config ↦
      if not (algorithm_matches row.settings_json)
      then err algorithm_policy_mismatch
      else if not (confirms payload)
      then err explicit_approval_required
      else ok (record row { approved = true; enabled = false; revision = row.revision + 1 })
]
step enable payload row =
    if not row.approved then err policy_not_approved else ok (record row { enabled = true })
step disable payload row = ok (record row { enabled = false })
step unknown payload row = err invalid_control_action

-- `change(db, action, payload, revision=..., actor=...)`
pub change : Db → Action → Fields → Scalar → Scalar → Result Error ChurnSchedule × Db
change db action payload revision actor = elim (audited_actor actor) [
  | none ↦ (err audited_actor_required, db)
  | some name ↦
      let (row, db') = control db in
      if not (same_revision revision row.revision)
      then (err policy_revision_conflict, db')
      else elim (step action payload row) [
        | err e ↦ (err e, db')
        | ok row' ↦ (
          ok row',
          record {
            schedule = some row';
            decisions =
                db'.decisions
                ++ record {
                  action = action;
                  actor = name;
                  policy_revision = row'.revision;
                  settings = row'.settings_json;
                }
                  ∷ [];
          },
        )
      ]
]
