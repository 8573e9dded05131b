-- ===== src/Automation/Guard.antt =====
-- backend/app/services/analytics_release_guard.py: whether a release may still be handed over. What
-- the database and the clock say at that time is in `Now`; days are those of the configured zone.
use sales_journal.Prelude.{
  Bool, List, Option, Result, String, all, any, eqb_ℤ, err, false, if◌then◌else◌, ltb, none, not,
  ok, raise_if, some, str_eq, tally, true, ℕ, ℤ, ◌&&◌, ◌+◌, ◌==◌, ◌>>=◌, ◌>>◌,
}
use sales_journal.Automation.{
  Identity, Policy, algorithm_policy_name, find_identity, is_verified, same_text,
}

-- An entry of `binding_guards`.
pub record BindingGuard : Type 0 where
  pub key : String
  pub revision : ℕ
  pub client_id : String
  pub manager_id : ℤ

-- AnalyticsAutomationRelease with the parts of its metadata that are read here.
pub record Release : Type 0 where
  pub id : String
  pub algorithm_policy : Option String
  pub policy_revision : ℕ
  pub permanent_revision : Option ℕ
  pub source_revision : ℕ
  pub valid_until : ℕ
  pub as_of : ℕ
  pub guards : List BindingGuard

-- The columns of ChurnSchedule that are read here.
pub record PermanentSchedule : Type 0 where
  pub enabled : Bool
  pub approved : Bool
  pub revision : ℕ

pub record Now : Type 0 where
  pub producer_enabled : Bool
  pub policy : Option Policy
  pub schedule : Option PermanentSchedule
  pub source_revision : Option ℕ
  pub is_import_pending : Bool
  pub instant : ℕ
  pub today : ℕ
  pub identities : List Identity

pub data Refusal : Type 0 where
  disabled missing incompatible policy_revoked schedule_revoked : Refusal
  stale_evidence aliased identity_revoked : Refusal

-- `automation_available(db)`
unfoldable pub automation_available : Now → Result Refusal Policy
unfolding same_text
automation_available now = elim now.policy [
  | none ↦ err disabled
  | some p ↦
      if now.producer_enabled
        && p.enabled
        && p.approved
        && same_text algorithm_policy_name p.settings.algorithm_policy
      then ok p
      else err disabled
]

-- `if permanent:` the schedule that released it must be the one in force.
unfoldable pub is_scheduled : Option PermanentSchedule → Option ℕ → Bool
is_scheduled schedule none = true
is_scheduled none (some revision) = false
is_scheduled (some s) (some revision) = s.enabled && s.approved && s.revision == revision

unfoldable pub same_number : ℕ → Option ℕ → Bool
same_number n none = false
same_number n (some m) = m == n

-- The source, the pending imports, the validity of the proof and the last closed day; day zero has
-- no day before it.
unfoldable pub is_fresh : Now → Release → Bool
unfolding same_number
is_fresh now r =
    same_number r.source_revision now.source_revision
    && not now.is_import_pending
    && ltb now.instant r.valid_until
    && r.as_of + 1 == now.today

unfoldable pub is_verified_as : String → Identity → Bool
unfolding is_verified
is_verified_as client i = is_verified i.status && str_eq i.client_id client

-- A client of the guards with more than one verified identity.
unfoldable pub is_aliased : List Identity → List BindingGuard → Bool
unfolding is_verified_as
is_aliased is guards =
    any (λ (g : BindingGuard). ltb 1 (tally (is_verified_as g.client_id) is)) guards

-- The identity of a guard is the one that the release saw.
unfoldable pub stands : List Identity → BindingGuard → Bool
unfolding find_identity is_verified
stands is g = elim (find_identity g.key is) [
  | none ↦ false
  | some i ↦
      is_verified i.status
      && i.revision == g.revision
      && str_eq i.client_id g.client_id
      && eqb_ℤ i.manager_id g.manager_id
]

-- `current_release(db, run_id)`; `found` is the release of this id.
unfoldable pub current_release : Now → Option Release → Result Refusal Release
unfolding automation_available is_scheduled is_fresh is_aliased stands same_text
current_release now found = do
  policy ← automation_available now
  elim found [
    | none ↦ err missing
    | some r ↦ do
      raise_if (not (same_text algorithm_policy_name r.algorithm_policy)) incompatible
      raise_if (not (r.policy_revision == policy.revision)) policy_revoked
      raise_if (not (is_scheduled now.schedule r.permanent_revision)) schedule_revoked
      raise_if (not (is_fresh now r)) stale_evidence
      raise_if (is_aliased now.identities r.guards) aliased
      raise_if (not (all (stands now.identities) r.guards)) identity_revoked
      ok r
  ]
