-- ===== src/Automation/Release/Issue.antt =====
-- analytics_automation.py: the candidates of `release_churn`, and the release that it makes of them.
use sales_journal.Prelude.{
  Bool, List, Option, String, [], false, holds, if◌then◌else◌, leb, ltb, negsuc, none, not, or_else,
  pos, some, str_eq, tally, true, ℕ, ℤ, ◌&&◌, ◌++◌, ◌+◌, ◌==◌, ◌∷◌,
}
use sales_journal.Automation.{
  Identity, Policy, Texts, algorithm_policy_name, all_confirmed, find_identity, is_positive,
  is_verified, known_text, same_text,
}
use sales_journal.Automation.Guard.{BindingGuard, Release, is_verified_as, same_number}
use sales_journal.Automation.Release.{
  Candidate, Context, Envelope, Reason, SourceRun, no_eligible_churn, release_conflict, reasons,
  settings_of,
}

-- More than one verified identity has this client.
unfoldable pub is_alias : List Identity → String → Bool
unfolding is_verified_as
is_alias is client = ltb 1 (tally (is_verified_as client) is)

unfoldable pub is_confirmed : Texts → Identity → Bool
is_confirmed lib i =
    known_text lib (some i.client_id)
    && is_positive (some i.manager_id)
    && leb 1 i.revision
    && all_confirmed i.evidence
    && known_text lib i.evidence.reviewer
    && known_text lib i.evidence.reason

unfoldable pub is_confident : Option ℤ → ℕ → Bool
is_confident none n = false
is_confident (some (pos m)) n = leb m n
is_confident (some (negsuc m)) n = true

-- `not why`, for a candidate and its binding.
unfoldable pub is_ready : Texts → Context → Candidate → Identity → Bool
unfolding is_alias is_confirmed is_confident settings_of
is_ready lib c k i =
    is_verified i.status
    && not (is_alias c.identities i.client_id)
    && is_confirmed lib i
    && is_confident (settings_of c.policy).min_confidence k.confidence
    && same_text "CHURN_RISK" k.signal_type
    && same_text "ACTIVE" k.signal_status
    && holds (λ (r : SourceRun). same_number r.as_of k.signal_as_of) c.run

-- `ready`: the candidates that pass, with their identities.
unfoldable pub ready_ones : Texts → Context → List Candidate → List (Candidate × Identity)
unfolding is_ready find_identity
ready_ones lib c [] = []
ready_ones lib c (k ∷ ks) =
    let rest = ready_ones lib c ks in
    elim (find_identity k.subject_key c.identities) [
      | none ↦ rest
      | some i ↦ if is_ready lib c k i then (k, i) ∷ rest else rest
    ]

unfoldable pub guards_of : List (Candidate × Identity) → List BindingGuard
guards_of [] = []
guards_of ((k, i) ∷ rest) =
    record {
      key = i.subject_key;
      revision = i.revision;
      client_id = i.client_id;
      manager_id = i.manager_id;
    }
    ∷ guards_of rest

-- The release of these candidates.
unfoldable pub new_release :
    Context → Policy → SourceRun → Envelope → List (Candidate × Identity) → Release
unfolding guards_of
new_release c p r e ready = record {
  id = c.fresh_id;
  algorithm_policy = some algorithm_policy_name;
  policy_revision = p.revision;
  permanent_revision = none;
  source_revision = r.source_revision;
  valid_until = or_else 0 e.payload.valid_until;
  as_of = r.as_of;
  guards = guards_of ready;
}

pub data Answer : Type 0 where
  blocked : List Reason → Answer
  -- a release of this run is there already
  existing : String → Answer
  -- the policy with its new sequence, and the release, with an event for each guard
  released : Policy → Release → Answer

-- Without a new release, or with one that is to be made.
unfoldable pub settle :
    Context → Envelope → Policy → SourceRun → List (Candidate × Identity) → Answer
unfolding new_release
settle c e p r [] = blocked (no_eligible_churn ∷ [])
settle c e p r (k ∷ ks) = elim c.existing [
  | some (old, proof) ↦
      if str_eq proof e.digest && old.policy_revision == p.revision
      then existing old.id
      else blocked (release_conflict ∷ [])
  | none ↦ released (record p { sequence = p.sequence + 1 }) (new_release c p r e (k ∷ ks))
]

-- The answer of `release_churn`. Where no reason speaks against a release, the policy and the run are
-- there.
unfoldable pub release_churn : Texts → Context → Envelope → Answer
unfolding reasons ready_ones settle
release_churn lib c e = elim (reasons lib c e) [
  | w ∷ ws ↦ blocked (w ∷ ws)
  | [] ↦ elim c.policy [
    | none ↦ blocked []
    | some p ↦ elim c.run [
      | none ↦ blocked []
      | some r ↦ settle c e p r (ready_ones lib c c.candidates)
    ]
  ]
]

-- `release_churn(db, run_id, envelope, preview)` with the log of its answers; a preview says what would
-- be done, and nothing is stored.
pub release : Texts → Bool → Context → Envelope → List Answer → Answer × List Answer
unfolding release_churn
release lib preview c e log =
    let answer = release_churn lib c e in
    if preview then (answer, log) else (answer, log ++ answer ∷ [])
