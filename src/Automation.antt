-- ===== src/Automation.antt =====
-- backend/app/services/analytics_automation.py: the operator's commands on the release policy and on
-- the identities of clients. A confidence is a number of millionths. `strip`, `upper` and the digest
-- of an identity are the libraries'.
use sales_journal.Prelude.{
  Bool, List, Option, Result, String, [], all, any, err, false, if◌then◌else◌, is_none, leb, none,
  not, ok, or_else, pos, raise_if, some, str_eq, true, ℕ, ℤ, ◌&&◌, ◌++◌, ◌+◌, ◌==◌, ◌>>=◌, ◌>>◌,
  ◌||◌, ◌∷◌,
}
pub mod Guard
pub mod Release
pub mod Laws
pub mod Reviews
mod Tests

-- What the libraries compute on texts.
pub record Texts : Type 0 where
  pub strip : String → String
  pub upper : String → String

-- A value that is no text is `none`.
pub known_text : Texts → Option String → Bool
known_text lib none = false
known_text lib (some s) =
    not (str_eq (lib.strip s) "")
    && not (any (str_eq (lib.upper (lib.strip s))) ("UNKNOWN" ∷ "UNSET" ∷ "NULL" ∷ "NONE" ∷ []))

-- `settings_json`: a field that is missing or has another type is `none`.
pub record Settings : Type 0 where
  pub min_confidence : Option ℤ
  pub max_manifest_age_seconds : Option ℤ
  pub issuer : Option String
  pub required_sources : Option (List (Option String))
  pub algorithm_policy : Option String

-- AnalyticsAutomationPolicy
pub record Policy : Type 0 where
  pub enabled : Bool
  pub approved : Bool
  pub revision : ℕ
  pub sequence : ℕ
  pub settings : Settings

pub data Error : Type 0 where
  invalid_revision unreviewed_actor revision_conflict : Error
  unknown_fields approval_required algorithm_unapproved incomplete_policy unknown_action : Error
  invalid_identity ambiguous_identity : Error

-- The payload of a draft is `none` if it is no dictionary or has unknown fields; that of an approval
-- tells whether it is the explicit confirmation and nothing else.
pub data Action : Type 0 where
  draft : Option Settings → Action
  approve : Bool → Action
  revoke other_action : Action

abbrev pub algorithm_policy_name : String
algorithm_policy_name = "aviator-churn-pilot/2"

pub same_text : String → Option String → Bool
same_text t none = false
same_text t (some s) = str_eq s t

pub is_confidence : Option ℤ → Bool
is_confidence (some (pos n)) = leb n 1000000
is_confidence _ = false

pub is_positive : Option ℤ → Bool
is_positive (some (pos n)) = leb 1 n
is_positive _ = false

-- `len(set(values)) == len(values)`
pub are_distinct : List (Option String) → Bool
are_distinct [] = true
are_distinct (none ∷ vs) = not (any is_none vs) && are_distinct vs
are_distinct (some s ∷ vs) = not (any (same_text s) vs) && are_distinct vs

pub are_sources : Texts → Option (List (Option String)) → Bool
are_sources lib none = false
are_sources lib (some []) = false
are_sources lib (some (v ∷ vs)) = all (known_text lib) (v ∷ vs) && are_distinct (v ∷ vs)

-- What an approval asks of the settings, besides the algorithm.
pub is_complete : Texts → Settings → Bool
unfolding is_confidence is_positive are_sources
is_complete lib s =
    is_confidence s.min_confidence
    && is_positive s.max_manifest_age_seconds
    && known_text lib s.issuer
    && are_sources lib s.required_sources

abbrev no_settings : Settings
no_settings = record {
  min_confidence = none;
  max_manifest_age_seconds = none;
  issuer = none;
  required_sources = none;
  algorithm_policy = none;
}

-- The policy row, or a new one, which must be expected at the revision zero.
pub current_policy : ℕ → Option Policy → Result Error Policy
current_policy expected none =
    if expected == 0
    then ok (record {
      enabled = false;
      approved = false;
      revision = 0;
      sequence = 0;
      settings = no_settings;
    })
    else err revision_conflict
current_policy expected (some p) = if p.revision == expected then ok p else err revision_conflict

pub apply_action : Texts → Action → Policy → Result Error Policy
unfolding same_text is_complete
apply_action lib (draft none) p = err unknown_fields
apply_action lib (draft (some s)) p =
    ok (record p { settings = s; enabled = false; approved = false })
apply_action lib (approve confirmed) p = do
  raise_if (not confirmed) approval_required
  raise_if (not (same_text algorithm_policy_name p.settings.algorithm_policy)) algorithm_unapproved
  raise_if (not (is_complete lib p.settings)) incomplete_policy
  ok (record p { approved = true; enabled = true })
apply_action lib revoke p = ok (record p { approved = false; enabled = false })
apply_action lib other_action p = err unknown_action

-- The checks and the changes of `manage_policy`; an expected revision that is no natural number is
-- `none`. The caller rolls back after an error.
pub next_policy : Texts → Action → Option String → Option ℕ → Option Policy → Result Error Policy
unfolding current_policy apply_action
next_policy lib action actor none policy = err invalid_revision
next_policy lib action actor (some expected) policy = do
  raise_if (not (known_text lib actor)) unreviewed_actor
  p ← current_policy expected policy
  q ← apply_action lib action p
  ok (record q { revision = q.revision + 1 })

pub data IdentityStatus : Type 0 where
  verified review ambiguous other_status : IdentityStatus

-- The evidence of a review: whether each of the six confirmations is literally true.
pub record Evidence : Type 0 where
  pub all_sales_reviewed : Bool
  pub complete_client_history_reviewed : Bool
  pub client_unique : Bool
  pub manager_unique : Bool
  pub nontechnical : Bool
  pub no_name_phone_conflict : Bool
  pub reviewer : Option String
  pub reason : Option String

-- AnalyticsAutomationIdentity
pub record Identity : Type 0 where
  pub subject_key : String
  pub client_id : String
  pub manager_id : ℤ
  pub revision : ℕ
  pub status : IdentityStatus
  pub evidence : Evidence

-- The payload of a review; `in_scope` is the test of its scope, and `subject_key` the digest of its
-- client's key and scope.
pub record Review : Type 0 where
  pub in_scope : Bool
  pub client_key : Option String
  pub subject_key : String
  pub status : IdentityStatus
  pub client_id : Option String
  pub manager_id : Option ℤ
  pub evidence : Evidence

pub is_verified : IdentityStatus → Bool
is_verified verified = true
is_verified _ = false

pub is_known_status : IdentityStatus → Bool
is_known_status other_status = false
is_known_status _ = true

pub all_confirmed : Evidence → Bool
all_confirmed e =
    e.all_sales_reviewed && e.complete_client_history_reviewed && e.client_unique
    && e.manager_unique && e.nontechnical && e.no_name_phone_conflict

pub find_identity : String → List Identity → Option Identity
find_identity key [] = none
find_identity key (i ∷ is) =
    let rest = find_identity key is in if str_eq key i.subject_key then some i else rest

-- `row.revision if row else 0`
pub stored_revision : String → List Identity → ℕ
unfolding find_identity
stored_revision key is = elim (find_identity key is) [ none ↦ 0 | some i ↦ i.revision ]

-- The row of this key, replaced or added.
pub put_identity : Identity → List Identity → List Identity
put_identity row [] = row ∷ []
put_identity row (i ∷ is) =
    let rest = put_identity row is in
    if str_eq row.subject_key i.subject_key then row ∷ is else i ∷ rest

pub reviewed_by : Option String → Evidence → Evidence
reviewed_by actor e = record e { reviewer = actor }

-- What a review to VERIFIED must bring.
pub is_unambiguous : Texts → Review → Bool
unfolding is_positive all_confirmed
is_unambiguous lib r =
    known_text lib r.client_id
    && is_positive r.manager_id
    && all_confirmed r.evidence
    && known_text lib r.evidence.reason

-- The row that a review writes; a client or a manager that is missing is stored as empty.
pub reviewed_row : Option String → ℕ → Review → Identity
unfolding reviewed_by
reviewed_row actor expected r = record {
  subject_key = r.subject_key;
  client_id = or_else "" r.client_id;
  manager_id = or_else (pos 0) r.manager_id;
  revision = expected + 1;
  status = r.status;
  evidence = reviewed_by actor r.evidence;
}

-- The checks and the changes of `review_identity`.
pub next_identities :
    Texts → Review → Option String → Option ℕ → List Identity → Result Error (List Identity)
unfolding is_known_status is_verified is_unambiguous stored_revision put_identity reviewed_row
next_identities lib r actor none is = err invalid_revision
next_identities lib r actor (some expected) is = do
  raise_if (not (known_text lib actor)) unreviewed_actor
  raise_if (not r.in_scope || not (known_text lib r.client_key) || not (is_known_status r.status))
      invalid_identity
  raise_if (is_verified r.status && not (is_unambiguous lib r)) ambiguous_identity
  raise_if (not (stored_revision r.subject_key is == expected)) revision_conflict
  ok (put_identity (reviewed_row actor expected r) is)

-- AnalyticsAutomationDecision as the two commands write it, without its id and time.
pub data Decision : Type 0 where
  policy_changed : Action → Option String → ℕ → Settings → Decision
  identity_reviewed : Option String → String → ℕ → IdentityStatus → Evidence → Decision

-- `manage_policy(db, action, payload, actor, expected_revision)`: the policy and the log.
pub manage_policy :
    Texts
    → Action
    → Option String
    → Option ℕ
    → Option Policy
    → List Decision
    → Result Error (Policy × List Decision)
unfolding next_policy
manage_policy lib action actor expected policy log = do
  q ← next_policy lib action actor expected policy
  ok (q, log ++ policy_changed action actor q.revision q.settings ∷ [])

-- `review_identity(db, payload, actor, expected_revision)`: the identities and the log.
pub review_identity :
    Texts
    → Review
    → Option String
    → Option ℕ
    → List Identity
    → List Decision
    → Result Error (List Identity × List Decision)
unfolding next_identities reviewed_by
review_identity lib r actor expected is log = do
  js ← next_identities lib r actor expected is
  ok (
    js,
    log
        ++ identity_reviewed actor r.subject_key (or_else 0 expected + 1) r.status
            (reviewed_by actor r.evidence)
          ∷ [],
  )
