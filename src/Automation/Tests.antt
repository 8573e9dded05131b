-- ===== src/Automation/Tests.antt =====
-- A policy and an identity through their commands, and instances of the theorems.
use sales_journal.Prelude.{
  All, List, [], false, inl, length, none, ok, pos, refl, some, some_inj, true, ℕ, ◌++◌, ◌+◌, ◌∷◌,
  ◌≡◌, ◌≢◌,
}
use sales_journal.Automation.{
  Decision, policy_changed, identity_reviewed, next_policy, next_identities, Evidence, Identity,
  Policy, Review, Settings, Texts, approve, manage_policy, review_identity, revoke, verified,
  algorithm_policy_name, known_text, same_text, is_complete, current_policy, apply_action,
  is_confidence, is_positive, are_sources, are_distinct, stored_revision, find_identity,
  put_identity, reviewed_row, is_unambiguous, is_verified, all_confirmed, is_known_status,
  reviewed_by,
}
use sales_journal.Automation.Guard.{BindingGuard, Now, Release, current_release, stands}
use sales_journal.Automation.Laws.{IsSafe, manage_policy-IsSafe, manage_policy-withdraws}
use sales_journal.Automation.Reviews.{
  IsConfirmed, review_identity-IsConfirmed, review_identity-withdraws,
}

abbrev lib : Texts
lib = record { strip = λ s. s; upper = λ s. s }

abbrev settings : Settings
settings = record {
  min_confidence = some (pos 800000);
  max_manifest_age_seconds = some (pos 3600);
  issuer = some "upstream";
  required_sources = some (some "erp" ∷ some "shop" ∷ []);
  algorithm_policy = some algorithm_policy_name;
}

abbrev drafted : Policy
drafted = record {
  enabled = false;
  approved = false;
  revision = 1;
  sequence = 0;
  settings = settings;
}

abbrev active : Policy
active = record drafted { enabled = true; approved = true; revision = 2 }

abbrev revoked : Policy
revoked = record drafted { revision = 3 }

abbrev approvals : List Decision
approvals = policy_changed (approve true) (some "reviewer") 2 settings ∷ []

manage_policy-IsSafe_example :
    IsSafe lib active
    × (active.revision ≡ 1 + 1)
    × (active.sequence ≡ 0)
    × (approvals ≡ [] ++ approvals)
unfolding manage_policy next_policy current_policy apply_action same_text is_complete is_confidence
    is_positive are_sources are_distinct known_text
manage_policy-IsSafe_example =
    manage_policy-IsSafe lib (approve true) (some "reviewer") 1 (some drafted) active [] approvals
      (λ p e. rw (← (some_inj e)) (record { switched = refl; settled = λ a. absurd (cc) })) refl

abbrev active_safe : IsSafe lib active
unfolding same_text is_complete is_confidence is_positive are_sources are_distinct known_text
active_safe = record { switched = refl; settled = λ a. (refl, refl) }

abbrev guard : BindingGuard
guard = record { key = "k"; revision = 1; client_id = "c"; manager_id = pos 5 }

abbrev release : Release
release = record {
  id = "r";
  algorithm_policy = some algorithm_policy_name;
  policy_revision = 2;
  permanent_revision = none;
  source_revision = 4;
  valid_until = 100;
  as_of = 9;
  guards = guard ∷ [];
}

abbrev evidence : Evidence
evidence = record {
  all_sales_reviewed = true;
  complete_client_history_reviewed = true;
  client_unique = true;
  manager_unique = true;
  nontechnical = true;
  no_name_phone_conflict = true;
  reviewer = some "reviewer";
  reason = some "matched";
}

abbrev identity : ℕ → Identity
identity revision = record {
  subject_key = "k";
  client_id = "c";
  manager_id = pos 5;
  revision = revision;
  status = verified;
  evidence = evidence;
}

abbrev review_again : Review
review_again = record {
  in_scope = true;
  client_key = some "phone";
  subject_key = "k";
  status = verified;
  client_id = some "c";
  manager_id = some (pos 5);
  evidence = evidence;
}

abbrev now : Policy → List Identity → Now
now policy identities = record {
  producer_enabled = true;
  policy = some policy;
  schedule = none;
  source_revision = some 4;
  is_import_pending = false;
  instant = 50;
  today = 10;
  identities = identities;
}

handed_over : current_release (now active (identity 1 ∷ [])) (some release) ≡ ok release
unfolding current_release
handed_over = refl

manage_policy-withdraws_example :
    current_release (now revoked (identity 1 ∷ [])) (some release) ≢ ok release
unfolding manage_policy next_policy current_policy apply_action known_text
manage_policy-withdraws_example =
    manage_policy-withdraws lib revoke (some "reviewer") 2 active revoked []
      (policy_changed revoke (some "reviewer") 3 settings ∷ []) (now revoked (identity 1 ∷ []))
      release release active_safe refl refl refl

abbrev reviews : ℕ → List Decision
reviews revision = identity_reviewed (some "reviewer") "k" revision verified evidence ∷ []

review_identity-IsConfirmed_example :
    All (IsConfirmed lib) (identity 1 ∷ []) × (length (reviews 1) ≡ 0 + 1)
unfolding review_identity next_identities stored_revision find_identity put_identity reviewed_row
    is_unambiguous is_verified all_confirmed is_known_status is_positive reviewed_by known_text
review_identity-IsConfirmed_example =
    review_identity-IsConfirmed lib review_again (some "reviewer") 0 [] (identity 1 ∷ []) []
      (reviews 1) tt refl

review_identity-withdraws_example :
    current_release (now active (identity 2 ∷ [])) (some release) ≢ ok release
unfolding review_identity next_identities stored_revision find_identity put_identity reviewed_row
    is_unambiguous is_verified all_confirmed is_known_status is_positive reviewed_by known_text
    stands
review_identity-withdraws_example =
    review_identity-withdraws lib review_again (some "reviewer") 1 (identity 1 ∷ [])
      (identity 2 ∷ []) [] (reviews 2) guard (now active (identity 2 ∷ [])) release release refl
      refl refl (inl refl) refl
