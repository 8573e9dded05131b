-- ===== src/Automation/Release/Tests.antt =====
-- A release of one candidate, and an instance of the theorem.
use sales_journal.Prelude.{[], false, none, ok, pos, refl, some, true, ◌∷◌, ◌≡◌}
use sales_journal.Automation.{
  Identity, Policy, Texts, algorithm_policy_name, verified, all_confirmed, are_sources,
  are_distinct, find_identity, is_confidence, is_positive, is_verified, known_text, same_text,
}
use sales_journal.Automation.Guard.{Release, current_release, is_verified_as, same_number}
use sales_journal.Automation.Release.{
  Candidate, Context, Envelope, SourceRun, scope_policy_name, collect, is_current, reasons,
  settings_of, policy_reasons, run_reasons, manifest_reasons, is_switched, same_buyers, matches,
  run_matches, facts_match, covers_sources, has_source, is_listed, text_or_none,
}
use sales_journal.Automation.Release.Issue.{
  guards_of, is_alias, is_confident, is_confirmed, is_ready, new_release, ready_ones, release_churn,
  settle,
}
use sales_journal.Automation.Release.Current.{after_release, release_churn-current}

abbrev lib : Texts
lib = record { strip = λ s. s; upper = λ s. s }

abbrev policy : Policy
policy = record {
  enabled = true;
  approved = true;
  revision = 2;
  sequence = 6;
  settings = record {
    min_confidence = some (pos 800000);
    max_manifest_age_seconds = some (pos 3600);
    issuer = some "upstream";
    required_sources = some (some "erp" ∷ []);
    algorithm_policy = some algorithm_policy_name;
  };
}

abbrev run : SourceRun
run = record {
  id = "run";
  is_succeeded = true;
  as_of = 9;
  source_revision = 4;
  timezone = some "Europe/Moscow";
  is_contract_valid = true;
  is_algorithm_current = true;
  scope_policy = some scope_policy_name;
  department = some "Авиаторов";
  buyer_types = "Оптовик" ∷ "Корпоративный" ∷ [];
}

abbrev identity : Identity
identity = record {
  subject_key = "k";
  client_id = "c";
  manager_id = pos 5;
  revision = 1;
  status = verified;
  evidence = record {
    all_sales_reviewed = true;
    complete_client_history_reviewed = true;
    client_unique = true;
    manager_unique = true;
    nontechnical = true;
    no_name_phone_conflict = true;
    reviewer = some "reviewer";
    reason = some "matched";
  };
}

abbrev candidate : Candidate
candidate = record {
  subject_key = "k";
  confidence = 900000;
  signal_type = some "CHURN_RISK";
  signal_status = some "ACTIVE";
  signal_as_of = some 9;
}

abbrev envelope : Envelope
envelope = record {
  is_signed = true;
  digest = "proof";
  payload = record {
    issued_at = some 1000;
    valid_until = some 3000;
    version = some 1;
    issuer = some "upstream";
    source_run_id = some "run";
    source_revision = some 4;
    as_of = some 9;
    complete_through = some 9;
    scope_hash = some "scope";
    identities_hash = some "people";
    is_complete = true;
    are_clients_current = true;
    clients_revision = some "7";
    source_revisions = some (("erp", some "12") ∷ []);
    fact_count = some 30;
    facts_hash = some "facts";
  };
}

abbrev context : Context
context = record {
  producer_enabled = true;
  policy = some policy;
  run = some run;
  published_run_id = some "run";
  source_revision = some 4;
  is_import_pending = false;
  timezone = "Europe/Moscow";
  instant = 2000;
  today = 10;
  candidates = candidate ∷ [];
  identities = identity ∷ [];
  scope_hash = "scope";
  identities_hash = "people";
  fact_count = 30;
  facts_hash = "facts";
  existing = none;
  fresh_id = "release";
}

abbrev next : Policy
next = record policy { sequence = 7 }

abbrev made : Release
made = record {
  id = "release";
  algorithm_policy = some algorithm_policy_name;
  policy_revision = 2;
  permanent_revision = none;
  source_revision = 4;
  valid_until = 3000;
  as_of = 9;
  guards = record { key = "k"; revision = 1; client_id = "c"; manager_id = pos 5 } ∷ [];
}

release_churn-current_example : current_release (after_release context next) (some made) ≡ ok made
unfolding release_churn reasons collect settle ready_ones is_ready is_alias is_verified_as
    is_confirmed is_confident guards_of new_release known_text all_confirmed is_positive same_number
    same_text find_identity is_verified is_current are_sources are_distinct is_confidence
    settings_of policy_reasons run_reasons manifest_reasons is_switched same_buyers matches
    run_matches facts_match covers_sources has_source is_listed text_or_none
release_churn-current_example = release_churn-current lib context envelope next made refl
