-- ===== src/Automation/Release.antt =====
-- analytics_automation.py: the reasons of `release_churn` against a release. What the database holds at that time is in `Context`; the
-- digests of a scope, of assignments and of facts, and the signature of the manifest, are the
-- libraries' and are given with it. A confidence is a number of millionths.
use sales_journal.Prelude.{
  Bool, List, Option, String, [], all, any, false, if◌then◌else◌, is_some, leb, ltb, none, not,
  or_else, pos, some, str_eq, true, ℕ, ℤ, ◌&&◌, ◌*◌, ◌++◌, ◌+◌, ◌-◌, ◌==◌, ◌||◌, ◌∷◌,
}
pub mod Issue
pub mod Current
mod Tests
use sales_journal.Automation.{
  is_verified, all_confirmed, find_identity, Identity, Policy, Settings, Texts,
  algorithm_policy_name, are_sources, is_confidence, is_positive, known_text, no_settings,
  same_text,
}
use sales_journal.Automation.Guard.{BindingGuard, is_verified_as, Release, same_number}

pub data Reason : Type 0 where
  producer_disabled policy_not_approved algorithm_policy_not_approved : Reason
  required_sources_not_approved confidence_not_approved manifest_age_not_approved : Reason
  run_not_succeeded run_not_last_closed_day run_not_current_publication : Reason
  source_changed_or_pending timezone_unsupported shadow_source_contract_invalid : Reason
  algorithm_changed scope_not_approved upstream_signature_invalid : Reason
  upstream_proof_expired upstream_proof_mismatch completeness_unconfirmed : Reason
  upstream_source_set_unconfirmed upstream_facts_mismatch : Reason
  no_eligible_churn release_conflict : Reason

-- AnalyticsSignalRun with the parts of its metadata that are read here.
pub record SourceRun : Type 0 where
  pub id : String
  pub is_succeeded : Bool
  pub as_of : ℕ
  pub source_revision : ℕ
  pub timezone : Option String
  pub is_contract_valid : Bool
  pub is_algorithm_current : Bool
  pub scope_policy : Option String
  pub department : Option String
  pub buyer_types : List String

-- The payload of the manifest; a field that is missing or has another type is `none`.
pub record Payload : Type 0 where
  pub issued_at : Option ℕ
  pub valid_until : Option ℕ
  pub version : Option ℕ
  pub issuer : Option String
  pub source_run_id : Option String
  pub source_revision : Option ℕ
  pub as_of : Option ℕ
  pub complete_through : Option ℕ
  pub scope_hash : Option String
  pub identities_hash : Option String
  pub is_complete : Bool
  pub are_clients_current : Bool
  pub clients_revision : Option String
  pub source_revisions : Option (List (String × Option String))
  pub fact_count : Option ℕ
  pub facts_hash : Option String

pub record Envelope : Type 0 where
  pub is_signed : Bool
  pub payload : Payload
  pub digest : String

-- AnalyticsClientEvaluation of an active signal, with the key of its identity.
pub record Candidate : Type 0 where
  pub subject_key : String
  pub confidence : ℕ
  pub signal_type : Option String
  pub signal_status : Option String
  pub signal_as_of : Option ℕ

pub record Context : Type 0 where
  pub producer_enabled : Bool
  pub policy : Option Policy
  pub run : Option SourceRun
  pub published_run_id : Option String
  pub source_revision : Option ℕ
  pub is_import_pending : Bool
  pub timezone : String
  pub instant : ℕ
  pub today : ℕ
  pub candidates : List Candidate
  pub identities : List Identity
  pub scope_hash : String
  pub identities_hash : String
  pub fact_count : ℕ
  pub facts_hash : String
  pub existing : Option (Release × String)
  pub fresh_id : String

abbrev pub scope_policy_name : String
scope_policy_name = "aviatorov-wholesale-corporate/2"

-- `reasons.append(...)` for each test that holds.
pub collect : List (Bool × Reason) → List Reason
collect [] = []
collect ((b, r) ∷ rest) = let more = collect rest in if b then r ∷ more else more

pub settings_of : Option Policy → Settings
settings_of none = no_settings
settings_of (some p) = p.settings

pub is_switched : Option Policy → Bool
is_switched none = false
is_switched (some p) = p.enabled && p.approved

pub policy_reasons : Texts → Context → List (Bool × Reason)
unfolding is_switched settings_of
policy_reasons lib c =
    let s = settings_of c.policy in
    (not c.producer_enabled, producer_disabled)
    ∷ (not (is_switched c.policy), policy_not_approved)
    ∷ (not (same_text algorithm_policy_name s.algorithm_policy), algorithm_policy_not_approved)
    ∷ (not (are_sources lib s.required_sources), required_sources_not_approved)
    ∷ (not (is_confidence s.min_confidence), confidence_not_approved)
    ∷ (not (is_positive s.max_manifest_age_seconds), manifest_age_not_approved)
    ∷ []

-- A text that has to be there and the same.
pub same_buyers : List String → Bool
same_buyers (a ∷ b ∷ []) = str_eq a "Оптовик" && str_eq b "Корпоративный"
same_buyers _ = false

pub run_reasons : Context → Option SourceRun → List (Bool × Reason)
unfolding same_buyers
run_reasons c none = (true, run_not_succeeded) ∷ (true, scope_not_approved) ∷ []
run_reasons c (some r) =
    (not r.is_succeeded, run_not_succeeded)
    ∷ (not (r.as_of + 1 == c.today), run_not_last_closed_day)
    ∷ (not (same_text r.id c.published_run_id), run_not_current_publication)
    ∷ (
      not (same_number r.source_revision c.source_revision) || c.is_import_pending,
      source_changed_or_pending,
    )
    ∷ (
      not (str_eq c.timezone "Europe/Moscow") || not (same_text c.timezone r.timezone),
      timezone_unsupported,
    )
    ∷ (not r.is_contract_valid, shadow_source_contract_invalid)
    ∷ (not r.is_algorithm_current, algorithm_changed)
    ∷ (
      not (same_text scope_policy_name r.scope_policy)
          || not (same_text "Авиаторов" r.department)
          || not (same_buyers r.buyer_types),
      scope_not_approved,
    )
    ∷ []

-- The manifest is issued, not expired and not too old. `total_seconds()` keeps the fraction, so the
-- comparison with the seconds of the policy is one of microseconds.
pub is_current : Option ℤ → ℕ → Payload → Bool
is_current (some (pos max_age)) now p = elim p.issued_at [
  | none ↦ false
  | some issued ↦ elim p.valid_until [
    | none ↦ false
    | some expires ↦
        leb issued now
        && ltb now expires
        && leb (expires - issued) (max_age * 1000000)
        && leb (now - issued) (max_age * 1000000)
  ]
]
is_current _ now p = false

pub matches : Texts → Context → SourceRun → Payload → Bool
matches lib c r p =
    same_number 1 p.version
    && same_text (or_else "" (settings_of c.policy).issuer) p.issuer
    && same_text r.id p.source_run_id
    && same_number r.source_revision p.source_revision
    && same_number r.as_of p.as_of
    && same_number r.as_of p.complete_through
    && same_text c.scope_hash p.scope_hash
    && same_text c.identities_hash p.identities_hash
    && known_text lib (settings_of c.policy).issuer

pub has_source : String → List (String × Option String) → Bool
has_source key [] = false
has_source key ((k, v) ∷ rest) = str_eq key k || has_source key rest

pub is_listed : String → List (Option String) → Bool
is_listed key vs = any (same_text key) vs

pub text_or_none : (String → Bool) → Option String → Bool
text_or_none p none = false
text_or_none p (some s) = p s

-- `set(revisions) == set(required)`, and every revision known.
pub covers_sources :
    Texts → Option (List (String × Option String)) → Option (List (Option String)) → Bool
unfolding has_source is_listed text_or_none
covers_sources lib (some given) (some wanted) =
    all (λ (kv : String × Option String). is_listed kv.0 wanted && known_text lib kv.1) given
    && all (text_or_none (λ s. has_source s given)) wanted
covers_sources lib _ _ = false

pub run_matches : Texts → Context → Option SourceRun → Payload → Bool
unfolding matches
run_matches lib c none p = false
run_matches lib c (some r) p = matches lib c r p

pub facts_match : Context → Payload → Bool
facts_match c p =
    is_some c.run
    && leb 1 c.fact_count
    && same_number c.fact_count p.fact_count
    && same_text c.facts_hash p.facts_hash

-- The proof of the upstream system; without a valid signature nothing else of it is looked at.
pub manifest_reasons : Texts → Context → Envelope → List (Bool × Reason)
unfolding is_current run_matches facts_match covers_sources settings_of
manifest_reasons lib c e =
    let s = settings_of c.policy in
    let p = e.payload in
    (not e.is_signed, upstream_signature_invalid)
    ∷ (
      e.is_signed && not (is_current s.max_manifest_age_seconds c.instant p),
      upstream_proof_expired,
    )
    ∷ (e.is_signed && not (run_matches lib c c.run p), upstream_proof_mismatch)
    ∷ (
      e.is_signed
          && not (p.is_complete && p.are_clients_current && known_text lib p.clients_revision),
      completeness_unconfirmed,
    )
    ∷ (
      e.is_signed
          && not (
              are_sources lib s.required_sources
              && covers_sources lib p.source_revisions s.required_sources),
      upstream_source_set_unconfirmed,
    )
    ∷ (e.is_signed && not (facts_match c p), upstream_facts_mismatch)
    ∷ []

-- `reasons`, before the candidates are looked at.
pub reasons : Texts → Context → Envelope → List Reason
unfolding collect policy_reasons run_reasons manifest_reasons
reasons lib c e =
    collect (policy_reasons lib c)
    ++ (collect (run_reasons c c.run) ++ collect (manifest_reasons lib c e))
