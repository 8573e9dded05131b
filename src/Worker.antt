-- ===== src/Worker.antt =====
-- backend/app/services/analytics_signal_worker.py: the checkpointed run and one batch of it. What the
-- queries of a batch return is its input; the purchase days, phones and counters that a batch
-- writes are not kept, and evidence of imports does not occur in a decision on stored sales.
use sales_journal.Prelude.{
  Bool, List, Option, String, [], false, if◌then◌else◌, is_none, leb, ltb, min, none, not, or_else,
  some, str_eq, true, ℕ, ◌&&◌, ◌++◌, ◌==◌, ◌||◌, ◌∷◌,
}
pub mod Batch
pub mod Rows
use sales_journal.Source.{
  SourceDecision, Code, Coverage, Business, code_number, stored_policy_version,
  effective_date_precedes_published_run, analytic_scope_changed_requires_isolated_run,
}

pub data Status : Type 0 where
  running paused failed blocked succeeded superseded : Status

pub data Phase : Type 0 where
  scan evaluate blocked_phase complete : Phase

-- `rest` stands for the client keys and for where the buyer types come from.
pub record Scope : Type 0 where
  pub policy : String
  pub department : Option String
  pub buyer_types : List String
  pub rest : String

-- `metadata_json` of a run.
pub record Metadata : Type 0 where
  pub mode : String
  pub automation_allowed : Bool
  pub normalization_version : ℕ
  pub generator_version : String
  pub parameters_version : ℕ
  pub parameters : String
  pub coverage_status : Coverage
  pub freshness : Business
  pub complete_through : Option ℕ
  pub source_decision : SourceDecision
  pub scope : Scope

-- AnalyticsSignalRun
pub record Run : Type 0 where
  pub id : String
  pub status : Status
  pub phase : Phase
  pub as_of : ℕ
  pub source_revision : ℕ
  pub upper_sale_id : ℕ
  pub sale_cursor : ℕ
  pub client_cursor : String
  pub heartbeat_at : ℕ
  pub finished_at : Option ℕ
  pub error_code : Option String
  pub error_count : ℕ
  pub metadata : Metadata

-- AnalyticsSignalState
pub record State : Type 0 where
  pub enabled : Bool
  pub active_run_id : Option String
  pub published_run_id : Option String

pub record World : Type 0 where
  pub control : Option State
  pub runs : List Run

-- What `algorithm` of churn_pilot.py returns for a scope: generator, parameters and policy.
pub record Algorithm : Type 0 where
  pub generator_version : String
  pub parameters_version : ℕ
  pub policy : String

pub same_texts : List String → List String → Bool
same_texts [] [] = true
same_texts (a ∷ rest) (b ∷ others) = str_eq a b && same_texts rest others
same_texts _ _ = false

pub same_text : Option String → Option String → Bool
same_text none none = true
same_text (some a) (some b) = str_eq a b
same_text _ _ = false

pub same_day : Option ℕ → Option ℕ → Bool
same_day none none = true
same_day (some a) (some b) = a == b
same_day _ _ = false

pub same_flag : Bool → Bool → Bool
same_flag true b = b
same_flag false b = not b

pub same_scope : Scope → Scope → Bool
same_scope a b =
    str_eq a.policy b.policy
    && same_text a.department b.department
    && same_texts a.buyer_types b.buyer_types
    && str_eq a.rest b.rest

pub same_codes : List Code → List Code → Bool
same_codes [] [] = true
same_codes (a ∷ rest) (b ∷ others) = code_number a == code_number b && same_codes rest others
same_codes _ _ = false

-- `source_decision == evidence` of two decisions of the policy on stored sales, whose other fields
-- are constants.
pub same_decision : SourceDecision → SourceDecision → Bool
same_decision a b =
    a.requested_as_of == b.requested_as_of
    && a.last_closed_business_day == b.last_closed_business_day
    && same_day a.effective_as_of b.effective_as_of
    && same_codes a.reason_codes b.reason_codes
    && a.source_revision == b.source_revision
    && str_eq a.evidence_fingerprint b.evidence_fingerprint
    && str_eq a.timezone b.timezone
    && same_flag a.shadow_allowed b.shadow_allowed
    && str_eq a.policy_version b.policy_version

pub is_unknown_coverage : Coverage → Bool
is_unknown_coverage Coverage.unknown = true
is_unknown_coverage _ = false

pub is_unknown_business : Business → Bool
is_unknown_business Business.unknown = true
is_unknown_business _ = false

-- `stored_sales_contract_valid(metadata)` of analytics_source.py
pub stored_sales_contract_valid : Metadata → Bool
stored_sales_contract_valid m =
    str_eq m.mode "SHADOW"
    && not m.automation_allowed
    && is_unknown_coverage m.coverage_status
    && is_unknown_business m.freshness
    && is_none m.complete_through
    && str_eq m.source_decision.policy_version stored_policy_version
    && is_unknown_coverage m.source_decision.coverage_status
    && is_unknown_business m.source_decision.business_freshness
    && not m.source_decision.automation_allowed
    && is_none m.source_decision.accepted_data_through

-- `db.get(AnalyticsSignalRun, id)`
pub find_run : String → List Run → Option Run
find_run id [] = none
find_run id (r ∷ rs) = let rest = find_run id rs in if str_eq r.id id then some r else rest

pub find_active : Option String → List Run → Option Run
find_active none runs = none
find_active (some id) runs = find_run id runs

-- The row of a run as the session writes it back.
pub save : Run → List Run → List Run
save run [] = []
save run (r ∷ rs) = let rest = save run rs in if str_eq r.id run.id then run ∷ rs else r ∷ rest

-- `status in {"RUNNING", "PAUSED", "FAILED"}`
pub is_open : Status → Bool
is_open running = true
is_open paused = true
is_open failed = true
is_open _ = false

pub is_blocked : Status → Bool
is_blocked blocked = true
is_blocked _ = false

-- `status in {"SUCCEEDED", "BLOCKED"}`
pub is_reusable : Status → Bool
is_reusable succeeded = true
is_reusable blocked = true
is_reusable _ = false

pub is_succeeded : Status → Bool
is_succeeded succeeded = true
is_succeeded _ = false

pub is_checkpoint : Phase → Bool
is_checkpoint scan = true
is_checkpoint evaluate = true
is_checkpoint _ = false

-- `resume_blocker(run, current, scope)`; the texts are error codes.
pub resume_blocker : Run → SourceDecision → Scope → Option String
resume_blocker run current scope =
    let frozen = run.metadata.source_decision in
    if not (str_eq frozen.policy_version stored_policy_version)
    then some "SOURCE_POLICY_CHANGED"
    else if not (frozen.source_revision == run.source_revision)
        || not (run.source_revision == current.source_revision)
        || not (str_eq frozen.evidence_fingerprint current.evidence_fingerprint)
    then some "SOURCE_EVIDENCE_CHANGED"
    else if not current.shadow_allowed
    then some "SOURCE_DECISION_BLOCKED"
    else if not (str_eq frozen.timezone current.timezone)
    then some "SOURCE_CONTEXT_CHANGED"
    else if not (frozen.requested_as_of == current.requested_as_of)
        || not (same_day frozen.effective_as_of (some run.as_of))
        || not (
            leb run.as_of (or_else 0 current.effective_as_of)
            && leb (or_else 0 current.effective_as_of) current.requested_as_of)
    then some "SOURCE_CUTOFF_CHANGED"
    else if not (same_scope run.metadata.scope scope)
    then some "ANALYTIC_SCOPE_CHANGED"
    else none

-- `supersede_run(run, control, reason)`
pub supersede : ℕ → String → Run → Run
supersede now reason run = record run {
  status = superseded;
  error_code = some reason;
  finished_at = some now;
  heartbeat_at = now;
}

-- A new objection to a decision, `replace(decision, shadow_allowed=False, reason_codes=...)`.
pub object : Code → SourceDecision → SourceDecision
object code d = record d { shadow_allowed = false; reason_codes = d.reason_codes ++ code ∷ [] }

-- The decision against the published run.
pub against_published : Option Run → Scope → SourceDecision → SourceDecision
against_published none scope d = d
against_published (some previous) scope d =
    let dated : SourceDecision =
      if (elim d.effective_as_of [ none ↦ false | some day ↦ ltb day previous.as_of ])
      then object effective_date_precedes_published_run d
      else d in
    if not (str_eq previous.metadata.scope.policy scope.policy)
    then object analytic_scope_changed_requires_isolated_run dated
    else dated

-- What a batch reads besides the rows: its arguments, the context and what its queries return.
pub record Inputs : Type 0 where
  pub scan_size : ℕ
  pub client_size : ℕ
  pub configuration_enabled : Bool
  pub as_of : Option ℕ
  pub closed : ℕ
  pub now : ℕ
  pub fresh_id : String
  pub upper_sale_id : ℕ
  pub context : ℕ → SourceDecision × Scope
  pub ids : List ℕ
  pub keys : List String

-- ANALYTICAL_NORMALIZATION_VERSION of client_identity.py
abbrev pub normalization : ℕ
normalization = 1

module _ (algorithm : Scope → Algorithm) where
  -- A candidate is reused where its frozen evidence and its algorithm are those of today.
  pub is_same_run : SourceDecision → Scope → Run → Bool
  is_same_run evidence scope run =
      is_reusable run.status
      && str_eq run.metadata.source_decision.policy_version stored_policy_version
      && same_decision run.metadata.source_decision evidence
      && same_scope run.metadata.scope scope
      && str_eq run.metadata.generator_version (algorithm scope).generator_version
      && run.metadata.parameters_version == (algorithm scope).parameters_version
      && run.metadata.normalization_version == normalization
      && str_eq run.metadata.parameters (algorithm scope).policy
      && stored_sales_contract_valid run.metadata

  -- The new run of `begin_run`.
  pub new_run : Inputs → SourceDecision → Scope → Run
  new_run input d scope = record {
    id = input.fresh_id;
    status = if d.shadow_allowed then running else blocked;
    phase = if d.shadow_allowed then scan else blocked_phase;
    as_of = or_else (min d.requested_as_of d.last_closed_business_day) d.effective_as_of;
    source_revision = d.source_revision;
    upper_sale_id = input.upper_sale_id;
    sale_cursor = 0;
    client_cursor = "";
    heartbeat_at = input.now;
    finished_at = if d.shadow_allowed then none else some input.now;
    error_code = if d.shadow_allowed then none else some "SOURCE_DECISION_BLOCKED";
    error_count = 0;
    metadata = record {
      mode = "SHADOW";
      automation_allowed = false;
      normalization_version = normalization;
      generator_version = (algorithm scope).generator_version;
      parameters_version = (algorithm scope).parameters_version;
      parameters = (algorithm scope).policy;
      coverage_status = d.coverage_status;
      freshness = d.business_freshness;
      complete_through = none;
      source_decision = d;
      scope = scope;
    };
  }

  -- The candidate for reuse: a blocked active run before the published one.
  pub candidate : State → List Run → Option Run
  candidate control runs =
      let previous = find_active control.published_run_id runs in
      elim (find_active control.active_run_id runs) [
        | some run ↦ if is_blocked run.status then some run else previous
        | none ↦ previous
      ]

  -- `begin_run(db, control, decision, scope)`
  pub begin_run : Inputs → State → List Run → SourceDecision → Scope → Run × State × List Run
  begin_run input control runs decision scope =
      let d = against_published (find_active control.published_run_id runs) scope decision in
      let run = new_run input d scope in
      let opened : Run × State × List Run =
        (run, record control { active_run_id = some run.id }, runs ++ run ∷ []) in
      elim (candidate control runs) [
        | none ↦ opened
        | some old ↦ if is_same_run d scope old then (old, control, runs) else opened
      ]

  -- The first incompatibility of an open checkpoint, before the source is read.
  pub incompatible : Run → Option String
  incompatible run =
      let now = algorithm run.metadata.scope in
      if not (str_eq run.metadata.source_decision.policy_version stored_policy_version)
      then some "SOURCE_POLICY_CHANGED"
      else if not (str_eq run.metadata.generator_version now.generator_version)
          || not (run.metadata.parameters_version == now.parameters_version)
          || not (run.metadata.normalization_version == normalization)
          || not (str_eq run.metadata.parameters now.policy)
      then some "ALGORITHM_POLICY_CHANGED"
      else if not (stored_sales_contract_valid run.metadata)
      then some "SHADOW_CONTRACT_CHANGED"
      else if not (is_checkpoint run.phase)
      then some "INVALID_CHECKPOINT_PHASE"
      else none
