-- ===== src/Source.antt =====
-- backend/app/services/analytics_source.py: up to which day a calculation may look at the imports.
use sales_journal.Prelude.{
  Bool, List, Option, String, [], any, false, if◌then◌else◌, is_none, leb, length, ltb, max, min,
  none, not, or_else, some, str_eq, true, ℕ, ◌&&◌, ◌++◌, ◌==◌, ◌||◌, ◌∷◌,
}
pub mod Bounds
pub mod Laws
mod Tests

-- A day is a day number.
pub record ImportEvidence : Type 0 where
  pub id : ℕ
  pub filename : String
  pub status : String
  pub error_rows : ℕ
  pub imported_at : Option ℕ
  pub declared_start : Option ℕ
  pub declared_end : Option ℕ
  pub observed_start : Option ℕ
  pub observed_end : Option ℕ
  pub method : Option String

pub data Code : Type 0 where
  no_import_evidence import_evidence_limit_exceeded import_pending_or_failed_or_errors : Code
  invalid_declared_period declared_period_missing observed_outside_declared_period : Code
  no_common_declared_period requested_date_outside_declared_period : Code
  requested_date_after_available_data requested_date_not_closed requested_date_accepted : Code
  stored_sales_completeness_unknown import_pending no_scoped_stored_sales : Code
  effective_date_precedes_published_run analytic_scope_changed_requires_isolated_run : Code
  buyer_type_scope_empty buyer_type_source_unavailable : Code

pub data Coverage : Type 0 where
  unhealthy declared unknown : Coverage

pub data Business : Type 0 where
  unhealthy unknown stale current : Business

pub record SourceDecision : Type 0 where
  pub requested_as_of : ℕ
  pub last_closed_business_day : ℕ
  pub declared_data_through : Option ℕ
  pub observed_data_through : Option ℕ
  pub accepted_data_through : Option ℕ
  pub effective_as_of : Option ℕ
  pub coverage_status : Coverage
  pub coverage_method : Option String
  pub business_freshness : Business
  pub reason_codes : List Code
  pub source_revision : ℕ
  pub evidence : List ImportEvidence
  pub evidence_fingerprint : String
  pub timezone : String
  pub shadow_allowed : Bool
  pub automation_allowed : Bool
  pub policy_version : String

abbrev pub evidence_limit : ℕ
evidence_limit = 1000

-- METHOD of importer/source_period.py
abbrev pub report_period : String
report_period = "DECLARED_REPORT_PERIOD"

-- `sorted(evidence, key=lambda e: e.id)`
pub place : ImportEvidence → List ImportEvidence → List ImportEvidence
place e [] = e ∷ []
place e (f ∷ fs) = let rest = place e fs in if leb e.id f.id then e ∷ f ∷ fs else f ∷ rest

pub sorted : List ImportEvidence → List ImportEvidence
sorted [] = []
sorted (e ∷ es) = place e (sorted es)

-- `min(...)` and `max(...)` of two days that may be missing.
pub earlier : Option ℕ → Option ℕ → Option ℕ
earlier none b = b
earlier (some a) none = some a
earlier (some a) (some b) = some (min a b)

pub later : Option ℕ → Option ℕ → Option ℕ
later none b = b
later (some a) none = some a
later (some a) (some b) = some (max a b)

-- `min((e.declared_end for e in evidence if e.declared_end), default=None)`
pub earliest_end : List ImportEvidence → Option ℕ
earliest_end [] = none
earliest_end (e ∷ es) = earlier e.declared_end (earliest_end es)

pub latest_observed : List ImportEvidence → Option ℕ
latest_observed [] = none
latest_observed (e ∷ es) = later e.observed_end (latest_observed es)

-- `max(e.declared_start for e in evidence)`
pub latest_start : List ImportEvidence → Option ℕ
latest_start [] = none
latest_start (e ∷ es) = later e.declared_start (latest_start es)

pub is_method : String → Option String → Bool
is_method name none = false
is_method name (some method) = str_eq method name

-- A failed or unfinished import.
pub is_failed : ImportEvidence → Bool
is_failed e = not (str_eq e.status "completed") || not (e.error_rows == 0) || is_none e.imported_at

pub method_failed : ImportEvidence → Bool
method_failed e =
    is_method "INVALID_REPORT_PERIOD" e.method || is_method "METADATA_EXTRACTION_FAILED" e.method

pub undeclared : ImportEvidence → Bool
undeclared e =
    not (is_method report_period e.method) || is_none e.declared_start || is_none e.declared_end

-- `a and b and a < b` of two days that may be missing.
pub precedes : Option ℕ → Option ℕ → Bool
precedes (some a) (some b) = ltb a b
precedes _ _ = false

pub is_reversed : ImportEvidence → Bool
is_reversed e = precedes e.declared_end e.declared_start

-- Both bounds are declared, and something was observed outside of them.
pub is_outside : ImportEvidence → Bool
is_outside e =
    not (is_none e.declared_start)
    && not (is_none e.declared_end)
    && (precedes e.observed_start e.declared_start || precedes e.declared_end e.observed_end)

unfoldable pub when : Bool → Code → List Code
when b code = if b then code ∷ [] else []

-- The body of the loop over the imports: the codes that it appends, and whether it sets `unhealthy`.
pub check_import : ImportEvidence → List Code
check_import e =
    when (is_failed e) import_pending_or_failed_or_errors
    ++ (if method_failed e
        then invalid_declared_period ∷ []
        else when (undeclared e) declared_period_missing)
    ++ when (is_reversed e) invalid_declared_period
    ++ when (is_outside e) observed_outside_declared_period

pub is_unhealthy : ImportEvidence → Bool
is_unhealthy e = is_failed e || method_failed e || is_reversed e || is_outside e

pub check_imports : List ImportEvidence → List Code
check_imports [] = []
check_imports (e ∷ es) = check_import e ++ check_imports es

-- The reasons before a day is accepted.
pub objections : List ImportEvidence → List Code
objections evidence =
    when (length evidence == 0) no_import_evidence
    ++ when (ltb evidence_limit (length evidence)) import_evidence_limit_exceeded
    ++ check_imports evidence

unfoldable pub code_number : Code → ℕ
code_number no_import_evidence = 0
code_number import_evidence_limit_exceeded = 1
code_number import_pending_or_failed_or_errors = 2
code_number invalid_declared_period = 3
code_number declared_period_missing = 4
code_number observed_outside_declared_period = 5
code_number no_common_declared_period = 6
code_number requested_date_outside_declared_period = 7
code_number requested_date_after_available_data = 8
code_number requested_date_not_closed = 9
code_number requested_date_accepted = 10
code_number stored_sales_completeness_unknown = 11
code_number import_pending = 12
code_number no_scoped_stored_sales = 13
code_number effective_date_precedes_published_run = 14
code_number analytic_scope_changed_requires_isolated_run = 15
code_number buyer_type_scope_empty = 16
code_number buyer_type_source_unavailable = 17

-- `tuple(dict.fromkeys(reasons))`: each reason once, where it came first.
pub without : Code → List Code → List Code
without c [] = []
without c (d ∷ ds) =
    let rest = without c ds in if code_number d == code_number c then rest else d ∷ rest

pub once : List Code → List Code
once [] = []
once (c ∷ cs) = c ∷ without c (once cs)

-- What the block `if not reasons` finds: an objection more, or the accepted day.
pub data Acceptance : Type 0 where
  objected : Code → Acceptance
  accepted : ℕ → Acceptance

pub accept : ℕ → ℕ → List ImportEvidence → Acceptance
accept requested closed evidence =
    let start = or_else 0 (latest_start evidence) in
    let end = or_else 0 (earliest_end evidence) in
    if ltb end start
    then objected no_common_declared_period
    else if ltb (min requested (min closed end)) start
    then objected requested_date_outside_declared_period
    else accepted end

-- The reasons of an accepted day.
pub remarks : ℕ → ℕ → ℕ → List Code
remarks requested closed end =
    let found =
      when (ltb end requested) requested_date_after_available_data
      ++ when (ltb closed requested) requested_date_not_closed in
    elim found [ [] ↦ requested_date_accepted ∷ [] | c ∷ cs ↦ c ∷ cs ]

abbrev pub policy_version : String
policy_version = "safe-as-of/1"

abbrev pub stored_policy_version : String
stored_policy_version = "stored-sales-shadow/1"

-- The decision without an accepted day.
pub refused : ℕ → ℕ → ℕ → String → List ImportEvidence → String → List Code → SourceDecision
refused requested closed revision timezone evidence digest reasons = record {
  requested_as_of = requested;
  last_closed_business_day = closed;
  declared_data_through = earliest_end evidence;
  observed_data_through = latest_observed evidence;
  accepted_data_through = none;
  effective_as_of = none;
  coverage_status = if any is_unhealthy evidence then Coverage.unhealthy else Coverage.unknown;
  coverage_method = none;
  business_freshness = if any is_unhealthy evidence then Business.unhealthy else Business.unknown;
  reason_codes = once reasons;
  source_revision = revision;
  evidence = evidence;
  evidence_fingerprint = digest;
  timezone = timezone;
  shadow_allowed = false;
  automation_allowed = false;
  policy_version = policy_version;
}

module _ (fingerprint : List ImportEvidence → String) (stored_fingerprint : ℕ → ℕ → String) where
  -- `resolve_source(requested, evidence, last_closed_business_day=closed, ...)`
  pub resolve_source : ℕ → List ImportEvidence → ℕ → ℕ → String → SourceDecision
  resolve_source requested given closed revision timezone =
      let evidence = sorted given in
      let base = refused requested closed revision timezone evidence (fingerprint evidence) in
      elim (objections evidence) [
        | c ∷ cs ↦ base (c ∷ cs)
        | [] ↦ elim (accept requested closed evidence) [
          | objected code ↦ base (code ∷ [])
          | accepted end ↦ record (base []) {
            accepted_data_through = some end;
            effective_as_of = some (min requested (min end closed));
            coverage_status = declared;
            coverage_method = some report_period;
            business_freshness = if ltb end closed then stale else Business.current;
            reason_codes = once (remarks requested closed end);
            shadow_allowed = true;
          }
        ]
      ]

  -- `resolve_stored_sales_source(requested, ...)`
  unfoldable pub resolve_stored_sales_source : ℕ → ℕ → ℕ → String → Bool → ℕ → Bool → SourceDecision
  resolve_stored_sales_source requested closed revision timezone has_sales upper pending =
      let allowed : Bool = has_sales && ltb 0 upper && not pending in
      record {
        requested_as_of = requested;
        last_closed_business_day = closed;
        declared_data_through = none;
        observed_data_through = none;
        accepted_data_through = none;
        effective_as_of = if allowed then some (min requested closed) else none;
        coverage_status = Coverage.unknown;
        coverage_method = some "STORED_SALES";
        business_freshness = Business.unknown;
        reason_codes =
            stored_sales_completeness_unknown
              ∷ when (ltb closed requested) requested_date_not_closed
            ++ when pending import_pending
            ++ when (not has_sales || upper == 0) no_scoped_stored_sales;
        source_revision = revision;
        evidence = [];
        evidence_fingerprint = stored_fingerprint revision upper;
        timezone = timezone;
        shadow_allowed = allowed;
        automation_allowed = false;
        policy_version = stored_policy_version;
      }
