-- ===== src/Worker/Batch.antt =====
-- analytics_signal_worker.py: `stored_source_context`, `run_batch` and `record_failure`. A batch that
-- raises is rolled back.
use sales_journal.Prelude.{
  Bool, List, Option, Result, String, [], err, false, if◌then◌else◌, leb, none, not, ok, or_else,
  some, true, ℕ, ◌&&◌, ◌++◌, ◌+◌, ◌==◌, ◌||◌, ◌∷◌,
}
pub mod Moves
pub mod Laws
mod Tests
use sales_journal.Source.{
  ImportEvidence, SourceDecision, Code, no_scoped_stored_sales, buyer_type_scope_empty,
  buyer_type_source_unavailable, resolve_stored_sales_source,
}
use sales_journal.Worker.{
  same_text, Status, running, failed, succeeded, scan, evaluate, complete, Scope, Run, State, World,
  Algorithm, find_run, find_active, save, is_open, is_reusable, is_succeeded, resume_blocker,
  supersede, Inputs, begin_run, incompatible,
}

-- What `stored_source_context` reads; `loaded` is none where ClientsVrError is raised.
pub record Reads : Type 0 where
  pub closed : ℕ
  pub upper : ℕ
  pub revision : ℕ
  pub timezone : String
  pub pending : Bool
  pub fallback : Scope
  pub loaded : Option Scope
  pub no_client_keys : Bool
  pub present : Bool

-- The scope, whether a sale was found, and the reason to refuse.
pub scoped : Reads → Scope × Bool × Option Code
scoped reads = if reads.pending then (reads.fallback, false, none) else elim reads.loaded [
  | none ↦ (reads.fallback, false, some buyer_type_source_unavailable)
  | some scope ↦ (
    scope,
    reads.present,
    (if reads.no_client_keys
        then some buyer_type_scope_empty
        else if reads.present
        then none
        else some no_scoped_stored_sales),
  )
]

pub stored_source_context :
    (List ImportEvidence → String) → (ℕ → ℕ → String) → Reads → ℕ → SourceDecision × Scope
stored_source_context print stored_print reads as_of =
    let (scope, present, reason) = scoped reads in
    let decision =
      resolve_stored_sales_source print stored_print as_of reads.closed reads.revision
        reads.timezone present reads.upper reads.pending in
    elim reason [
      | none ↦ (decision, scope)
      | some code ↦ (
        record decision {
          shadow_allowed = false;
          effective_as_of = none;
          reason_codes = decision.reason_codes ++ code ∷ [];
        },
        scope,
      )
    ]

pub data Error : Type 0 where
  invalid_batch_limits original_requested_as_of_required : Error

-- How a batch ends: without a run, with one that is not worked on, or after work.
pub data Answer : Type 0 where
  disabled : Answer
  stopped : Run → Answer
  progressed : Run → Answer

pub last_of : ℕ → List ℕ → ℕ
last_of d [] = d
last_of d (n ∷ ns) = last_of n ns

pub last_key : String → List String → String
last_key d [] = d
last_key d (s ∷ ss) = last_key s ss

-- `scan_batch` and `evaluate_batch`: how a batch moves the checkpoint.
pub advance : Inputs → Run → Run
advance input run = elim run.phase [
  | scan ↦ elim input.ids [
    | [] ↦ record run { phase = evaluate }
    | n ∷ ns ↦ record run { sale_cursor = last_of n ns }
  ]
  | _ ↦ elim input.keys [
    | [] ↦ record run { phase = complete; status = succeeded; finished_at = some input.now }
    | k ∷ ks ↦ record run { client_cursor = last_key k ks }
  ]
]

-- The end of a batch that works: the run is published once it has succeeded.
pub work : Inputs → State → List Run → Run → Answer × World
work input control runs run =
    let run' : Run = record (advance input run) { heartbeat_at = input.now } in
    let control' : State =
      if is_succeeded run'.status
      then record control { published_run_id = some run'.id; active_run_id = none }
      else control in
    (progressed run', record { control = some control'; runs = save run' runs })

-- A run that cannot go on.
pub give_up : Inputs → State → List Run → Run → String → Answer × World
give_up input control runs run reason =
    let run' = supersede input.now reason run in
    (
      stopped run',
      record { control = some (record control { active_run_id = none }); runs = save run' runs },
    )

module _ (algorithm : Scope → Algorithm) where
  pub resume : Inputs → State → List Run → Run → Result Error (Answer × World)
  resume input control runs run = elim (incompatible algorithm run) [
    | some reason ↦ ok (give_up input control runs run reason)
    | none ↦
        let frozen = run.metadata.source_decision in
        let requested = or_else frozen.requested_as_of input.as_of in
        if not (frozen.requested_as_of == requested)
        then err original_requested_as_of_required
        else (let (current, scope) = input.context requested in
            elim (resume_blocker run current scope) [
              | some reason ↦ ok (give_up input control runs run reason)
              | none ↦
                  ok (work input control runs (record run { status = running; error_code = none }))
            ])
  ]

  pub start : Inputs → State → List Run → Answer × World
  start input control runs =
      let (current, scope) = input.context (or_else input.closed input.as_of) in
      let (run, control', runs') = begin_run algorithm input control runs current scope in
      if is_reusable run.status
      then (stopped run, record { control = some control'; runs = runs' })
      else work input control' runs' run

  pub batch : Inputs → State → List Run → Result Error (Answer × World)
  batch input control runs = elim (find_active control.active_run_id runs) [
    | none ↦ ok (start input control runs)
    | some run ↦
        if is_open run.status then resume input control runs run else ok (start input control runs)
  ]

  -- `run_batch(factory, engine, ...)`
  pub run_batch : Inputs → World → Result Error (Answer × World)
  run_batch input world =
      if not (
        leb 1 input.scan_size
        && leb input.scan_size 5000
        && leb 1 input.client_size
        && leb input.client_size 1000)
      then err invalid_batch_limits
      else if not input.configuration_enabled
      then ok (disabled, world)
      else elim world.control [
        | none ↦ ok (
          disabled,
          record world {
            control =
                some (record { enabled = false; active_run_id = none; published_run_id = none });
          },
        )
        | some control ↦
            if not control.enabled then ok (disabled, world) else batch input control world.runs
      ]

-- `status in {"RUNNING", "FAILED"}`
pub can_fail : Status → Bool
can_fail running = true
can_fail failed = true
can_fail _ = false

pub fail_run : State → String → Option String → Option ℕ → ℕ → World → Bool × World
fail_run control code (some id) (some beat) now world =
    if not (same_text control.active_run_id (some id))
    then (false, world)
    else elim (find_run id world.runs) [
      | none ↦ (false, world)
      | some run ↦
          if not (can_fail run.status) || not control.enabled || not (run.heartbeat_at == beat)
          then (false, world)
          else (
            true,
            record world {
              runs =
                  save
                    (record run {
                      status = failed;
                      error_code = some code;
                      error_count = run.error_count + 1;
                      heartbeat_at = now;
                    })
                    world.runs;
            },
          )
    ]
fail_run control code _ _ now world = (false, world)

-- `record_failure(factory, code, run_id=..., heartbeat_at=...)`
pub record_failure : String → Option String → Option ℕ → ℕ → World → Bool × World
record_failure code id beat now world = elim world.control [
  | none ↦ (false, world)
  | some control ↦ fail_run control code id beat now world
]
