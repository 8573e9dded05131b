-- ===== src/Season.antt =====
-- backend/app/seasonality.py: the operator's commands and the loop over batches. A batch of
-- services/seasonality_worker.py is an input: how it ends, and the row as it leaves it. A list of
-- rounds is no longer than max_batches.
use sales_journal.Prelude.{
  Bool, List, Option, String, [], false, holds, if◌then◌else◌, is_some, leb, not, some, true, ℕ,
  ◌&&◌, ◌+◌, ◌==◌, ◌||◌, ◌∷◌,
}
pub mod Laws
mod Tests

-- SeasonalityState, as far as it is read or written here.
pub record State : Type 0 where
  pub enabled : Bool
  pub stop_requested : Bool
  pub is_idle : Bool
  pub failure_count : ℕ
  pub error_code : Option String
  pub source_revision : ℕ
  pub job_revision : ℕ
  pub last_checked : Option ℕ
  pub rebuild_required : Bool

-- SeasonalityBusy, an HTTPException, any other exception, or the row after a batch.
pub data Outcome : Type 0 where
  busy unavailable broken : Outcome
  worked : State → Outcome

-- Before a batch: whether a signal has asked to stop.
pub record Round : Type 0 where
  pub stop : Bool
  pub outcome : Outcome

-- A failure that counts: the third in a row switches the calculation off.
pub count_failure : String → State → State
count_failure code s = record s {
  error_code = some code;
  failure_count = s.failure_count + 1;
  enabled = if leb 3 (s.failure_count + 1) then false else s.enabled;
}

-- `run(factory, engine, max_batches=..., stop=stop)`
pub run : List Round → State → State
run [] s = s
run (r ∷ rs) s = elim (r.stop || s.stop_requested) [
  | true ↦ s
  | false ↦ elim r.outcome [
    | busy ↦ record s { error_code = some "resource_busy" }
    | unavailable ↦ count_failure "memory_or_queue" s
    | broken ↦ count_failure "calculation_error" s
    | worked after ↦ elim after.is_idle [ true ↦ after | false ↦ run rs after ]
  ]
]

pub data Command : Type 0 where
  enable pause rebuild : Command
  run_now scheduled : List Round → Command
  worker : ℕ → List (List Round) → Command

-- Whether the worker has anything to do on a day.
pub is_due : ℕ → State → Bool
is_due today s =
    s.enabled
    && (not s.is_idle
        || not (holds (λ day. day == today) s.last_checked)
        || not (s.source_revision == s.job_revision)
        || s.rebuild_required)

-- The worker's batches of one wake, each a run of one batch, until an error or the end of the phase.
pub wake : List Round → State → State
wake [] s = s
wake (r ∷ rs) s = elim (r.stop || not s.enabled) [
  | true ↦ s
  | false ↦
      let after = run (r ∷ []) s in
      elim (is_some after.error_code || after.is_idle) [ true ↦ after | false ↦ wake rs after ]
]

-- `worker(factory, engine, ...)`: one list of rounds for each poll.
pub work : ℕ → List (List Round) → State → State
work today [] s = s
work today (rounds ∷ polls) s = elim (is_due today s) [
  | true ↦ work today polls (wake rounds s)
  | false ↦ work today polls s
]

-- `execute(options)`
pub execute : Command → State → State
execute enable s = record s { enabled = true; stop_requested = false; failure_count = 0 }
execute pause s = record s { enabled = false; stop_requested = true; failure_count = 0 }
execute rebuild s = record s { rebuild_required = true; source_revision = s.source_revision + 1 }
execute (run_now rounds) s = run rounds (record s { stop_requested = false })
execute (scheduled rounds) s = if not s.enabled || s.stop_requested then s else run rounds s
execute (worker today polls) s = work today polls s
