-- ===== src/Catalog.antt =====
-- backend/app/services/catalog_sync_control.py and catalog_sync_worker.py: the durable control row of
-- the catalog synchronisation, and the worker's own writes of it. Instants are seconds.
use sales_journal.Prelude.{
  Bool, Option, Result, String, err, false, if◌then◌else◌, leb, ltb, max, none, not, ok, raise_if,
  some, true, ℕ, ◌&&◌, ◌+◌, ◌==◌, ◌>>=◌, ◌>>◌, ◌||◌,
}
pub mod Client
pub mod Refresh
pub mod Run
pub mod Sync

pub data Status : Type 0 where
  queued running waiting stopping paused completed failed : Status

pub data Mode : Type 0 where
  discovery refresh : Mode

-- CatalogSyncControl
pub record Control : Type 0 where
  pub requested : Bool
  pub status : Status
  pub mode : Mode
  pub heartbeat_at : Option ℕ
  pub run_started_at : Option ℕ
  pub tracked_cycle : Option ℕ
  pub cycle_started_at : Option ℕ
  pub scanned : ℕ
  pub processed : ℕ
  pub error_code : Option String
  pub refresh_cursor : Option String
  pub refresh_upper : Option String
  pub refresh_completed : Bool

-- CatalogSyncState, as far as the worker itself reads and writes it.
pub record State : Type 0 where
  pub cycle : ℕ
  pub cursor : ℕ
  pub upper_id : ℕ
  pub is_completed : Bool
  pub errors : ℕ

pub data Error : Type 0 where
  worker_unavailable already_running lock_taken : Error
  initial_scan_required reconciliation_paused : Error
  initial_scan_incomplete : Error

abbrev pub stale_seconds : ℕ
stale_seconds = 20

-- `status in {"queued", "running", "waiting", "stopping"}`
pub is_busy : Status → Bool
is_busy queued = true
is_busy running = true
is_busy waiting = true
is_busy stopping = true
is_busy _ = false

pub is_ended : Status → Bool
is_ended completed = true
is_ended failed = true
is_ended _ = false

pub is_stopping : Status → Bool
is_stopping stopping = true
is_stopping _ = false

pub same_mode : Mode → Mode → Bool
same_mode discovery discovery = true
same_mode refresh refresh = true
same_mode _ _ = false

-- `worker_ready(control)`: a heartbeat in the future counts as a fresh one.
pub worker_ready : ℕ → Control → Bool
worker_ready now control = elim control.heartbeat_at [
  | none ↦ false
  | some stamp ↦ ltb now (stamp + stale_seconds)
]

-- `start(db, mode)`; `free` says whether the advisory lock could be taken.
pub start : ℕ → Bool → Mode → Option State → Control → Result Error Control
start now free mode state control = do
  raise_if (not (worker_ready now control)) worker_unavailable
  raise_if (control.requested || is_busy control.status) already_running
  raise_if (not free) lock_taken
  raise_if (same_mode mode refresh && elim state [ none ↦ true | some s ↦ not s.is_completed ])
      initial_scan_required
  raise_if (not (same_mode mode control.mode) && not control.refresh_completed)
      reconciliation_paused
  ok (record control {
    mode = mode;
    requested = true;
    status = queued;
    error_code = none;
    run_started_at = some now;
    scanned = 0;
    processed = 0;
  })

-- `pause(db)`
pub pause : ℕ → Control → Control
pause now control = record control {
  requested = false;
  status =
      if is_busy control.status
      then (if worker_ready now control then stopping else paused)
      else control.status;
}

-- The status that `status(db)` shows.
pub display_status : ℕ → Control → Status
display_status now control =
    if not (worker_ready now control) && is_busy control.status then paused else control.status

-- `boot(factory)`
pub boot : ℕ → Control → Control
boot now control = record control {
  requested = false;
  status = if is_ended control.status then control.status else paused;
  heartbeat_at = some now;
}

-- `finish(factory, status, error_code)`
pub finish : Status → Option String → Control → Control
finish status code control = record control {
  requested = false;
  status = status;
  error_code = code;
}

-- `serve`: what it does to a row without a request, and when it ends.
pub settle : Control → Control
settle control = if is_stopping control.status then record control { status = paused } else control

pub shut_down : Control → Control
shut_down control = record control {
  requested = false;
  heartbeat_at = none;
  status = if is_ended control.status then control.status else paused;
}

-- `prepare(factory, mode)`: whether there is anything to do. `top` and `last` are the highest sale
-- item and the last identity of the lookups.
pub prepare : ℕ → ℕ → Option String → Mode → State → Control → Result Error (Bool × State × Control)
prepare now top last discovery state control =
    if state.cycle == 0
    then ok (true, state, record control { cycle_started_at = some now; tracked_cycle = some 1 })
    else if not state.is_completed
    then ok (true, state, control)
    else if leb top state.upper_id
    then ok (false, state, control)
    else ok (
      true,
      record state {
        cursor = max state.cursor state.upper_id;
        upper_id = top;
        is_completed = false;
      },
      control,
    )
prepare now top last refresh state control =
    if not state.is_completed
    then err initial_scan_incomplete
    else ok (
      true,
      state,
      (if control.refresh_completed
          then record control {
            refresh_cursor = none;
            refresh_upper = last;
            refresh_completed = false;
          }
          else control),
    )
