-- ===== src/Catalog/Run/Machine.antt =====
-- catalog_sync_control.py and catalog_sync_worker.py: the control row over time, one committed
-- transaction at a time. `start`, `pause`, `boot` and `finish` lock the row. Two writes of a run read
-- the row without a lock, so that each is two steps: the reading, and the writing of the columns that
-- differ from what was read. The other transactions are one step each. In which order a run goes
-- through its steps is left open.
use sales_journal.Prelude.{
  Bool, Option, String, arith, err, false, if◌then◌else◌, none, not, ok, some, str_eq, true, ℕ, ◌<◌,
  ◌||◌, ◌≡◌, ◌≤◌,
}
use sales_journal.Catalog.{
  Mode, State, already_running, discovery, start, pause, boot, settle, shut_down, prepare, is_busy,
  worker_ready, queued, running, waiting, Status, stopping, paused, completed, failed, Control,
  finish,
}
use sales_journal.Catalog.Run.{
  Stop, break_off, after_failure, add_counts, mark_running, wait_for_retry,
}

-- A request stands for a run that is queued or going on.
unfoldable pub is_pending : Status → Bool
is_pending queued = true
is_pending running = true
is_pending waiting = true
is_pending _ = false

abbrev pub IsSettled : Control → Type 0
IsSettled control = control.requested ≡ is_pending control.status

-- Where the worker is: not there, waiting for a request, in `run_request`, there with a row that it has
-- read and is about to mark as running or to set back after a failure of the code, or on its way out
-- to an outer handler, with the lock given back.
pub data Worker : Type 0 where
  away idle in_run : Worker
  marking : Control → Worker
  retrying : String → Control → Worker
  leaving : Stop → Worker

-- A run holds the advisory lock of the synchronisation.
unfoldable pub holds_lock : Worker → Bool
holds_lock away = false
holds_lock idle = false
holds_lock (leaving stop) = false
holds_lock _ = true

-- `overtaken` is no part of the program: whether a write of the run that is going on landed on a row
-- whose request had changed since it was read.
pub record World : Type 0 where
  pub row : Control
  pub worker : Worker
  pub overtaken : Bool

unfoldable pub same_status : Status → Status → Bool
same_status queued queued = true
same_status running running = true
same_status waiting waiting = true
same_status stopping stopping = true
same_status paused paused = true
same_status completed completed = true
same_status failed failed = true
same_status _ _ = false

pub same_code : Option String → Option String → Bool
same_code none none = true
same_code (some a) (some b) = str_eq a b
same_code _ _ = false

unfoldable pub same_flag : Bool → Bool → Bool
same_flag true b = b
same_flag false b = not b

-- What a commit writes of a row that was read and then changed: the status and the code, where they
-- differ from what was read.
unfoldable pub commit : Control → Control → Control → Control
commit read made row = record row {
  status = if same_status read.status made.status then row.status else made.status;
  error_code =
      if same_code read.error_code made.error_code then row.error_code else made.error_code;
}

-- The world after such a commit.
unfoldable pub committed : Control → Control → World → World
committed read made w = record w {
  row = commit read made w.row;
  worker = in_run;
  overtaken = w.overtaken || not (same_flag read.requested w.row.requested);
}

-- How a run ends by itself: its request is withdrawn, the pass is complete, or a batch has failed for
-- good.
pub data Ending : Type 0 where
  withdrawn complete : Ending
  given_up : String → Ending

unfoldable pub ended : Ending → Control → Control
ended withdrawn row = finish paused none row
ended complete row = finish completed none row
ended (given_up code) row = after_failure code row

-- One transaction: of the web application, or of the worker. While a run holds the advisory lock,
-- `start` does not get it.
pub data Step (w : World) : World → Type 0 where
  started :
      (now : ℕ) (free : Bool) (mode : Mode) (state : Option State) {to : Control}
      → (holds_lock w.worker ≡ true → free ≡ false)
      → start now free mode state w.row ≡ ok to
      → Step w (record w { row = to })
  paused_by : (now : ℕ) → Step w (record w { row = pause now w.row })
  beat : (now : ℕ) → Step w (record w { row = record (w.row) { heartbeat_at = some now } })
  crashed : Step w (record w { worker = away })
  booted :
      (now : ℕ)
      → w.worker ≡ away
      → Step w (record { row = boot now w.row; worker = idle; overtaken = false })
  settled : w.worker ≡ idle → Step w (record w { row = settle w.row })
  went_down : w.worker ≡ idle → Step w (record w { row = shut_down w.row; worker = away })
  refused :
      w.worker ≡ idle
      → Step w (record w { row = finish paused (some "catalog_sync_already_running") w.row })
  entered : w.worker ≡ idle → Step w (record w { worker = in_run })
  prepared :
      (now top : ℕ) (last : Option String) (mode : Mode) (state : State) {b : Bool} {state' : State}
      {to : Control}
      → w.worker ≡ in_run
      → prepare now top last mode state w.row ≡ ok (b, state', to)
      → Step w (record w { row = to })
  read_to_mark :
      w.worker ≡ in_run → w.row.requested ≡ true → Step w (record w { worker = marking w.row })
  marked :
      (read : Control) → w.worker ≡ marking read → Step w (committed read (mark_running read) w)
  counted :
      (scanned processed : ℕ)
      → w.worker ≡ in_run
      → Step w (record w { row = add_counts scanned processed w.row })
  paged :
      (cursor : Option String) (is_last : Bool)
      → w.worker ≡ in_run
      → Step w (record w {
        row = record (w.row) { refresh_cursor = cursor; refresh_completed = is_last };
      })
  read_to_retry :
      (code : String) → w.worker ≡ in_run → Step w (record w { worker = retrying code w.row })
  retried :
      (code : String) (read : Control)
      → w.worker ≡ retrying code read
      → Step w (committed read (wait_for_retry code read) w)
  finished :
      (how : Ending)
      → w.worker ≡ in_run
      → Step w (record { row = ended how w.row; worker = idle; overtaken = false })
  left : (stop : Stop) → holds_lock w.worker ≡ true → Step w (record w { worker = leaving stop })
  handled :
      (stop : Stop)
      → w.worker ≡ leaving stop
      → Step w (record { row = break_off stop w.row; worker = idle; overtaken = false })

pub data Reach (w : World) : World → Type 0 where
  here : Reach w w
  next : {via to : World} → Reach w via → Step via to → Reach w to

-- What the worker has read: a row that it marks had a request, and a request that it has seen withdrawn
-- stays so until the worker has written.
unfoldable pub IsRead : Worker → Control → Type 0
IsRead (marking read) row = read.requested ≡ true
IsRead (retrying code read) row = read.requested ≡ false → row.requested ≡ false
IsRead _ row = Unit

pub record IsSound (w : World) : Type 0 where
  pub wanted : w.row.requested ≡ true → is_pending w.row.status ≡ true
  pub settled_row : w.overtaken ≡ false → IsSettled w.row
  pub rested : w.worker ≡ idle → w.overtaken ≡ false
  pub has_read : IsRead w.worker w.row

-- After an accepted start, and a pause in between or not, no start is accepted before the worker has
-- acted: not while it is ready to act.
pub start_twice :
    (now later : ℕ) (free again : Bool) (mode other : Mode) (state state' : Option State)
    (control to : Control)
    → start now free mode state control ≡ ok to
    → worker_ready later to ≡ true
    → (start later again other state' to ≡ err already_running)
      × (start later again other state' (pause later to) ≡ err already_running)
unfolding start pause worker_ready is_busy
start_twice now later free again mode other state state' control to h ready =
    (ground arith, ground arith)

-- A pass for new sales begins after the last item that the pass before it had to reach, and ends with
-- the newest one: no row between them is left out.
pub prepare-tail :
    (now top : ℕ) (last : Option String) (state state' : State) (control control' : Control)
    → prepare now top last discovery state control ≡ ok (true, state', control')
    → 0 < state.cycle
    → state.is_completed ≡ true
    → state.cursor ≤ state.upper_id
    → (state'.cursor ≡ state.upper_id)
      × (state'.upper_id ≡ top)
      × (state'.cursor < state'.upper_id)
      × (state'.is_completed ≡ false)
      × (state'.cycle ≡ state.cycle)
unfolding prepare
prepare-tail now top last state state' control control' h c d e =
    (ground arith, ground arith, ground arith, ground arith, ground arith)
