-- ===== src/Catalog/Run/Writes.antt =====
-- catalog_sync_control.py and catalog_sync_worker.py: what each write makes of the control row.
use sales_journal.Prelude.{Bool, Option, String, arith, false, ok, refl, true, ℕ, ◌≡◌}
use sales_journal.Catalog.{
  Mode, State, start, pause, boot, settle, shut_down, is_busy, is_ended, is_stopping, Status,
  Control, finish,
}
use sales_journal.Catalog.Run.{
  Stop, Stop, cancelled, raised, break_off, after_failure, mark_running, wait_for_retry,
}
use sales_journal.Catalog.Run.Machine.{
  leaving, is_pending, IsSettled, Worker, away, idle, in_run, marking, retrying, holds_lock,
  same_status, same_flag, commit, Ending, withdrawn, complete, given_up, ended, IsRead,
}

pub start_lem :
    (now : ℕ) (free : Bool) (mode : Mode) (state : Option State) (row to : Control)
    → start now free mode state row ≡ ok to
    → IsSettled to × (free ≡ true)
unfolding start is_pending
start_lem now free mode state row to h = (ground arith, ground arith)

-- Only a request that was there is there after a pause, and the row stays settled.
pub pause_lem :
    (now : ℕ) (row : Control)
    → ((pause now row).requested ≡ false) × (IsSettled row → IsSettled (pause now row))
unfolding pause is_pending is_busy
pause_lem now row = (refl, ground arith)

pub boot-IsSettled : (now : ℕ) (row : Control) → IsSettled (boot now row)
unfolding boot is_pending is_ended
boot-IsSettled now row = ground arith

pub settle-IsSettled : (row : Control) → IsSettled row → IsSettled (settle row)
unfolding settle is_pending is_stopping
settle-IsSettled row s = ground arith

pub shut_down-IsSettled : (row : Control) → IsSettled (shut_down row)
unfolding shut_down is_pending is_ended
shut_down-IsSettled row = ground arith

pub ended-IsSettled : (how : Ending) (row : Control) → IsSettled (ended how row)
unfolding ended finish after_failure is_pending
ended-IsSettled withdrawn row = refl
ended-IsSettled complete row = refl
ended-IsSettled (given_up code) row = ground arith

pub break_off-IsSettled : (stop : Stop) (row : Control) → IsSettled (break_off stop row)
unfolding finish break_off is_pending
break_off-IsSettled cancelled row = refl
break_off-IsSettled raised row = refl

pub same_status-eq : (a b : Status) → same_status a b ≡ true → a ≡ b
unfolding same_status
same_status-eq a b h = ground arith

-- A write of a run from a row that was read: of a request that is still there, and of a settled row.
pub marked_lem :
    (read row : Control)
    → read.requested ≡ true
    → (row.requested ≡ true → is_pending row.status ≡ true)
    → (row.requested ≡ true → is_pending (commit read (mark_running read) row).status ≡ true)
unfolding commit mark_running is_pending
marked_lem read row there wanted = ground arith

pub retried_lem :
    (code : String) (read row : Control)
    → (read.requested ≡ false → row.requested ≡ false)
    → (row.requested ≡ true → is_pending row.status ≡ true)
    → (row.requested ≡ true → is_pending (commit read (wait_for_retry code read) row).status ≡ true)
unfolding commit wait_for_retry is_pending
retried_lem code read row off wanted = ground arith

pub retried-IsSettled :
    (code : String) (read row : Control)
    → same_flag read.requested row.requested ≡ true
    → IsSettled row
    → IsSettled (commit read (wait_for_retry code read) row)
unfolding commit wait_for_retry is_pending same_flag same_status
retried-IsSettled code read row same s = ground arith

pub marked-IsSettled :
    (read row : Control)
    → read.requested ≡ true
    → same_flag read.requested row.requested ≡ true
    → IsSettled row
    → IsSettled (commit read (mark_running read) row)
unfolding commit mark_running is_pending same_flag same_status
marked-IsSettled read row there same s = ground arith

-- The worker's reading lasts while nobody starts a run.
pub IsRead-kept :
    (worker : Worker) (row to : Control)
    → (to.requested ≡ true → row.requested ≡ true)
    → IsRead worker row
    → IsRead worker to
unfolding IsRead
IsRead-kept away row to less h = tt
IsRead-kept idle row to less h = tt
IsRead-kept in_run row to less h = tt
IsRead-kept (leaving stop) row to less h = tt
IsRead-kept (marking read) row to less h = h
IsRead-kept (retrying code read) row to less h = λ off. let gone = h off in ground arith

pub IsRead-free :
    (worker : Worker) (row : Control) → ¬ (holds_lock worker ≡ true) → IsRead worker row
unfolding IsRead holds_lock
IsRead-free away row h = tt
IsRead-free idle row h = tt
IsRead-free in_run row h = tt
IsRead-free (leaving stop) row h = tt
IsRead-free (marking read) row h = absurd (h refl)
IsRead-free (retrying code read) row h = absurd (h refl)
