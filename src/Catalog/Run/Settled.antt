-- ===== src/Catalog/Run/Settled.antt =====
-- catalog_sync_control.py and catalog_sync_worker.py: what the control row says of the run at any time.
use sales_journal.Prelude.{Bool, Option, String, arith, false, ok, refl, true, ℕ, ◌≡◌}
use sales_journal.Catalog.{Mode, State, start, pause, prepare, Control, finish}
use sales_journal.Catalog.Run.{add_counts, mark_running, wait_for_retry}
use sales_journal.Catalog.Run.Machine.{
  left, handled, leaving, is_pending, IsSettled, Worker, away, idle, in_run, marking, retrying,
  holds_lock, World, same_flag, commit, committed, withdrawn, ended, Step, started, paused_by, beat,
  crashed, booted, settled, went_down, refused, entered, prepared, read_to_mark, marked, counted,
  paged, read_to_retry, retried, finished, Reach, here, next, IsRead, IsSound,
}
use sales_journal.Catalog.Run.Writes.{
  break_off-IsSettled, start_lem, pause_lem, boot-IsSettled, settle-IsSettled, shut_down-IsSettled,
  ended-IsSettled, marked_lem, retried_lem, retried-IsSettled, marked-IsSettled, IsRead-kept,
  IsRead-free,
}

-- A change of the row that leaves its request and its status.
row_kept :
    (w : World) (to : Control)
    → to.requested ≡ w.row.requested
    → to.status ≡ w.row.status
    → IsSound w
    → IsSound (record w { row = to })
row_kept w to same there sound = record {
  wanted = rw (same, there) (sound.wanted);
  settled_row = rw (same, there) (sound.settled_row);
  rested = sound.rested;
  has_read = IsRead-kept w.worker w.row to (λ e. ground arith) sound.has_read;
}

-- A settled row, with a worker that holds nothing.
settled-IsSound :
    (row : Control) (worker : Worker) (overtaken : Bool)
    → IsSettled row
    → (worker ≡ idle → overtaken ≡ false)
    → IsRead worker row
    → IsSound (record { row = row; worker = worker; overtaken = overtaken })
settled-IsSound row worker overtaken s rested read = record {
  wanted = λ e. ground arith;
  settled_row = λ e. s;
  rested = rested;
  has_read = read;
}

prepare-row :
    (now top : ℕ) (last : Option String) (mode : Mode) (state : State) (row : Control) (b : Bool)
    (state' : State) (to : Control)
    → prepare now top last mode state row ≡ ok (b, state', to)
    → (to.requested ≡ row.requested) × (to.status ≡ row.status)
unfolding prepare
prepare-row now top last Mode.discovery state row b state' to h = (ground arith, ground arith)
prepare-row now top last Mode.refresh state row b state' to h = (ground arith, ground arith)

committed-IsSound :
    (read made : Control) (w : World)
    → (w.row.requested ≡ true → is_pending (commit read made w.row).status ≡ true)
    → (same_flag read.requested w.row.requested ≡ true
        → IsSettled w.row
        → IsSettled (commit read made w.row))
    → IsSound w
    → IsSound (committed read made w)
unfolding committed commit IsRead
committed-IsSound read made w wanted agrees sound = record {
  wanted = wanted;
  settled_row = λ e. agrees (ground arith) (sound.settled_row (ground arith));
  rested = λ e. cc;
  has_read = tt;
}

pause-IsSound : (now : ℕ) (w : World) → IsSound w → IsSound (record w { row = pause now w.row })
pause-IsSound now w sound =
    let (off, still) = pause_lem now w.row in
    record {
      wanted = λ e. cc;
      settled_row = λ e. still (sound.settled_row e);
      rested = sound.rested;
      has_read = IsRead-kept w.worker w.row (pause now w.row) (λ e. cc) sound.has_read;
    }

-- Where the worker is idle, the row is settled.
idle-IsSettled : (w : World) → IsSound w → w.worker ≡ idle → IsSettled w.row
idle-IsSettled w sound e = sound.settled_row (sound.rested e)

move-IsSound :
    (w : World) (worker : Worker)
    → (worker ≡ idle → w.overtaken ≡ false)
    → IsRead worker w.row
    → IsSound w
    → IsSound (record w { worker = worker })
move-IsSound w worker rested read sound = record {
  wanted = sound.wanted;
  settled_row = sound.settled_row;
  rested = rested;
  has_read = read;
}

idle-IsSound :
    (w : World) (row : Control)
    → w.worker ≡ idle
    → IsSettled row
    → IsSound w
    → IsSound (record w { row = row })
unfolding IsRead
idle-IsSound w row e s sound = settled-IsSound row w.worker w.overtaken s sound.rested (rw e tt)

start-IsSound :
    (now : ℕ) (free : Bool) (mode : Mode) (state : Option State) (w : World) (to : Control)
    → (holds_lock w.worker ≡ true → free ≡ false)
    → start now free mode state w.row ≡ ok to
    → IsSound w
    → IsSound (record w { row = to })
start-IsSound now free mode state w to locked h sound =
    let (s, open_lock) = start_lem now free mode state w.row to h in
    settled-IsSound to w.worker w.overtaken s sound.rested
      (IsRead-free w.worker to λ held. let shut = locked held in cc)

Step-IsSound : {w w' : World} → Step w w' → IsSound w → IsSound w'
unfolding IsRead add_counts finish ended
Step-IsSound {w} (started now free mode state {to} locked h) sound =
    start-IsSound now free mode state w to locked h sound
Step-IsSound {w} (paused_by now) sound = pause-IsSound now w sound
Step-IsSound {w} (beat now) sound = row_kept w _ refl refl sound
Step-IsSound {w} crashed sound = move-IsSound w away (λ e. cc) tt sound
Step-IsSound {w} (booted now e) sound =
    settled-IsSound _ idle false (boot-IsSettled now w.row) (λ e. refl) tt
Step-IsSound {w} (settled e) sound =
    idle-IsSound w _ e (settle-IsSettled w.row (idle-IsSettled w sound e)) sound
Step-IsSound {w} (went_down e) sound =
    settled-IsSound _ away w.overtaken (shut_down-IsSettled w.row) (λ e. cc) tt
Step-IsSound {w} (refused e) sound = idle-IsSound w _ e (ended-IsSettled withdrawn w.row) sound
Step-IsSound {w} (entered e) sound = move-IsSound w in_run (λ e. cc) tt sound
Step-IsSound {w} (prepared now top last mode state {b} {state'} {to} e h) sound =
    let (same, there) = prepare-row now top last mode state w.row b state' to h in
    row_kept w to same there sound
Step-IsSound {w} (read_to_mark e on) sound = move-IsSound w (marking w.row) (λ e. cc) on sound
Step-IsSound {w} (marked read e) sound =
    let there : read.requested ≡ true = rw e at sound.has_read in
    committed-IsSound read (mark_running read) w (marked_lem read w.row there sound.wanted)
      (marked-IsSettled read w.row there) sound
Step-IsSound {w} (counted scanned processed e) sound = row_kept w _ refl refl sound
Step-IsSound {w} (paged cursor is_last e) sound = row_kept w _ refl refl sound
Step-IsSound {w} (read_to_retry code e) sound =
    move-IsSound w (retrying code w.row) (λ e. cc) (λ off. off) sound
Step-IsSound {w} (retried code read e) sound =
    let off : read.requested ≡ false → w.row.requested ≡ false = rw e at sound.has_read in
    committed-IsSound read (wait_for_retry code read) w
      (retried_lem code read w.row off sound.wanted) (retried-IsSettled code read w.row) sound
Step-IsSound {w} (finished how e) sound =
    settled-IsSound _ idle false (ended-IsSettled how w.row) (λ e. refl) tt
Step-IsSound {w} (left stop e) sound = move-IsSound w (leaving stop) (λ e. cc) tt sound
Step-IsSound {w} (handled stop e) sound =
    settled-IsSound _ idle false (break_off-IsSettled stop w.row) (λ e. refl) tt

Reach-IsSound : {w w' : World} → IsSound w → Reach w w' → IsSound w'
Reach-IsSound sound here = sound
Reach-IsSound sound (next r step) = Step-IsSound step (Reach-IsSound sound r)

-- From a settled row without a worker, whatever the operators and the worker do, one transaction
-- after the other: the row says that a run is requested exactly while its status is queued, running
-- or waiting, unless the request has changed between a reading of the run that is going on and its
-- write. Even then a request has one of these statuses, and an idle worker finds a settled row.
pub Reach-IsSettled :
    {w w' : World}
    → IsSettled w.row
    → w.worker ≡ away
    → Reach w w'
    → (w'.overtaken ≡ false → IsSettled w'.row)
      × (w'.row.requested ≡ true → is_pending w'.row.status ≡ true)
      × (w'.worker ≡ idle → IsSettled w'.row)
unfolding IsRead
Reach-IsSettled {w} {w'} s e r =
    let start_sound : IsSound w =
      settled-IsSound w.row w.worker w.overtaken s (λ i. cc) (rw e tt) in
    let sound = Reach-IsSound start_sound r in
    (sound.settled_row, sound.wanted, idle-IsSettled w' sound)
