-- ===== src/Catalog/Run/Tests.antt =====
-- catalog_sync_worker.py: one request with a batch that fails and one that is cancelled, and a pause
-- that comes between a reading and its write.
use sales_journal.Prelude.{List, [], arith, false, none, ok, refl, some, true, ◌∷◌, ◌≡◌}
use sales_journal.Catalog.{
  queued, paused, discovery, Control, State, start, worker_ready, is_busy, same_mode, prepare, boot,
  is_ended, pause,
}
use sales_journal.Catalog.Run.{
  Round, broken, interrupted, cancelled, Env, run_request, mark_running, wait_for_retry,
}
use sales_journal.Catalog.Run.Ends.{IsOver, run_request-IsOver}
use sales_journal.Catalog.Run.Machine.{
  holds_lock, IsSettled, is_pending, Reach, here, next, World, away, idle, in_run, marking,
  retrying, committed, booted, started, entered, read_to_mark, marked, read_to_retry, paused_by,
  retried,
}
use sales_journal.Catalog.Run.Settled.{Reach-IsSettled}

abbrev row : Control
row = record {
  requested = false;
  status = paused;
  mode = discovery;
  heartbeat_at = some 100;
  run_started_at = none;
  tracked_cycle = some 1;
  cycle_started_at = some 1;
  scanned = 3;
  processed = 2;
  error_code = none;
  refresh_cursor = none;
  refresh_upper = none;
  refresh_completed = true;
}

abbrev state : State
state = record { cycle = 1; cursor = 40; upper_id = 40; is_completed = true; errors = 0 }

abbrev begun : Control
begun = record row {
  requested = true;
  status = queued;
  run_started_at = some 105;
  scanned = 0;
  processed = 0;
}

abbrev env : Env
env = record {
  now = 106;
  retry_limit = 3;
  is_taken = false;
  early = none;
  shutdown = false;
  top = 55;
  last = none;
}

abbrev rounds : List Round
rounds =
    record {
      operator_pause = false;
      late_pause = false;
      shutdown = false;
      early = none;
      outcome = broken "timeout" true true;
      waited = true;
      wait_stop = none;
    }
    ∷ record {
      operator_pause = false;
      late_pause = true;
      shutdown = false;
      early = none;
      outcome = interrupted cancelled false;
      waited = true;
      wait_stop = none;
    }
    ∷ []

abbrev queued_row : Control
queued_row = record begun { heartbeat_at = some 104 }

booted_start : start 105 true discovery (some state) (boot 104 row) ≡ ok queued_row
unfolding start worker_ready is_busy same_mode boot is_ended
booted_start = refl

accepted_start : start 105 true discovery (some state) row ≡ ok begun
unfolding start worker_ready is_busy same_mode
accepted_start = refl

still_ready : worker_ready 110 begun ≡ true
unfolding worker_ready
still_ready = refl

row-IsSettled : IsSettled row
unfolding is_pending
row-IsSettled = refl

run_request-IsOver_example : IsOver (run_request env rounds begun state).0
run_request-IsOver_example = run_request-IsOver env rounds begun state

-- The worker starts, takes up a request and marks the row; a failure is set back after a pause that
-- came in between.
abbrev at_first : World
at_first = record { row = row; worker = away; overtaken = false }

abbrev at_work : World
at_work = record { row = queued_row; worker = in_run; overtaken = false }

abbrev going : World
going =
    committed queued_row (mark_running queued_row) (record at_work { worker = marking queued_row })

abbrev failing : World
failing = record going { worker = retrying "timeout" going.row }

abbrev halted : World
halted = record failing { row = pause 110 failing.row }

abbrev late : World
late = committed going.row (wait_for_retry "timeout" going.row) halted

trace : Reach at_first late
unfolding committed holds_lock
trace =
    next
      (next
        (next
          (next
            (next
              (next
                (next (next here (booted 104 refl)) (
                  started 105 true discovery (some state) (λ h. absurd (ground arith))
                    booted_start))
                (entered refl))
              (read_to_mark refl refl))
            (marked queued_row refl))
          (read_to_retry "timeout" refl))
        (paused_by 110))
      (retried "timeout" going.row refl)

Reach-IsSettled_example :
    (late.overtaken ≡ false → IsSettled late.row)
    × (late.row.requested ≡ true → is_pending late.row.status ≡ true)
    × (late.worker ≡ idle → IsSettled late.row)
Reach-IsSettled_example = Reach-IsSettled {w = at_first} {w' = late} row-IsSettled refl trace

tail_prepared :
    prepare 106 55 none discovery state begun
    ≡ ok (true, record state { upper_id = 55; is_completed = false }, begun)
unfolding prepare
tail_prepared = refl
