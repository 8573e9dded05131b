-- ===== src/Catalog/Run.antt =====
-- catalog_sync_worker.py: `run_request`. A round holds what happens around one batch: pauses by the
-- operator before and during it, the shutdown, how the batch ends, and how the pause after it ends.
-- An exception outside the batch's own handler and a cancellation may come before a batch, in it and
-- in the pause after it. That `finish` itself fails is not modelled.
use sales_journal.Prelude.{
  Bool, List, Option, String, [], err, false, if◌then◌else◌, ltb, min, none, not, ok, some, str_eq,
  true, ℕ, ◌&&◌, ◌*◌, ◌+◌, ◌-◌, ◌^◌, ◌||◌, ◌∷◌,
}
pub mod Ends
pub mod Machine
pub mod Settled
pub mod Writes
mod Tests
use sales_journal.Catalog.{
  running, waiting, stopping, paused, completed, failed, Mode, refresh, same_mode, Control, State,
  pause, finish, prepare,
}

-- How the whole run may be broken off: CancelledError, which goes on to the caller after the row is
-- written, and any other exception that reaches the outer handler.
pub data Stop : Type 0 where
  cancelled raised : Stop

pub data Outcome : Type 0 where
  -- rows scanned and processed, and whether the pass is complete
  done : ℕ → ℕ → Bool → Outcome
  -- the code, whether a new attempt may help, and whether the synchronisation had been entered
  broken : String → Bool → Bool → Outcome
  -- broken off, and whether a failure of the batch had been counted before that
  interrupted : Stop → Bool → Outcome

pub record Round : Type 0 where
  -- a pause before the row is read, and one after it is marked as running
  pub operator_pause : Bool
  pub late_pause : Bool
  pub shutdown : Bool
  -- broken off before the row is marked as running
  pub early : Option Stop
  pub outcome : Outcome
  -- whether the pause after the batch may run its full time, and whether it is broken off
  pub waited : Bool
  pub wait_stop : Option Stop

-- `min(3600, retry_seconds * 2 ** (failures - 1))`, in seconds.
pub wait_seconds : ℕ → ℕ → ℕ
wait_seconds retry_seconds failures = min 3600 (retry_seconds * 2 ^ (failures - 1))

-- `retryable or code == "memory_headroom"`
pub is_retryable : String → Bool → Bool
is_retryable code retryable = retryable || str_eq code "memory_headroom"

-- `state.errors += 1` where the synchronisation does not count the failure itself.
pub counted : Mode → Bool → State → State
counted mode entered state =
    if same_mode mode refresh || not entered
    then record state { errors = state.errors + 1 }
    else state

pub after_failure : String → Control → Control
after_failure code control =
    finish (if str_eq code "memory_headroom" then paused else failed) (some code) control

pub wait_for_retry : String → Control → Control
wait_for_retry code control = record control {
  status = if control.requested then waiting else stopping;
  error_code = some code;
}

pub add_counts : ℕ → ℕ → Control → Control
add_counts scanned processed control = record control {
  scanned = control.scanned + scanned;
  processed = control.processed + processed;
}

-- The row as the head of the loop finds it.
pub at_head : ℕ → Round → Control → Control
at_head now r control = if r.operator_pause then pause now control else control

pub mark_running : Control → Control
mark_running control = record control { status = running; error_code = none }

-- The row after a pause that comes while the batch runs.
pub after_batch : ℕ → Round → Control → Control
after_batch now r control = if r.late_pause then pause now control else control

-- The outer handlers of CancelledError and of Exception.
pub break_off : Stop → Control → Control
break_off cancelled control = finish paused (some "cancelled") control
break_off raised control = finish failed (some "sync_error") control

-- The loop, with the number of failures in a row; when no round is left, the request is withdrawn.
pub run_rounds : ℕ → ℕ → Mode → ℕ → List Round → Control → State → Control × State
run_rounds now limit mode failures [] control state = (finish paused none control, state)
run_rounds now limit mode failures (r ∷ rs) control state =
    let head = at_head now r control in
    let batch = after_batch now r (mark_running head) in
    elim r.early [
      | some stop ↦ (break_off stop head, state)
      | none ↦ elim (r.shutdown || not head.requested) [
        | true ↦ (finish paused none head, state)
        | false ↦ elim r.outcome [
          | interrupted stop is_counted ↦ (
            break_off stop batch,
            (if is_counted then record state { errors = state.errors + 1 } else state),
          )
          | done scanned processed is_complete ↦
              let next = add_counts scanned processed batch in
              elim is_complete [
                | true ↦ (finish completed none next, state)
                | false ↦ elim r.wait_stop [
                  | some stop ↦ (break_off stop next, state)
                  | none ↦ elim (r.waited && next.requested) [
                    | true ↦ run_rounds now limit mode 0 rs next state
                    | false ↦ (finish paused none next, state)
                  ]
                ]
              ]
          | broken code retryable entered ↦
              let failed_state = counted mode entered state in
              elim (not (is_retryable code retryable) || ltb limit (failures + 1)) [
                | true ↦ (after_failure code batch, failed_state)
                | false ↦
                    let next = wait_for_retry code batch in
                    elim r.wait_stop [
                      | some stop ↦ (break_off stop next, failed_state)
                      | none ↦ elim (r.waited && next.requested) [
                        | true ↦ run_rounds now limit mode (failures + 1) rs next failed_state
                        | false ↦ (finish paused none next, failed_state)
                      ]
                    ]
              ]
        ]
      ]
    ]

-- What `run_request` finds: whether another synchronisation holds the lock, whether it is broken off
-- before the first round, whether the worker shuts down, the highest sale item and the last identity.
pub record Env : Type 0 where
  pub now : ℕ
  pub retry_limit : ℕ
  pub is_taken : Bool
  pub early : Option Stop
  pub shutdown : Bool
  pub top : ℕ
  pub last : Option String

-- `run_request(engine, factory, shutdown, client)`. An error of `prepare` reaches the outer handler.
pub run_request : Env → List Round → Control → State → Control × State
run_request env rounds control state =
    if env.is_taken
    then (finish paused (some "catalog_sync_already_running") control, state)
    else elim env.early [
      | some stop ↦ (break_off stop control, state)
      | none ↦
          if env.shutdown || not control.requested
          then (finish paused none control, state)
          else elim (prepare env.now env.top env.last control.mode state control) [
            | err _ ↦ (break_off raised control, state)
            | ok (false, s, c) ↦ (finish completed none c, s)
            | ok (true, s, c) ↦ run_rounds env.now env.retry_limit control.mode 0 rounds c s
          ]
    ]
