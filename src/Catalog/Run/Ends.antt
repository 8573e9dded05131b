-- ===== src/Catalog/Run/Ends.antt =====
-- catalog_sync_worker.py: how a run ends.
use sales_journal.Prelude.{
  Bool, Bool-cases, List, Option, Option-cases, Result, String, [], err, false, inl, inr, is_some,
  ltb, none, not, ok, refl, some, str_eq, true, ℕ, ◌&&◌, ◌+◌, ◌||◌, ◌∷◌, ◌≡◌, ◌⊎◌,
}
use sales_journal.Catalog.{prepare, paused, completed, failed, Mode, Control, State, Error, finish}
use sales_journal.Catalog.Run.{
  Env, run_request, Round, Outcome, done, broken, interrupted, Stop, cancelled, raised, run_rounds,
  at_head, after_batch, after_failure, is_retryable, add_counts, mark_running, wait_for_retry,
  break_off,
}

-- How a run may leave the row.
pub record IsOver (control : Control) : Type 0 where
  pub withdrawn : control.requested ≡ false
  pub at_rest : (control.status ≡ paused) ⊎ (control.status ≡ completed) ⊎ (control.status ≡ failed)
  pub complete_clean : control.status ≡ completed → control.error_code ≡ none
  pub failed_coded : control.status ≡ failed → is_some control.error_code ≡ true

IsOver-paused : (code : Option String) (control : Control) → IsOver (finish paused code control)
unfolding finish
IsOver-paused code control = record {
  withdrawn = refl;
  at_rest = inl refl;
  complete_clean = λ e. cc;
  failed_coded = λ e. cc;
}

IsOver-completed : (control : Control) → IsOver (finish completed none control)
unfolding finish
IsOver-completed control = record {
  withdrawn = refl;
  at_rest = inr (inl refl);
  complete_clean = λ e. refl;
  failed_coded = λ e. cc;
}

IsOver-failed : (code : String) (control : Control) → IsOver (finish failed (some code) control)
unfolding finish
IsOver-failed code control = record {
  withdrawn = refl;
  at_rest = inr (inr refl);
  complete_clean = λ e. cc;
  failed_coded = λ e. refl;
}

IsOver-failure : (code : String) (control : Control) → IsOver (after_failure code control)
unfolding after_failure
IsOver-failure code control = elim (Bool-cases (str_eq code "memory_headroom")) [
  | inl memory ↦ rw (memory, after_failure) (IsOver-paused (some code) control)
  | inr other ↦ rw (other, after_failure) (IsOver-failed code control)
]

IsOver-broken_off : (stop : Stop) (control : Control) → IsOver (break_off stop control)
unfolding break_off
IsOver-broken_off cancelled control = IsOver-paused (some "cancelled") control
IsOver-broken_off raised control = IsOver-failed "sync_error" control

run_rounds-IsOver :
    (now limit : ℕ) (mode : Mode) (failures : ℕ) (rounds : List Round) (control : Control)
    (state : State)
    → IsOver (run_rounds now limit mode failures rounds control state).0
unfolding run_rounds
run_rounds-IsOver now limit mode failures [] control state = IsOver-paused none control
run_rounds-IsOver now limit mode failures (r ∷ rs) control state = elim (Option-cases r.early) [
  | inr (stop, early) ↦ rw (early, run_rounds) (IsOver-broken_off stop _)
  | inl on_time ↦ elim (Bool-cases (r.shutdown || not (at_head now r control).requested)) [
    | inl off ↦ rw (on_time, off, run_rounds) (IsOver-paused none _)
    | inr go_on ↦
        ended (λ f c s. run_rounds-IsOver now limit mode f rs c s) r.outcome refl on_time go_on
  ]
]
  where
    batch : Control
    batch = after_batch now r (mark_running (at_head now r control))

    ended :
        ((f : ℕ) (c : Control) (s : State) → IsOver (run_rounds now limit mode f rs c s).0)
        → (o : Outcome) → r.outcome ≡ o
        → r.early ≡ none
        → (r.shutdown || not (at_head now r control).requested) ≡ false
        → IsOver (run_rounds now limit mode failures (r ∷ rs) control state).0
    ended ih (interrupted stop counts) e t h = rw (t, h, e, run_rounds) (IsOver-broken_off stop _)
    ended ih (done scanned processed true) e t h = rw (t, h, e, run_rounds) (IsOver-completed _)
    ended ih (done scanned processed false) e t h = elim (Option-cases r.wait_stop) [
      | inr (stop, cut) ↦ rw (t, h, e, cut, run_rounds) (IsOver-broken_off stop _)
      | inl calm ↦ elim (Bool-cases (r.waited && (add_counts scanned processed batch).requested)) [
        | inl full ↦ rw (t, h, e, calm, full, run_rounds) (ih 0 _ state)
        | inr cut ↦ rw (t, h, e, calm, cut, run_rounds) (IsOver-paused none _)
      ]
    ]
    ended ih (broken code retryable entered) e t h =
        elim (Bool-cases (not (is_retryable code retryable) || ltb limit (failures + 1))) [
          | inl final ↦ rw (t, h, e, final, run_rounds) (IsOver-failure code _)
          | inr again ↦ elim (Option-cases r.wait_stop) [
            | inr (stop, cut) ↦ rw (t, h, e, again, cut, run_rounds) (IsOver-broken_off stop _)
            | inl calm ↦ elim (Bool-cases (r.waited && (wait_for_retry code batch).requested)) [
              | inl full ↦ rw (t, h, e, again, calm, full, run_rounds) (ih (failures + 1) _ _)
              | inr cut ↦ rw (t, h, e, again, calm, cut, run_rounds) (IsOver-paused none _)
            ]
          ]
        ]

-- However its batches end, whatever pauses come before, during and between them, and whether the run
-- is cancelled or left by an exception before a batch, in it or in the pause after it: the run ends
-- at rest. The request is withdrawn, the
-- status is paused, completed or failed, one that is completed has no error code and one that has
-- failed has one.
pub run_request-IsOver :
    (env : Env) (rounds : List Round) (control : Control) (state : State)
    → IsOver (run_request env rounds control state).0
unfolding run_request
run_request-IsOver env rounds control state = elim (Bool-cases env.is_taken) [
  | inl taken ↦ rw (taken, run_request) (IsOver-paused _ control)
  | inr free ↦ elim (Option-cases env.early) [
    | inr (stop, early) ↦ rw (free, early, run_request) (IsOver-broken_off stop control)
    | inl on_time ↦ elim (Bool-cases (env.shutdown || not control.requested)) [
      | inl off ↦ rw (free, on_time, off, run_request) (IsOver-paused none control)
      | inr on ↦
          prepared (prepare env.now env.top env.last control.mode state control) refl free on_time
            on
    ]
  ]
]
  where
    prepared :
        (p : Result Error (Bool × State × Control))
        → prepare env.now env.top env.last control.mode state control ≡ p
        → env.is_taken ≡ false
        → env.early ≡ none
        → (env.shutdown || not control.requested) ≡ false
        → IsOver (run_request env rounds control state).0
    prepared (err e) p free t on =
        rw (free, t, on, p, run_request) (IsOver-broken_off raised control)
    prepared (ok (false, s, c)) p free t on = rw (free, t, on, p, run_request) (IsOver-completed c)
    prepared (ok (true, s, c)) p free t on =
        rw (free, t, on, p, run_request)
          (run_rounds-IsOver env.now env.retry_limit control.mode 0 rounds c s)
