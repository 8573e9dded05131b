-- ===== src/Season/Laws.antt =====
-- backend/app/seasonality.py: failing calculations switch themselves off.
use sales_journal.Prelude.{
  All, Bool-cases, List, String, [], arith, false, inl, inr, is_some, not, refl, some, true, ℕ,
  ◌||◌, ◌∷◌, ◌≡◌, ◌≤◌,
}
use sales_journal.Season.{
  State, Outcome, busy, unavailable, broken, worked, Round, count_failure, run, Command, enable,
  pause, rebuild, run_now, scheduled, worker, is_due, wake, work, execute,
}

-- Three failures or more are never left switched on.
abbrev pub IsGuarded : State → Type 0
IsGuarded s = 3 ≤ s.failure_count → s.enabled ≡ false

-- The rows that batches leave are guarded, as those of services/seasonality_worker.py are, which set
-- the number of failures to 0.
abbrev pub LeavesGuarded : Round → Type 0
LeavesGuarded r = (after : State) → r.outcome ≡ worked after → IsGuarded after

count_failure-IsGuarded : (code : String) (s : State) → IsGuarded (count_failure code s)
unfolding count_failure
count_failure-IsGuarded code s = ground arith

run-IsGuarded :
    (rounds : List Round) (s : State)
    → All LeavesGuarded rounds
    → IsGuarded s
    → IsGuarded (run rounds s)
unfolding run
run-IsGuarded [] s leaves g = g
run-IsGuarded (r ∷ rs) s leaves g = elim (Bool-cases (r.stop || s.stop_requested)) [
  | inl stop ↦ rw (stop, run) g
  | inr go ↦ by_outcome (λ t h. run-IsGuarded rs t leaves.1 h) r.outcome refl go
]
  where
    by_outcome :
        ((t : State) → IsGuarded t → IsGuarded (run rs t))
        → (o : Outcome) → r.outcome ≡ o
        → (r.stop || s.stop_requested) ≡ false
        → IsGuarded (run (r ∷ rs) s)
    by_outcome ih busy e go = rw (go, e, run) g
    by_outcome ih unavailable e go = rw (go, e, run) (count_failure-IsGuarded _ s)
    by_outcome ih broken e go = rw (go, e, run) (count_failure-IsGuarded _ s)
    by_outcome ih (worked after) e go = elim (Bool-cases after.is_idle) [
      | inl idle ↦ rw (go, e, idle, run) (leaves.0 after e)
      | inr busy_still ↦ rw (go, e, busy_still, run) (ih after (leaves.0 after e))
    ]

wake-IsGuarded :
    (rounds : List Round) (s : State)
    → All LeavesGuarded rounds
    → IsGuarded s
    → IsGuarded (wake rounds s)
unfolding wake
wake-IsGuarded [] s leaves g = g
wake-IsGuarded (r ∷ rs) s leaves g =
    let one : IsGuarded (run (r ∷ []) s) = run-IsGuarded (r ∷ []) s (leaves.0, tt) g in
    elim (Bool-cases (r.stop || not s.enabled)) [
      | inl stop ↦ rw (stop, wake) g
      | inr go ↦
          elim (Bool-cases (is_some (run (r ∷ []) s).error_code || (run (r ∷ []) s).is_idle)) [
            | inl over ↦ rw (go, over, wake) one
            | inr more ↦ rw (go, more, wake) (wake-IsGuarded rs (run (r ∷ []) s) leaves.1 one)
          ]
    ]

work-IsGuarded :
    (today : ℕ) (polls : List (List Round)) (s : State)
    → All (λ rounds. All LeavesGuarded rounds) polls
    → IsGuarded s
    → IsGuarded (work today polls s)
unfolding work
work-IsGuarded today [] s leaves g = g
work-IsGuarded today (rounds ∷ polls) s leaves g = elim (Bool-cases (is_due today s)) [
  | inl due ↦
      rw (due, work)
        (work-IsGuarded today polls (wake rounds s) leaves.1 (wake-IsGuarded rounds s leaves.0 g))
  | inr idle ↦ rw (idle, work) (work-IsGuarded today polls s leaves.1 g)
]

abbrev pub AllGuarded : Command → Type 0
AllGuarded (run_now rounds) = All LeavesGuarded rounds
AllGuarded (scheduled rounds) = All LeavesGuarded rounds
AllGuarded (worker today polls) = All (λ rounds. All LeavesGuarded rounds) polls
AllGuarded _ = Unit

-- Every command keeps the rule that three failures or more are never left switched on, if the batches
-- keep it.
pub execute-IsGuarded :
    (command : Command) (s : State)
    → AllGuarded command
    → IsGuarded s
    → IsGuarded (execute command s)
unfolding execute
execute-IsGuarded enable s leaves g = λ h. absurd (omega arith)
execute-IsGuarded pause s leaves g = λ h. refl
execute-IsGuarded rebuild s leaves g = g
execute-IsGuarded (run_now rounds) s leaves g =
    run-IsGuarded rounds (record s { stop_requested = false }) leaves g
execute-IsGuarded (scheduled rounds) s leaves g =
    elim (Bool-cases (not s.enabled || s.stop_requested)) [
      | inl off ↦ rw (off, execute) g
      | inr on ↦ rw (on, execute) (run-IsGuarded rounds s leaves g)
    ]
execute-IsGuarded (worker today polls) s leaves g = work-IsGuarded today polls s leaves g

-- A scheduled run whose first batch breaks.
abbrev pub breaking : List Round → Command
breaking rest = scheduled (record { stop = false; outcome = broken } ∷ rest)

scheduled_breaks :
    (rest : List Round) (s : State)
    → s.enabled ≡ true
    → s.stop_requested ≡ false
    → execute (breaking rest) s ≡ count_failure "calculation_error" s
unfolding execute run
scheduled_breaks rest s e q = ground arith

-- The circuit breaker: after three scheduled runs that break at once, of an enabled row without
-- failures, the calculation is off, and no further scheduled run changes the row, whatever it would
-- do.
pub scheduled_thrice :
    (a b c more : List Round) (s : State)
    → s.enabled ≡ true
    → s.stop_requested ≡ false
    → s.failure_count ≡ 0
    → let after = execute (breaking c) (execute (breaking b) (execute (breaking a) s)) in
      (after.enabled ≡ false)
      × (after.failure_count ≡ 3)
      × (after.error_code ≡ some "calculation_error")
      × (execute (scheduled more) after ≡ after)
unfolding count_failure execute
scheduled_thrice a b c more s e q z =
    let one = scheduled_breaks a s e q in
    let s1 = count_failure "calculation_error" s in
    let two = scheduled_breaks b s1 (ground arith) q in
    let s2 = count_failure "calculation_error" s1 in
    let three = scheduled_breaks c s2 (ground arith) q in
    rw one (rw two (rw three (ground arith, ground arith, refl, ground arith)))
