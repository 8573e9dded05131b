-- ===== src/Worker/Batch/Laws.antt =====
-- analytics_signal_worker.py: what no batch and no failure undoes, and that publication goes forward.
use sales_journal.Prelude.{
  Bool-cases, List, Option, Option-cases, String, [], ap, arith, eq_iff, false, inl, inr, none, not,
  ok, refl, some, some_inj, sym, true, ℕ, ◌+◌, ◌==◌, ◌||◌, ◌∙◌, ◌∷◌, ◌≡◌, ◌≤◌, ◌⊎◌,
}
use sales_journal.Worker.{
  Inputs, Algorithm, World, save, Scope, Status, succeeded, Run, State, find_run, find_active,
  is_open, is_succeeded,
}
use sales_journal.Worker.Rows.{
  find_run_id, find_run-save, find_run-append, find_run-append_new, save_closed,
}
use sales_journal.Source.{ImportEvidence, resolve_stored_sales_source}
use sales_journal.Worker.{failed, same_text}
use sales_journal.Worker.Batch.{
  Reads, scoped, stored_source_context, Answer, run_batch, can_fail, fail_run, record_failure,
}
use sales_journal.Worker.Batch.Moves.{
  run_batch_moves, IsDated, Active, Move, ended, worked, published, opened, Moves, stay, go,
}

Move-keeps :
    {c c' : State} {rs rs' : List Run} (id : String) (r : Run)
    → Move c rs c' rs'
    → find_run id rs ≡ some r
    → is_open r.status ≡ false
    → find_run id rs' ≡ some r
Move-keeps {rs = rs} id r (ended k a run now reason active same row) there closed =
    save_closed id k run a r rs active.found active.is_open_now same there closed
Move-keeps {rs = rs} id r (worked k a run active same day frozen o) there closed =
    save_closed id k run a r rs active.found active.is_open_now same there closed
Move-keeps {rs = rs} id r (published k a run active same day frozen s at_end) there closed =
    save_closed id k run a r rs active.found active.is_open_now same there closed
Move-keeps {rs = rs} id r (opened run free order) there closed =
    find_run-append id rs (run ∷ []) {r = r} there

Moves-keeps :
    {c : State} {rs : List Run} {c' : State} {rs' : List Run} (id : String) (r : Run)
    → Moves c rs c' rs'
    → find_run id rs ≡ some r
    → is_open r.status ≡ false
    → find_run id rs' ≡ some r
Moves-keeps id r stay there closed = there
Moves-keeps id r (go before move) there closed =
    Move-keeps id r move (Moves-keeps id r before there closed) closed

-- The published run is there, it has succeeded, and the active one is not for an earlier day.
abbrev pub IsOrdered : State → List Run → Type 0
IsOrdered c rs =
    (p : String)
    → c.published_run_id ≡ some p
    → (q : Run) × (find_run p rs ≡ some q)
      × (q.status ≡ succeeded)
      × ((k : String) (a : Run) → Active c rs k a → q.as_of ≤ a.as_of)

succeeded_closed : (s : Status) → s ≡ succeeded → is_open s ≡ false
unfolding is_open
succeeded_closed s e = rw e refl

is_succeeded-eq : (s : Status) → is_succeeded s ≡ true → s ≡ succeeded
unfolding is_succeeded
is_succeeded-eq s h = ground arith

find_active-some :
    (c : State) (rs : List Run) (p : String)
    → c.published_run_id ≡ some p
    → find_active c.published_run_id rs ≡ find_run p rs
unfolding find_active
find_active-some c rs p e = rw e refl

Move-IsOrdered :
    {c c' : State} {rs rs' : List Run} → Move c rs c' rs' → IsOrdered c rs → IsOrdered c' rs'
Move-IsOrdered {c} {rs = rs} (ended k a run now reason active same row) ordered = λ p e.
    let (q, there, done, order) = ordered p e in
    (
      q,
      Move-keeps p q (ended k a run now reason active same row) there
          (succeeded_closed q.status done),
      done,
      λ k' a' other. cc (other.named),
    )
Move-IsOrdered {c} {rs = rs} (worked k a run active same day frozen o) ordered = λ p e.
    let (q, there, done, order) = ordered p e in
    (
      q,
      Move-keeps p q (worked k a run active same day frozen o) there
          (succeeded_closed q.status done),
      done,
      λ k' a' other.
          let ids : k' ≡ run.id = some_inj (sym other.named ∙ active.named) ∙ sym same in
          let it : run ≡ a' =
            some_inj
              (sym (find_run-save run rs {r = a} (rw same active.found)) ∙ rw ids at other.found) in
          rw (← it, day) (order k a active),
    )
Move-IsOrdered {c} {rs = rs} (published k a run active same day frozen s at_end) ordered = λ p e. (
  run,
  rw (← some_inj e) (find_run-save run rs {r = a} (rw same active.found)),
  is_succeeded-eq run.status s,
  λ k' a' other. cc (other.named),
)
Move-IsOrdered {c} {rs = rs} (opened run free order) ordered = λ p e.
    let (q, there, done, _) = ordered p e in
    (
      q,
      find_run-append p rs (run ∷ []) {r = q} there,
      done,
      λ k' a' other.
          let it : run ≡ a' =
            some_inj (
              sym (find_run-append_new run rs free) ∙ rw (← some_inj other.named) at other.found) in
          rw (← it) (order (rw it other.is_open_now) q (find_active-some c rs p e ∙ there)),
    )

-- The day of the published run; 0 where there is none.
pub published_day : State → List Run → ℕ
published_day c rs = elim (find_active c.published_run_id rs) [ none ↦ 0 | some q ↦ q.as_of ]

published_day_of :
    (c : State) (rs : List Run) (p : String) (q : Run)
    → c.published_run_id ≡ some p
    → find_run p rs ≡ some q
    → published_day c rs ≡ q.as_of
unfolding published_day find_active
published_day_of c rs p q e there = rw (e, there, published_day) refl

published_day-none :
    (c : State) (rs : List Run) → c.published_run_id ≡ none → published_day c rs ≡ 0
unfolding published_day find_active
published_day-none c rs e = rw (e, published_day) refl

-- Where the published run stays, so does its day.
same_day :
    {c c' : State} {rs rs' : List Run}
    → IsOrdered c rs
    → c'.published_run_id ≡ c.published_run_id
    → Move c rs c' rs'
    → published_day c rs ≤ published_day c' rs'
same_day {c} {c'} {rs} {rs'} ordered same move = elim (Option-cases c.published_run_id) [
  | inl never ↦ rw (published_day-none c rs never) (omega arith)
  | inr (p, e) ↦
      let (q, there, done, order) = ordered p e in
      let still = Move-keeps p q move there (succeeded_closed q.status done) in
      rw (published_day_of c rs p q e there, published_day_of c' rs' p q (same ∙ e) still)
        (omega arith)
]

Move-forward :
    {c c' : State} {rs rs' : List Run}
    → Move c rs c' rs'
    → IsOrdered c rs
    → published_day c rs ≤ published_day c' rs'
Move-forward (ended k a run now reason active same row) ordered =
    same_day ordered refl (ended k a run now reason active same row)
Move-forward (worked k a run active same day frozen o) ordered =
    same_day ordered refl (worked k a run active same day frozen o)
Move-forward (opened run free order) ordered = same_day ordered refl (opened run free order)
Move-forward {c} {rs = rs} (published k a run active same day frozen s at_end) ordered =
    let there : find_run run.id (save run rs) ≡ some run =
      find_run-save run rs {r = a} (rw same active.found) in
    rw
      (published_day_of (record c { published_run_id = some run.id; active_run_id = none })
        (save run rs) run.id run refl there)
      (elim (Option-cases c.published_run_id) [
        | inl never ↦ rw (published_day-none c rs never) (omega arith)
        | inr (p, e) ↦
            let (q, found, done, order) = ordered p e in
            rw (published_day_of c rs p q e found, day) (order k a active)
      ])

Moves-forward :
    {c : State} {rs : List Run} {c' : State} {rs' : List Run}
    → Moves c rs c' rs'
    → IsOrdered c rs
    → IsOrdered c' rs' × (published_day c rs ≤ published_day c' rs')
Moves-forward stay ordered = (ordered, omega arith)
Moves-forward (go before move) ordered =
    let so_far = Moves-forward before ordered in
    (Move-IsOrdered move so_far.0, omega (arith, so_far.1, Move-forward move so_far.0))

-- A decision on stored sales that allows a calculation has a day.
pub stored_source_context-IsDated :
    (print : List ImportEvidence → String) (stored_print : ℕ → ℕ → String) (reads : Reads) (day : ℕ)
    → IsDated (stored_source_context print stored_print reads day).0
unfolding stored_source_context scoped resolve_stored_sales_source
stored_source_context-IsDated print stored_print reads day h = ground arith

module _ (algorithm : Scope → Algorithm) where
  -- A batch that returns moves publication forward only: if the published run is there, has succeeded
  -- and is not for a later day than the active one, the same holds afterwards, and the day of the
  -- published run is no earlier. The id of a new run has to be new, and a decision that allows a
  -- calculation to have a day, as those on stored sales do.
  pub run_batch-IsOrdered :
      (input : Inputs) (c : State) (rs : List Run) (answer : Answer) (world : World)
      → find_run input.fresh_id rs ≡ none
      → ((day : ℕ) → IsDated (input.context day).0)
      → IsOrdered c rs
      → run_batch algorithm input (record { control = some c; runs = rs }) ≡ ok (answer, world)
      → (c' : State) × (world.control ≡ some c')
        × IsOrdered c' world.runs
        × (published_day c rs ≤ published_day c' world.runs)
  run_batch-IsOrdered input c rs answer world free dated ordered h =
      let (c', there, moves) = run_batch_moves algorithm input c rs answer world free dated h in
      let m = Moves-forward moves ordered in (c', there, m.0, m.1)

  -- A run that is not open, being blocked, superseded or successful, is never changed again: a batch
  -- that returns leaves it in the table as it is. The id of a new run has to be new, and a decision
  -- that allows a calculation to have a day.
  pub run_batch-keeps :
      (input : Inputs) (c : State) (rs : List Run) (answer : Answer) (world : World) (id : String)
      (r : Run)
      → find_run input.fresh_id rs ≡ none
      → ((day : ℕ) → IsDated (input.context day).0)
      → run_batch algorithm input (record { control = some c; runs = rs }) ≡ ok (answer, world)
      → find_run id rs ≡ some r
      → is_open r.status ≡ false
      → find_run id world.runs ≡ some r
  run_batch-keeps input c rs answer world id r free dated h there closed =
      Moves-keeps id r (run_batch_moves algorithm input c rs answer world free dated h).2 there
        closed

-- What a recorded failure was about.
abbrev pub Marked : Option String → Option ℕ → World → World → Type 0
Marked id beat world after =
    (c : State) × (k : String) × (a : Run) × (run : Run) × (world.control ≡ some c)
    × (c.enabled ≡ true)
    × (id ≡ some k)
    × Active c world.runs k a
    × (beat ≡ some a.heartbeat_at)
    × (after ≡ record world { runs = save run world.runs })
    × Move c world.runs c after.runs

can_fail_open : (s : Status) → can_fail s ≡ true → is_open s ≡ true
unfolding is_open can_fail
can_fail_open s h = ground arith

same_text-eq : (a : Option String) (k : String) → same_text a (some k) ≡ true → a ≡ some k
unfolding same_text
same_text-eq none k h = cc
same_text-eq (some s) k h = ap (λ (t : String). some t) ((eq_iff s k).0 h)

fail_run_lem :
    (c : State) (code : String) (id : Option String) (beat : Option ℕ) (now : ℕ) (world : World)
    → world.control ≡ some c
    → (fail_run c code id beat now world ≡ (false, world))
      ⊎ (((fail_run c code id beat now world).0 ≡ true)
          × Marked id beat world (fail_run c code id beat now world).1)
unfolding fail_run is_open
fail_run_lem c code none beat now world there = inl refl
fail_run_lem c code (some k) none now world there = inl refl
fail_run_lem c code (some k) (some beat) now world there =
    elim (Bool-cases (not (same_text c.active_run_id (some k)))) [
      | inl other ↦ inl (rw (other, fail_run) refl)
      | inr same ↦ elim (Option-cases (find_run k world.runs)) [
        | inl gone ↦ inl (rw (same, gone, fail_run) refl)
        | inr (a, found) ↦
            elim (Bool-cases
              (not (can_fail a.status) || not c.enabled || not (a.heartbeat_at == beat))) [
                | inl late ↦ inl (rw (same, found, late, fail_run) refl)
                | inr fits ↦
                    let run : Run = record a {
                      status = failed;
                      error_code = some code;
                      error_count = a.error_count + 1;
                      heartbeat_at = now;
                    } in
                    let active : Active c world.runs k a = record {
                      named = same_text-eq c.active_run_id k (ground arith);
                      found = found;
                      is_open_now = can_fail_open a.status (ground arith);
                    } in
                    inr (
                      rw (same, found, fits, fail_run) refl,
                      (
                        c,
                        k,
                        a,
                        run,
                        there,
                        ground arith,
                        refl,
                        active,
                        ground arith,
                        rw (same, found, fits, fail_run) refl,
                        rw (same, found, fits, fail_run)
                            (worked k a run active (find_run_id k world.runs {r = a} found) refl
                              (refl, refl, refl) refl),
                      ),
                    )
              ]
      ]
    ]

record_failure-none :
    (code : String) (id : Option String) (beat : Option ℕ) (now : ℕ) (world : World)
    → world.control ≡ none
    → record_failure code id beat now world ≡ (false, world)
unfolding record_failure
record_failure-none code id beat now world h = ground arith

record_failure-some :
    (c : State) (code : String) (id : Option String) (beat : Option ℕ) (now : ℕ) (world : World)
    → world.control ≡ some c
    → record_failure code id beat now world ≡ fail_run c code id beat now world
unfolding record_failure
record_failure-some c code id beat now world h = ground arith

-- A late failure marks nothing but the active run at the heartbeat that it saw: either nothing
-- changes and false is returned, or that run was active, open and unchanged since, the worker is
-- enabled, and its row alone is written, which is one move of the machine.
pub record_failure-guarded :
    (code : String) (id : Option String) (beat : Option ℕ) (now : ℕ) (world : World)
    → (record_failure code id beat now world ≡ (false, world))
      ⊎ (((record_failure code id beat now world).0 ≡ true)
          × Marked id beat world (record_failure code id beat now world).1)
record_failure-guarded code id beat now world = elim (Option-cases world.control) [
  | inl none_there ↦ inl (record_failure-none code id beat now world none_there)
  | inr (c, there) ↦
      rw (record_failure-some c code id beat now world there)
        (fail_run_lem c code id beat now world there)
]
