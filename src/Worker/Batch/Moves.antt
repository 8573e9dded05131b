-- ===== src/Worker/Batch/Moves.antt =====
-- analytics_signal_worker.py: the state machine that batches implement.
use sales_journal.Prelude.{
  Bool-cases, List, Option, Option-cases, Result, String, [], ap, arith, false, if◌then◌else◌, inl,
  inr, is_some, leb, none, not, ok, ok_inj, or_else, refl, some, true, ℕ, ◌&&◌, ◌++◌, ◌==◌, ◌∙◌,
  ◌∷◌, ◌≡◌, ◌≤◌, ◌⊎◌,
}
use sales_journal.Source.{SourceDecision}
use sales_journal.Worker.Rows.{find_run_id, find_run-append_new}
use sales_journal.Worker.{
  is_same_run, candidate, is_reusable, begin_run, running, superseded, Scope, Run, State, World,
  Algorithm, find_run, find_active, save, is_open, is_succeeded, resume_blocker, supersede, Inputs,
  incompatible, against_published, object, new_run,
}
use sales_journal.Worker.Batch.{
  disabled, Error, run_batch, batch, start, advance, work, give_up, resume, Answer,
}

-- The run that is active, open and of the id given.
pub record Active (c : State) (rs : List Run) (k : String) (a : Run) : Type 0 where
  pub named : c.active_run_id ≡ some k
  pub found : find_run k rs ≡ some a
  pub is_open_now : is_open a.status ≡ true

-- What work on a run leaves alone besides its id and its day.
abbrev pub IsFrozen : Run → Run → Type 0
IsFrozen a run =
    (run.source_revision ≡ a.source_revision)
    × (run.upper_sale_id ≡ a.upper_sale_id)
    × (run.metadata ≡ a.metadata)

-- One move of the machine.
pub data Move (c : State) (rs : List Run) : State → List Run → Type 0 where
  ended :
      (k : String) (a run : Run) (now : ℕ) (reason : String)
      → Active c rs k a
      → run.id ≡ k
      → run ≡ record a {
        status = superseded;
        error_code = some reason;
        finished_at = some now;
        heartbeat_at = now;
      }
      → Move c rs (record c { active_run_id = none }) (save run rs)
  worked :
      (k : String) (a run : Run)
      → Active c rs k a
      → run.id ≡ k
      → run.as_of ≡ a.as_of
      → IsFrozen a run
      → is_open run.status ≡ true
      → Move c rs c (save run rs)
  published :
      (k : String) (a run : Run)
      → Active c rs k a
      → run.id ≡ k
      → run.as_of ≡ a.as_of
      → IsFrozen a run
      → is_succeeded run.status ≡ true
      → run.finished_at ≡ some run.heartbeat_at
      → Move c rs (record c { published_run_id = some run.id; active_run_id = none }) (save run rs)
  opened :
      (run : Run)
      → find_run run.id rs ≡ none
      → (is_open run.status ≡ true
          → (q : Run) → find_active c.published_run_id rs ≡ some q
          → q.as_of ≤ run.as_of)
      → Move c rs (record c { active_run_id = some run.id }) (rs ++ run ∷ [])

pub data Moves (c : State) (rs : List Run) : State → List Run → Type 0 where
  stay : Moves c rs c rs
  go :
      {via to : State} {between after : List Run}
      → Moves c rs via between
      → Move via between to after
      → Moves c rs to after

-- The world after some moves from a control row and its runs.
abbrev pub Reached : State → List Run → World → Type 0
Reached c rs world = (c' : State) × (world.control ≡ some c') × Moves c rs c' world.runs

-- A decision that allows a calculation has a day.
abbrev pub IsDated : SourceDecision → Type 0
IsDated d = d.shadow_allowed ≡ true → is_some d.effective_as_of ≡ true

advance_lem :
    (input : Inputs) (run : Run)
    → is_open run.status ≡ true
    → ((advance input run).id ≡ run.id)
      × ((advance input run).as_of ≡ run.as_of)
      × IsFrozen run (advance input run)
      × (((is_succeeded (advance input run).status ≡ true)
            × ((advance input run).finished_at ≡ some input.now))
          ⊎ ((is_succeeded (advance input run).status ≡ false)
              × (is_open (advance input run).status ≡ true)))
unfolding advance is_open is_succeeded
advance_lem input run o =
    (ground arith, ground arith, (ground arith, ground arith, ground arith), ground arith)

work-Moves :
    (input : Inputs) (c c0 : State) (rs rs0 : List Run) (run a : Run) (k : String)
    → Moves c0 rs0 c rs
    → Active c rs k a
    → run.id ≡ k
    → run.as_of ≡ a.as_of
    → IsFrozen a run
    → is_open run.status ≡ true
    → Reached c0 rs0 (work input c rs run).1
unfolding work
work-Moves input c c0 rs rs0 run a k before active same day (source, upper, data') o =
    let (ids, days, (source', upper', kept), how) = advance_lem input run o in
    elim how [
      | inl (done, at_end) ↦ (
        record c { published_run_id = some (advance input run).id; active_run_id = none },
        rw (done, work) refl,
        go before (
            published k a (record (advance input run) { heartbeat_at = input.now }) active
              (ids ∙ same) (days ∙ day) (source' ∙ source, upper' ∙ upper, kept ∙ data') done
              at_end),
      )
      | inr (undone, still) ↦ (
        c,
        rw (undone, work) refl,
        go before (
            worked k a (record (advance input run) { heartbeat_at = input.now }) active (ids ∙ same)
              (days ∙ day) (source' ∙ source, upper' ∙ upper, kept ∙ data') still),
      )
    ]

against_dated :
    (q : Run) (scope : Scope) (d : SourceDecision) (x : ℕ)
    → IsDated d
    → (against_published (some q) scope d).shadow_allowed ≡ true
    → q.as_of ≤ or_else x (against_published (some q) scope d).effective_as_of
unfolding against_published object
against_dated q scope d x dated h = ground arith

module _ (algorithm : Scope → Algorithm) where
  resume_moves :
      (input : Inputs) (c : State) (rs : List Run) (a : Run) (k : String) (answer : Answer)
      (world : World)
      → Active c rs k a
      → a.id ≡ k
      → resume algorithm input c rs a ≡ ok (answer, world)
      → Reached c rs world
  unfolding resume give_up supersede is_open
  resume_moves input c rs a k answer world active same h =
      elim (Option-cases (incompatible algorithm a)) [
        | inr (reason, bad) ↦
            let e : give_up input c rs a reason ≡ (answer, world) =
              ok_inj (rw (bad, resume) at h) in
            rw (← ap (λ (x : Answer × World). x.1) e) (ends reason)
        | inl fine ↦
            elim (Bool-cases (
              not (
                a.metadata.source_decision.requested_as_of
                == or_else a.metadata.source_decision.requested_as_of input.as_of))) [
                  | inl differs ↦ cc (rw (fine, differs, resume) at h)
                  | inr agrees ↦
                      elim (Option-cases (
                        resume_blocker a
                          (input.context
                            (or_else a.metadata.source_decision.requested_as_of input.as_of)).0
                          (input.context
                            (or_else a.metadata.source_decision.requested_as_of input.as_of)).1)) [
                              | inr (reason, bad) ↦
                                  let e : give_up input c rs a reason ≡ (answer, world) =
                                    ok_inj (rw (fine, agrees, bad, resume) at h) in
                                  rw (← ap (λ (x : Answer × World). x.1) e) (ends reason)
                              | inl free ↦
                                  let e : work input c rs
                                        (record a { status = running; error_code = none })
                                      ≡ (answer, world) =
                                    ok_inj (rw (fine, agrees, free, resume) at h) in
                                  rw (← ap (λ (x : Answer × World). x.1) e) (
                                    work-Moves input c c rs rs
                                      (record a { status = running; error_code = none }) a k stay
                                      active same refl (refl, refl, refl) (is_open_running))
                            ]
                ]
      ]
    where
      ends : (reason : String) → Reached c rs (give_up input c rs a reason).1
      ends reason = (
        record c { active_run_id = none },
        refl,
        go stay (ended k a (supersede input.now reason a) input.now reason active same refl),
      )

      is_open_running : is_open running ≡ true
      is_open_running = refl

  opened_run :
      (input : Inputs) (c : State) (rs : List Run) (d : SourceDecision) (scope : Scope)
      → find_run input.fresh_id rs ≡ none
      → IsDated d
      → let run =
          new_run algorithm input
            (against_published (find_active c.published_run_id rs) scope d)
            scope in
        Move c rs (record c { active_run_id = some run.id }) (rs ++ run ∷ [])
  unfolding new_run is_open
  opened_run input c rs d scope free dated =
      opened
        (new_run algorithm input (against_published (find_active c.published_run_id rs) scope d)
          scope)
        free λ o q p. follows (find_active c.published_run_id rs) q p o
    where
      follows :
          (previous : Option Run) (q : Run)
          → previous ≡ some q
          → is_open (new_run algorithm input (against_published previous scope d) scope).status
            ≡ true
          → q.as_of ≤ (new_run algorithm input (against_published previous scope d) scope).as_of
      follows previous q p o = rw p (against_dated q scope d _ dated (ground arith))

  new_run_status :
      (input : Inputs) (d : SourceDecision) (scope : Scope)
      → is_reusable (new_run algorithm input d scope).status ≡ false
      → is_open (new_run algorithm input d scope).status ≡ true
  unfolding new_run is_reusable is_open
  new_run_status input d scope h = ground arith

  is_same_run_reusable :
      (d : SourceDecision) (scope : Scope) (old : Run)
      → is_same_run algorithm d scope old ≡ true
      → is_reusable old.status ≡ true
  unfolding is_same_run
  is_same_run_reusable d scope old h = ground arith

  opened_moves :
      (input : Inputs) (c c' : State) (rs : List Run) (run : Run)
      → find_run run.id rs ≡ none
      → c'.active_run_id ≡ some run.id
      → Move c rs c' (rs ++ run ∷ [])
      → (is_reusable run.status ≡ false → is_open run.status ≡ true)
      → Reached c rs
          (if is_reusable run.status
            then (Answer.stopped run, record { control = some c'; runs = rs ++ run ∷ [] })
            else work input c' (rs ++ run ∷ []) run).1
  opened_moves input c c' rs run free named move still =
      elim (Bool-cases (is_reusable run.status)) [
        | inl reusable ↦ rw reusable (c', refl, go stay move)
        | inr other ↦ rw other (
            work-Moves input c' c (rs ++ run ∷ []) rs run run run.id (go stay move)
              (record {
                named = named;
                found = find_run-append_new run rs free;
                is_open_now = still other;
              })
              refl refl (refl, refl, refl) (still other))
      ]

  -- A candidate for reuse is never open.
  start_moves :
      (input : Inputs) (c : State) (rs : List Run)
      → find_run input.fresh_id rs ≡ none
      → ((day : ℕ) → IsDated (input.context day).0)
      → Reached c rs (start algorithm input c rs).1
  unfolding start begin_run new_run
  start_moves input c rs free dated = from (candidate algorithm c rs) refl
    where
      d : SourceDecision
      d = (input.context (or_else input.closed input.as_of)).0

      scope : Scope
      scope = (input.context (or_else input.closed input.as_of)).1

      found : SourceDecision
      found = against_published (find_active c.published_run_id rs) scope d

      run : Run
      run = new_run algorithm input found scope

      fresh_world :
          Reached c rs
            (let c' : State = record c { active_run_id = some run.id } in
              if is_reusable run.status
              then (Answer.stopped run, record { control = some c'; runs = rs ++ run ∷ [] })
              else work input c' (rs ++ run ∷ []) run).1
      fresh_world =
          opened_moves input c (record c { active_run_id = some run.id }) rs run free refl
            (opened_run input c rs d scope free (dated (or_else input.closed input.as_of)))
            (new_run_status input found scope)

      from :
          (o : Option Run)
          → candidate algorithm c rs ≡ o
          → Reached c rs (start algorithm input c rs).1
      from none e = rw (e, start, begin_run) fresh_world
      from (some old) e = elim (Bool-cases (is_same_run algorithm found scope old)) [
        | inr other ↦ rw (e, other, start, begin_run) fresh_world
        | inl same ↦
            rw (e, same, is_same_run_reusable found scope old same, start, begin_run)
              (c, refl, stay)
      ]

  batch_moves :
      (input : Inputs) (c : State) (rs : List Run) (answer : Answer) (world : World)
      → find_run input.fresh_id rs ≡ none
      → ((day : ℕ) → IsDated (input.context day).0)
      → batch algorithm input c rs ≡ ok (answer, world)
      → Reached c rs world
  unfolding batch find_active
  batch_moves input c rs answer world free dated h =
      elim (Option-cases (find_active c.active_run_id rs)) [
        | inl nothing ↦ started (rw (nothing, batch) at h)
        | inr (a, there) ↦ elim (Bool-cases (is_open a.status)) [
          | inr closed ↦ started (rw (there, closed, batch) at h)
          | inl is_open_now ↦
              named c.active_run_id refl a there is_open_now (rw (there, is_open_now, batch) at h)
        ]
      ]
    where
      started :
          Path
            (Result Error (Answer × World))
            (ok (start algorithm input c rs))
            (ok (answer, world))
          → Reached c rs world
      started e =
          rw (← ap (λ (x : Answer × World). x.1) (ok_inj e)) (start_moves input c rs free dated)

      named :
          (active : Option String)
          → c.active_run_id ≡ active
          → (a : Run) → find_active c.active_run_id rs ≡ some a
          → is_open a.status ≡ true
          → resume algorithm input c rs a ≡ ok (answer, world)
          → Reached c rs world
      named none e a there o done = cc (rw e at there)
      named (some k) e a there o done =
          let found : find_run k rs ≡ some a = rw e at there in
          resume_moves input c rs a k answer world
            (record { named = e; found = found; is_open_now = o }) (find_run_id k rs {r = a} found)
            done

  pub run_batch_moves :
      (input : Inputs) (c : State) (rs : List Run) (answer : Answer) (world : World)
      → find_run input.fresh_id rs ≡ none
      → ((day : ℕ) → IsDated (input.context day).0)
      → run_batch algorithm input (record { control = some c; runs = rs }) ≡ ok (answer, world)
      → Reached c rs world
  unfolding run_batch
  run_batch_moves input c rs answer world free dated h =
      elim (Bool-cases (
        not (
          leb 1 input.scan_size
          && leb input.scan_size 5000
          && leb 1 input.client_size
          && leb input.client_size 1000))) [
            | inl bad ↦ cc (rw (bad, run_batch) at h)
            | inr fits ↦ elim (Bool-cases (not input.configuration_enabled)) [
              | inl off ↦ idle (rw (fits, off, run_batch) at h)
              | inr on ↦ elim (Bool-cases (not c.enabled)) [
                | inl off ↦ idle (rw (fits, on, off, run_batch) at h)
                | inr ready ↦
                    batch_moves input c rs answer world free dated
                      (rw (fits, on, ready, run_batch) at h)
              ]
            ]
          ]
    where
      idle :
          Path
            (Result Error (Answer × World))
            (ok (disabled, record { control = some c; runs = rs }))
            (ok (answer, world))
          → Reached c rs world
      idle e = rw (← ap (λ (x : Answer × World). x.1) (ok_inj e)) (c, refl, stay)
