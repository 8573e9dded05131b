-- ===== src/Admission/Laws.antt =====
-- product_analytics_runtime.py: the counters are true, and one task at most is admitted.
use sales_journal.Prelude.{
  Bool, Bool-cases, List, Option, Option-cases, [], arith, false, if◌then◌else◌, inl, inr, leb,
  none, not, refl, some, some_inj, sym, tally, true, ℕ, ◌+◌, ◌∙◌, ◌∷◌, ◌≡◌, ◌≤◌,
}
use sales_journal.Admission.{
  queued, locked, empty, enter, acquire, has_headroom, admit, max_waiters, max_waiters, Stage,
  admitted, Task, Loop, is_admitted, holds_lock, find_task, move_task, drop_task, leave,
}

-- How many tasks are admitted, hold the lock, or wait.
pub admitted_count : List Task → ℕ
admitted_count = tally (λ t. is_admitted t.stage)

pub holder_count : List Task → ℕ
holder_count = tally (λ t. holds_lock t.stage)

pub waiting_count : List Task → ℕ
waiting_count = tally (λ t. not (is_admitted t.stage))

abbrev flag : Bool → ℕ
flag b = if b then 1 else 0

-- The counters count, the queue is bounded, and the lock has one holder while it is taken.
pub record IsTrue (l : Loop) : Type 0 where
  pub counts_waiters : l.waiters ≡ waiting_count l.tasks
  pub counts_active : l.active ≡ admitted_count l.tasks
  pub one_holder : holder_count l.tasks ≡ flag l.is_locked
  pub bounded : l.waiters ≤ max_waiters

move_counts :
    (id : ℕ) (old new : Stage) (ts : List Task)
    → find_task id ts ≡ some old
    → (admitted_count (move_task id new ts) + flag (is_admitted old)
        ≡ admitted_count ts + flag (is_admitted new))
      × (holder_count (move_task id new ts) + flag (holds_lock old)
          ≡ holder_count ts + flag (holds_lock new))
      × (waiting_count (move_task id new ts) + flag (not (is_admitted old))
          ≡ waiting_count ts + flag (not (is_admitted new)))
unfolding admitted_count holder_count waiting_count find_task move_task
move_counts id old new [] h = cc
move_counts id old new (t ∷ ts) h = ground (arith, move_counts id old new ts)

drop_counts :
    (id : ℕ) (old : Stage) (ts : List Task)
    → find_task id ts ≡ some old
    → (admitted_count (drop_task id ts) + flag (is_admitted old) ≡ admitted_count ts)
      × (holder_count (drop_task id ts) + flag (holds_lock old) ≡ holder_count ts)
      × (waiting_count (drop_task id ts) + flag (not (is_admitted old)) ≡ waiting_count ts)
unfolding admitted_count holder_count waiting_count find_task drop_task
drop_counts id old [] h = cc
drop_counts id old (t ∷ ts) h = ground (arith, drop_counts id old ts)

-- Admitted tasks hold the lock.
admitted_holds : (ts : List Task) → admitted_count ts ≤ holder_count ts
unfolding admitted_count holder_count is_admitted holds_lock
admitted_holds [] = omega arith
admitted_holds (t ∷ ts) = ground (arith, admitted_holds ts)

find_admitted : (id : ℕ) (ts : List Task) → find_task id ts ≡ some admitted → 1 ≤ admitted_count ts
unfolding admitted_count find_task is_admitted
find_admitted id [] h = cc
find_admitted id (t ∷ ts) h = ground (arith, find_admitted id ts)

leave-IsTrue : (id : ℕ) (l : Loop) → IsTrue l → IsTrue (leave id l)
unfolding leave is_admitted holds_lock
leave-IsTrue id l t = elim (Option-cases (find_task id l.tasks)) [
  | inl gone ↦ rw (gone, leave) t
  | inr (stage, there) ↦
      let counts = drop_counts id stage l.tasks there in
      let order = admitted_holds (drop_task id l.tasks) in
      rw (there, leave)
        (record {
          counts_waiters = ground (arith, counts, t.counts_waiters);
          counts_active = ground (arith, counts, order, t.counts_active, t.one_holder);
          one_holder = ground (arith, counts, t.one_holder);
          bounded = ground (arith, t.bounded);
        })
]

enter-IsTrue : (id : ℕ) (l l' : Loop) → enter id l ≡ some l' → IsTrue l → IsTrue l'
unfolding enter admitted_count holder_count waiting_count is_admitted holds_lock
enter-IsTrue id l l' h t = elim (Option-cases (find_task id l.tasks)) [
  | inr (stage, there) ↦ rw (← some_inj (rw (there, enter) at h)) t
  | inl new_one ↦ elim (Bool-cases (leb max_waiters l.waiters)) [
    | inl full ↦ cc (rw (new_one, full, enter) at h)
    | inr room ↦ rw (← some_inj (rw (new_one, room, enter) at h)) (record {
      counts_waiters = ground (arith, t.counts_waiters);
      counts_active = t.counts_active;
      one_holder = t.one_holder;
      bounded = ground arith;
    })
  ]
]

acquire_taken :
    (id : ℕ) (l : Loop) → find_task id l.tasks ≡ some queued → l.is_locked ≡ true → acquire id l ≡ l
unfolding acquire
acquire_taken id l e taken = ground arith

acquire-IsTrue : (id : ℕ) (l : Loop) → IsTrue l → IsTrue (acquire id l)
unfolding acquire is_admitted holds_lock
acquire-IsTrue id l t = by_stage (find_task id l.tasks) refl
  where
    by_stage : (o : Option Stage) → find_task id l.tasks ≡ o → IsTrue (acquire id l)
    by_stage none e = rw (e, acquire) t
    by_stage (some locked) e = rw (e, acquire) t
    by_stage (some admitted) e = rw (e, acquire) t
    by_stage (some queued) e = elim (Bool-cases l.is_locked) [
      | inl taken ↦ rw (acquire_taken id l e taken) t
      | inr free ↦
          let counts = move_counts id queued locked l.tasks e in
          rw (e, free, acquire)
            (record {
              counts_waiters = ground (arith, counts, t.counts_waiters);
              counts_active = ground (arith, counts, t.counts_active);
              one_holder = ground (arith, counts, t.one_holder);
              bounded = t.bounded;
            })
    ]

admit-IsTrue : (available : Option ℕ) (id : ℕ) (l : Loop) → IsTrue l → IsTrue (admit available id l)
unfolding admit is_admitted holds_lock
admit-IsTrue available id l t = by_stage (find_task id l.tasks) refl
  where
    by_stage : (o : Option Stage) → find_task id l.tasks ≡ o → IsTrue (admit available id l)
    by_stage none e = rw (e, admit) t
    by_stage (some queued) e = rw (e, admit) t
    by_stage (some admitted) e = rw (e, admit) t
    by_stage (some locked) e = elim (Bool-cases (has_headroom available)) [
      | inr short ↦ rw (e, short, admit) (leave-IsTrue id l t)
      | inl fine ↦
          let counts = move_counts id locked admitted l.tasks e in
          let order = admitted_holds (move_task id admitted l.tasks) in
          rw (e, fine, admit)
            (record {
              counts_waiters = ground (arith, counts, t.counts_waiters);
              counts_active = ground (arith, counts, order, t.counts_active, t.one_holder);
              one_holder = ground (arith, counts, t.one_holder);
              bounded = ground (arith, t.bounded);
            })
    ]

-- One step of one task.
pub data Step (l : Loop) : Loop → Type 0 where
  entered : (id : ℕ) {to : Loop} → enter id l ≡ some to → Step l to
  acquired : (id : ℕ) → Step l (acquire id l)
  tried : (available : Option ℕ) (id : ℕ) → Step l (admit available id l)
  left : (id : ℕ) → Step l (leave id l)

pub data Reach (l : Loop) : Loop → Type 0 where
  here : Reach l l
  next : {via to : Loop} → Reach l via → Step via to → Reach l to

Reach-kept : {l to : Loop} → IsTrue l → Reach l to → IsTrue to
Reach-kept t here = t
Reach-kept t (next r (entered id h)) = enter-IsTrue id _ _ h (Reach-kept t r)
Reach-kept t (next r (acquired id)) = acquire-IsTrue id _ (Reach-kept t r)
Reach-kept t (next r (tried available id)) = admit-IsTrue available id _ (Reach-kept t r)
Reach-kept t (next r (left id)) = leave-IsTrue id _ (Reach-kept t r)

empty-IsTrue : IsTrue empty
unfolding admitted_count holder_count waiting_count
empty-IsTrue = record {
  counts_waiters = refl;
  counts_active = refl;
  one_holder = refl;
  bounded = omega arith;
}

-- However the steps of tasks follow one another from an empty loop, by refusals, timeouts and want of
-- memory too: the counters count the tasks that wait and the admitted ones, no more than eight wait,
-- the lock has one holder while it is taken, and one task at most is admitted.
pub Reach-IsTrue :
    {l : Loop}
    → Reach empty l
    → IsTrue l × (l.waiters ≤ 8) × (admitted_count l.tasks ≤ 1) × (l.active ≤ 1)
Reach-IsTrue {l} r =
    let t = Reach-kept empty-IsTrue r in
    let order = admitted_holds l.tasks in
    (
      t,
      t.bounded,
      ground (arith, order, t.one_holder),
      ground (arith, order, t.one_holder, t.counts_active),
    )

-- Nothing leaks: once every task has left, the queue is empty, nothing is active and the lock is free.
pub Reach-drained :
    {l : Loop}
    → Reach empty l
    → l.tasks ≡ []
    → (l.waiters ≡ 0) × (l.active ≡ 0) × (l.is_locked ≡ false)
unfolding admitted_count holder_count waiting_count
Reach-drained {l} r gone =
    let t = Reach-kept empty-IsTrue r in
    (
      t.counts_waiters ∙ rw gone refl,
      t.counts_active ∙ rw gone refl,
      unlocked l.is_locked (sym t.one_holder ∙ rw gone refl),
    )
  where
    unlocked : (b : Bool) → flag b ≡ 0 → b ≡ false
    unlocked b h = ground arith
