-- ===== src/Admission.antt =====
-- backend/app/services/product_analytics_runtime.py: `heavy_operation`, the queue before heavy reports,
-- in one event loop. A task is named by a number; between two steps of a task other tasks may run.
use sales_journal.Prelude.{
  Bool, List, Option, [], false, if◌then◌else◌, leb, none, some, true, ℕ, ◌+◌, ◌-◌, ◌==◌, ◌∷◌,
}
pub mod Laws
mod Tests

abbrev pub max_waiters : ℕ
max_waiters = 8

-- MIN_AVAILABLE_BYTES
abbrev pub min_available : ℕ
min_available = 268435456

-- How far a task has come: it waits for the lock of the loop, it holds it and waits for the lock of
-- the file, or it is admitted.
pub data Stage : Type 0 where
  queued locked admitted : Stage

pub record Task : Type 0 where
  pub id : ℕ
  pub stage : Stage

-- The state of the loop; `tasks` are the calls that are under way, as the interpreter keeps them.
pub record Loop : Type 0 where
  pub waiters : ℕ
  pub active : ℕ
  pub is_locked : Bool
  pub tasks : List Task

abbrev pub empty : Loop
empty = record { waiters = 0; active = 0; is_locked = false; tasks = [] }

pub is_admitted : Stage → Bool
is_admitted admitted = true
is_admitted _ = false

pub holds_lock : Stage → Bool
holds_lock queued = false
holds_lock _ = true

pub find_task : ℕ → List Task → Option Stage
find_task id [] = none
find_task id (t ∷ ts) = let rest = find_task id ts in if t.id == id then some t.stage else rest

pub move_task : ℕ → Stage → List Task → List Task
move_task id stage [] = []
move_task id stage (t ∷ ts) =
    let rest = move_task id stage ts in
    if t.id == id then record { id = id; stage = stage } ∷ ts else t ∷ rest

pub drop_task : ℕ → List Task → List Task
drop_task id [] = []
drop_task id (t ∷ ts) = let rest = drop_task id ts in if t.id == id then ts else t ∷ rest

-- The call: refused where the queue is full, and passed through where the task is the owner.
pub enter : ℕ → Loop → Option Loop
enter id l = elim (find_task id l.tasks) [
  | some _ ↦ some l
  | none ↦
      if leb max_waiters l.waiters
      then none
      else some (record l {
        waiters = l.waiters + 1;
        tasks = record { id = id; stage = queued } ∷ l.tasks;
      })
]

-- `state['lock'].acquire()`: a queued task gets the lock if it is free.
pub acquire : ℕ → Loop → Loop
acquire id l = elim (find_task id l.tasks) [
  | some queued ↦
      if l.is_locked then l else record l { is_locked = true; tasks = move_task id locked l.tasks }
  | _ ↦ l
]

-- The `finally` of a task: an admitted one leaves `active`, any other the queue; a holder of the lock
-- releases it.
pub leave : ℕ → Loop → Loop
leave id l = elim (find_task id l.tasks) [
  | none ↦ l
  | some stage ↦ record {
    waiters = if is_admitted stage then l.waiters else l.waiters - 1;
    active = if is_admitted stage then 0 else l.active;
    is_locked = if holds_lock stage then false else l.is_locked;
    tasks = drop_task id l.tasks;
  }
]

-- `ensure_headroom()` passes where nothing is known of the memory, or enough is left.
pub has_headroom : Option ℕ → Bool
has_headroom none = true
has_headroom (some available) = leb min_available available

-- After the lock of the file: the task is admitted, or leaves for want of memory.
pub admit : Option ℕ → ℕ → Loop → Loop
admit available id l = elim (find_task id l.tasks) [
  | some locked ↦
      if has_headroom available
      then record l { waiters = l.waiters - 1; active = 1; tasks = move_task id admitted l.tasks }
      else leave id l
  | _ ↦ l
]
