-- ===== src/Admission/Tests.antt =====
-- product_analytics_runtime.py: one report.
use sales_journal.Prelude.{[], false, none, refl, some, ◌∷◌, ◌≡◌, ◌≤◌}
use sales_journal.Admission.{
  Loop, empty, queued, find_task, enter, acquire, admit, leave, move_task, drop_task, has_headroom,
  is_admitted, holds_lock,
}
use sales_journal.Admission.Laws.{
  IsTrue, here, next, entered, acquired, tried, admitted_count, Reach-IsTrue,
}

abbrev waiting_one : Loop
waiting_one = record {
  waiters = 1;
  active = 0;
  is_locked = false;
  tasks = record { id = 7; stage = queued } ∷ [];
}

has_entered : enter 7 empty ≡ some waiting_one
unfolding enter find_task
has_entered = refl

abbrev working : Loop
working = admit none 7 (acquire 7 waiting_one)

Reach-IsTrue_example :
    IsTrue working
    × (working.waiters ≤ 8)
    × (admitted_count working.tasks ≤ 1)
    × (working.active ≤ 1)
Reach-IsTrue_example =
    Reach-IsTrue {l = working}
      (next (next (next here (entered 7 has_entered)) (acquired 7)) (tried none 7))

all_left : (leave 7 working).tasks ≡ []
unfolding leave admit acquire find_task move_task drop_task has_headroom is_admitted holds_lock
all_left = refl
