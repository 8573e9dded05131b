-- ===== src/Schedule/Clock/Tests.antt =====
-- churn_schedule.py: the clock at concrete times.
use sales_journal.Prelude.{List, [], arith, refl, true, ℕ, ◌+◌, ◌<◌, ◌↔◌, ◌∷◌, ◌≡◌, ◌≤◌}
use sales_journal.Schedule.Clock.{Local, IsClock, stamp, next_run, time_pattern}
use sales_journal.Schedule.Clock.Laws.{next_run-first}

abbrev noon : Local
noon = record { date = 100; hour = 12; minute = 5; second = 7; microsecond = 9 }

noon-IsClock : IsClock noon
noon-IsClock = record {
  hours = omega arith;
  minutes = omega arith;
  seconds = omega arith;
  microseconds = omega arith;
}

abbrev half_past_nine : List ℕ
half_past_nine = 48 ∷ 57 ∷ 58 ∷ 51 ∷ 48 ∷ []

next_run-first_example :
    let run = next_run 9 30 noon in
    let on =
      λ (d : ℕ). record noon { date = d; hour = 9; minute = 30; second = 0; microsecond = 0 } in
    (stamp noon < stamp run)
    × (stamp run ≤ stamp noon + 86400000000)
    × (run ≡ on run.date)
    × ((run.date ≤ 101) ↔ (stamp noon < stamp (on 101)))
next_run-first_example = next_run-first 9 30 noon 101 noon-IsClock (omega arith) (omega arith)

half_past_nine_fits : time_pattern half_past_nine ≡ true
unfolding time_pattern
half_past_nine_fits = refl
