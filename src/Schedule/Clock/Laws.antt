-- ===== src/Schedule/Clock/Laws.antt =====
-- churn_schedule.py: `next_run` is the first configured time after now, and comparing printed times
-- is comparing times.
use sales_journal.Prelude.{
  Bool-cases, List, [], arith, if◌then◌else◌, inl, inr, leb, lex_lt, ltb, refl, some, true, ℕ, ◌*◌,
  ◌++◌, ◌+◌, ◌-◌, ◌<◌, ◌==◌, ◌↔◌, ◌∙◌, ◌∷◌, ◌≡◌, ◌≤◌, ◌⊎◌,
}
use mathlib.Core.List.{append-nil}
use mathlib.Core.Path.{ap₂}
use sales_journal.Schedule.Clock.{
  Local, stamp, IsClock, at_time, next_day, next_run, two_digits, strftime, time_pattern,
  parse_time,
}

-- The day of the run, by whether the configured time of today is still to come.
run_date :
    (hour minute : ℕ) (local : Local)
    → let today = stamp (at_time hour minute local) in
      ((stamp local < today) × (next_run hour minute local ≡ at_time hour minute local))
      ⊎ ((today ≤ stamp local)
          × (next_run hour minute local ≡ next_day (at_time hour minute local)))
unfolding next_run
run_date hour minute local =
    elim (Bool-cases (leb (stamp (at_time hour minute local)) (stamp local))) [
      | inl past ↦ inr (ground arith, rw past refl)
      | inr ahead ↦ inl (ground arith, rw ahead refl)
    ]

-- The next run is later than now, by one day at most, at the configured time to the microsecond, and
-- it is the first: the days whose configured time is after now are those from its day on.
pub next_run-first :
    (hour minute : ℕ) (local : Local) (day : ℕ)
    → IsClock local
    → hour < 24
    → minute < 60
    → let run = next_run hour minute local in
      let on = λ (d : ℕ). record local {
        date = d;
        hour = hour;
        minute = minute;
        second = 0;
        microsecond = 0;
      } in
      (stamp local < stamp run)
      × (stamp run ≤ stamp local + 86400000000)
      × (run ≡ on run.date)
      × ((run.date ≤ day) ↔ (stamp local < stamp (on day)))
unfolding at_time next_day stamp
next_run-first hour minute local day c h m = elim (run_date hour minute local) [
  | inl (ahead, e) ↦
      rw e (omega arith, omega arith, refl, (λ later. omega arith, λ later. omega arith))
  | inr (past, e) ↦
      rw e (omega arith, omega arith, refl, (λ later. omega arith, λ later. omega arith))
]

digits_order :
    (h k : ℕ) (xs ys : List ℕ)
    → h < 100
    → k < 100
    → lex_lt (two_digits h ++ xs) (two_digits k ++ ys) ≡ (if h == k then lex_lt xs ys else ltb h k)
unfolding two_digits
digits_order h k xs ys p q = ground arith

minutes_only : (m n : ℕ) → (if m == n then lex_lt [] [] else ltb m n) ≡ ltb m n
minutes_only m n = ground arith

-- Comparing the printed time with a configured one as texts is comparing the two times of day.
pub strftime-order :
    (t u : Local)
    → IsClock t
    → IsClock u
    → lex_lt (strftime t) (strftime u) ≡ ltb (t.hour * 60 + t.minute) (u.hour * 60 + u.minute)
unfolding strftime
strftime-order t u p q =
    let minutes : lex_lt (two_digits t.minute) (two_digits u.minute) ≡ ltb t.minute u.minute =
      simp append-nil at (
        digits_order t.minute u.minute [] [] (omega arith) (omega arith)
        ∙ minutes_only t.minute u.minute) in
    rw (digits_order t.hour u.hour _ _ (omega arith) (omega arith)) (ground (arith, minutes))

-- The tests of the pattern as bounds on the five code points.
time_pattern_bounds :
    (a b c d e : ℕ)
    → time_pattern (a ∷ b ∷ c ∷ d ∷ e ∷ []) ≡ true
    → (48 ≤ a)
      × (48 ≤ b)
      × (b ≤ 57)
      × (c ≡ 58)
      × (48 ≤ d)
      × (d ≤ 53)
      × (48 ≤ e)
      × (e ≤ 57)
      × ((a - 48) * 10 + (b - 48) < 24)
unfolding time_pattern
time_pattern_bounds a b c d e h = ground arith

two_digits_read :
    (a b : ℕ) → 48 ≤ a → 48 ≤ b → b ≤ 57 → two_digits ((a - 48) * 10 + (b - 48)) ≡ a ∷ b ∷ []
unfolding two_digits
two_digits_read a b p q r = ap₂ (λ (x y : ℕ). x ∷ y ∷ []) (omega arith) (omega arith)

-- A text that matches the pattern is exactly the print of the time that is read from it.
pub time_pattern-roundtrip :
    (text : List ℕ)
    → time_pattern text ≡ true
    → (t : Local) × (IsClock t) × (parse_time text ≡ some (t.hour, t.minute)) × (strftime t ≡ text)
unfolding time_pattern parse_time strftime two_digits
time_pattern-roundtrip (a ∷ b ∷ c ∷ d ∷ e ∷ []) h = go (time_pattern_bounds a b c d e h)
  where
    go :
        (48 ≤ a)
          × (48 ≤ b)
          × (b ≤ 57)
          × (c ≡ 58)
          × (48 ≤ d)
          × (d ≤ 53)
          × (48 ≤ e)
          × (e ≤ 57)
          × ((a - 48) * 10 + (b - 48) < 24)
        → (t : Local) × (IsClock t)
          × (parse_time (a ∷ b ∷ c ∷ d ∷ e ∷ []) ≡ some (t.hour, t.minute))
          × (strftime t ≡ a ∷ b ∷ c ∷ d ∷ e ∷ [])
    go bounds = (
      record {
        date = 0;
        hour = (a - 48) * 10 + (b - 48);
        minute = (d - 48) * 10 + (e - 48);
        second = 0;
        microsecond = 0;
      },
      omega arith,
      refl,
      cc (
        two_digits_read a b bounds.0 bounds.1 bounds.2,
        two_digits_read d e bounds.4 bounds.6 bounds.7,
        bounds.3,
      ),
    )
time_pattern-roundtrip _ h = cc
