-- ===== src/Schedule/Clock.antt =====
-- churn_schedule.py: the wall clock in Moscow and `next_run`.
use sales_journal.Prelude.{
  Bool, List, Option, [], false, if◌then◌else◌, is_digit, leb, none, some, ℕ, ◌%◌, ◌&&◌, ◌*◌, ◌++◌,
  ◌+◌, ◌-◌, ◌/◌, ◌<◌, ◌==◌, ◌||◌, ◌∷◌,
}
pub mod Laws
mod Tests

-- `now.astimezone(MOSCOW)`: a day number and the time of that day.
pub record Local : Type 0 where
  pub date : ℕ
  pub hour : ℕ
  pub minute : ℕ
  pub second : ℕ
  pub microsecond : ℕ

-- Two wall clock times of one zone are compared as one number of microseconds.
pub stamp : Local → ℕ
stamp t = (((t.date * 24 + t.hour) * 60 + t.minute) * 60 + t.second) * 1000000 + t.microsecond

pub record IsClock (t : Local) : Type 0 where
  pub hours : t.hour < 24
  pub minutes : t.minute < 60
  pub seconds : t.second < 60
  pub microseconds : t.microsecond < 1000000

-- `local.replace(hour=hour, minute=minute, second=0, microsecond=0)`
pub at_time : ℕ → ℕ → Local → Local
at_time hour minute t = record t { hour = hour; minute = minute; second = 0; microsecond = 0 }

-- `timedelta(days=1)` on a wall clock.
pub next_day : Local → Local
next_day t = record t { date = t.date + 1 }

-- `next_run` for the hour and the minute of the configured time.
pub next_run : ℕ → ℕ → Local → Local
next_run hour minute local =
    let candidate = at_time hour minute local in
    if leb (stamp candidate) (stamp local) then next_day candidate else candidate

-- A number below 100 in two digits, as code points: `%H`, `%M`.
unfoldable pub two_digits : ℕ → List ℕ
two_digits n = (48 + n / 10) ∷ (48 + n % 10) ∷ []

-- `local.strftime('%H:%M')`
unfoldable pub strftime : Local → List ℕ
strftime t = two_digits t.hour ++ 58 ∷ two_digits t.minute

-- `^(?:[01]\d|2[0-3]):[0-5]\d$`, one code point after the other.
unfoldable pub time_pattern : List ℕ → Bool
time_pattern (a ∷ b ∷ c ∷ d ∷ e ∷ []) =
    (((a == 48 || a == 49) && is_digit b) || (a == 50 && (leb 48 b && leb b 51)))
    && c == 58
    && (leb 48 d && leb d 53)
    && is_digit e
time_pattern _ = false

-- `map(int, config['time'].split(':'))` of a text that matches the pattern.
pub parse_time : List ℕ → Option (ℕ × ℕ)
parse_time (a ∷ b ∷ c ∷ d ∷ e ∷ []) = some ((a - 48) * 10 + (b - 48), (d - 48) * 10 + (e - 48))
parse_time _ = none
