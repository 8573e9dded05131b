-- ===== src/Schedule/Config.antt =====
-- churn_schedule.py: `ScheduleSettings`, the values of a JSON object and their validation.
use sales_journal.Prelude.{
  Bool, List, Option, String, [], all, arith, codes, if◌then◌else◌, leb, none, some, str_eq, true,
  ℕ, ◌&&◌, ◌||◌, ◌∷◌, ◌≡◌, ◌≤◌,
}
mod Tests
use sales_journal.Schedule.Clock.{time_pattern}

-- A value of a JSON object as far as the schedule looks at it; `negative n` is -(n + 1), and
-- `mixed_list` is a list with an element that is no text.
pub data Scalar : Type 0 where
  null : Scalar
  flag : Bool → Scalar
  int negative : ℕ → Scalar
  text : String → Scalar
  list : List String → Scalar
  mixed_list : Scalar
  object : Scalar

-- A Python dict with text keys; a key stands in it once.
abbrev pub Fields : Type 0
Fields = List (String × Scalar)

unfoldable pub lookup : String → Fields → Option Scalar
lookup k [] = none
lookup k ((j, v) ∷ m) = let rest = lookup k m in if str_eq j k then some v else rest

pub record Settings : Type 0 where
  pub time : String
  pub daily_limit : ℕ
  pub cooldown_days : ℕ
  pub algorithm_policy : String
  pub receiver_policy_revision : ℕ
  pub producer_policy_revision : ℕ

-- churn_pilot.py
abbrev pub algorithm_policy : String
algorithm_policy = "aviator-churn-pilot/2"

-- `StrictInt = Field(ge=low, le=high)`: no flag, no text, no number out of range.
unfoldable pub strict_int : ℕ → Option ℕ → Option Scalar → Option ℕ
strict_int low none (some (int n)) = if leb low n then some n else none
strict_int low (some high) (some (int n)) = if leb low n && leb n high then some n else none
strict_int low high _ = none

unfoldable pub any_text : Option Scalar → Option String
any_text (some (text s)) = some s
any_text _ = none

unfoldable pub time_text : Option Scalar → Option String
time_text (some (text s)) = if time_pattern (codes s) then some s else none
time_text _ = none

-- `extra='forbid'`
unfoldable pub known_key : String → Bool
known_key k =
    str_eq k "time"
    || str_eq k "daily_limit"
    || str_eq k "cooldown_days"
    || str_eq k "algorithm_policy"
    || str_eq k "receiver_policy_revision"
    || str_eq k "producer_policy_revision"

infixl 5 ◌then_some◌
abbrev pub ◌then_some◌ : {A B : Type 0} → Option A → (A → Option B) → Option B
none then_some f = none
some a then_some f = f a

-- `ScheduleSettings.model_validate(payload)`; `none` stands for the validation error.
unfoldable pub validate : Fields → Option Settings
unfolding lookup
validate fields =
    (if all (λ e. known_key e.0) fields then some tt else none) then_some λ (_ : Unit {0}).
    time_text (lookup "time" fields) then_some λ time.
    strict_int 1 (some 100) (lookup "daily_limit" fields) then_some λ limit.
    strict_int 1 (some 3650) (lookup "cooldown_days" fields) then_some λ days.
    any_text (lookup "algorithm_policy" fields) then_some λ algorithm.
    strict_int 1 none (lookup "receiver_policy_revision" fields) then_some λ receiver.
    strict_int 1 none (lookup "producer_policy_revision" fields) then_some λ producer.
    some (record {
      time = time;
      daily_limit = limit;
      cooldown_days = days;
      algorithm_policy = algorithm;
      receiver_policy_revision = receiver;
      producer_policy_revision = producer;
    })

-- `.model_dump()`
unfoldable pub dump : Settings → Fields
dump s =
    ("time", text s.time)
    ∷ ("daily_limit", int s.daily_limit)
    ∷ ("cooldown_days", int s.cooldown_days)
    ∷ ("algorithm_policy", text s.algorithm_policy)
    ∷ ("receiver_policy_revision", int s.receiver_policy_revision)
    ∷ ("producer_policy_revision", int s.producer_policy_revision)
    ∷ []

-- What validation admits.
pub record IsValid (s : Settings) : Type 0 where
  pub clock : time_pattern (codes s.time) ≡ true
  pub limit_low : 1 ≤ s.daily_limit
  pub limit_high : s.daily_limit ≤ 100
  pub days_low : 1 ≤ s.cooldown_days
  pub days_high : s.cooldown_days ≤ 3650
  pub receiver_low : 1 ≤ s.receiver_policy_revision
  pub producer_low : 1 ≤ s.producer_policy_revision

-- What was validated and written out again reads back as the same settings, and nothing invalid is
-- ever read.
pub validate-dump : (s : Settings) → IsValid s → validate (dump s) ≡ some s
unfolding validate dump strict_int any_text time_text known_key lookup
validate-dump s v = rw v.clock (ground arith)

pub validate-IsValid : (fields : Fields) (s : Settings) → validate fields ≡ some s → IsValid s
unfolding validate strict_int any_text time_text
validate-IsValid fields s h = ground arith

-- The settings that validation returns are in range, and written out they validate to themselves.
pub validate-stable :
    (fields : Fields) (s : Settings)
    → validate fields ≡ some s
    → IsValid s × (validate (dump s) ≡ some s)
validate-stable fields s h =
    (validate-IsValid fields s h, validate-dump s (validate-IsValid fields s h))
