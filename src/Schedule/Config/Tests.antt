-- ===== src/Schedule/Config/Tests.antt =====
-- churn_schedule.py: the settings of one object.
use sales_journal.Prelude.{[], refl, some, ◌∷◌, ◌≡◌}
use sales_journal.Schedule.Clock.{time_pattern}
use sales_journal.Schedule.Config.{
  Fields, Settings, text, int, lookup, strict_int, any_text, time_text, known_key, validate,
}

abbrev night : Settings
night = record {
  time = "23:59";
  daily_limit = 100;
  cooldown_days = 1;
  algorithm_policy = "other";
  receiver_policy_revision = 1;
  producer_policy_revision = 4;
}

-- The keys in another order.
abbrev shuffled : Fields
shuffled =
    ("daily_limit", int 100)
    ∷ ("algorithm_policy", text "other")
    ∷ ("producer_policy_revision", int 4)
    ∷ ("time", text "23:59")
    ∷ ("receiver_policy_revision", int 1)
    ∷ ("cooldown_days", int 1)
    ∷ []

shuffled_valid : validate shuffled ≡ some night
unfolding validate lookup strict_int any_text time_text known_key time_pattern
shuffled_valid = refl
