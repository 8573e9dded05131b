-- ===== src/Scenario/Tests.antt =====
-- scenario_retry.py: a failed report of the fourteenth of a month.
use sales_journal.Prelude.{some}
use sales_journal.Scenario.{Day, Run, failed}

abbrev fourteenth : Day
fourteenth = record { number = 400; day = 14; previous_length = 31 }

abbrev broken_run : Run
broken_run = record { run_date = 400; created_at = 1000; period = some (382, 399); status = failed }
