-- ===== src/Worker/Batch/Tests.antt =====
-- analytics_signal_worker.py: the first batch of a run, and a failure of it.
use sales_journal.Prelude.{
  List, String, [], false, none, ok, refl, some, some_inj, true, ℕ, ◌∷◌, ◌≡◌, ◌≤◌, ◌⊎◌,
}
use sales_journal.Source.{when, code_number, SourceDecision, ImportEvidence}
use sales_journal.Source.{resolve_stored_sales_source}
use sales_journal.Worker.Batch.{scoped, work, advance, last_of}
use sales_journal.Worker.{
  find_active, is_reusable, begin_run, candidate, is_same_run, same_decision, against_published,
  same_day, same_codes, same_flag, same_scope, same_text, is_blocked, new_run, save, is_succeeded,
  same_texts, stored_sales_contract_valid, is_unknown_coverage, is_unknown_business, object,
  is_unknown_business, is_unknown_coverage, stored_sales_contract_valid, same_texts, Phase, running,
  succeeded, scan, Scope, Metadata, Run, State, World, Algorithm, find_run, is_open, Inputs,
}
use sales_journal.Worker.Batch.{
  Reads, stored_source_context, progressed, run_batch, batch, start, record_failure,
}
use sales_journal.Worker.Batch.Laws.{
  IsOrdered, published_day, Marked, stored_source_context-IsDated, run_batch-IsOrdered,
  run_batch-keeps, record_failure-guarded,
}

abbrev plain : Scope → Algorithm
plain scope = record { generator_version = "g"; parameters_version = 1; policy = "p" }

abbrev all_clients : Scope
all_clients = record { policy = "s"; department = none; buyer_types = []; rest = "" }

abbrev reads : Reads
reads = record {
  closed = 90;
  upper = 7;
  revision = 3;
  timezone = "Europe/Moscow";
  pending = false;
  fallback = all_clients;
  loaded = some all_clients;
  no_client_keys = false;
  present = true;
}

abbrev print : List ImportEvidence → String
print es = "f"

abbrev stored_print : ℕ → ℕ → String
stored_print a b = "s"

abbrev context : ℕ → SourceDecision × Scope
context = stored_source_context print stored_print reads

abbrev input : Inputs
input = record {
  scan_size = 1000;
  client_size = 100;
  configuration_enabled = true;
  as_of = none;
  closed = 90;
  now = 500;
  fresh_id = "new";
  upper_sale_id = 7;
  context = context;
  ids = 2 ∷ 5 ∷ [];
  keys = [];
}

abbrev decision : SourceDecision
decision = (context 90).0

abbrev metadata : Metadata
metadata = record {
  mode = "SHADOW";
  automation_allowed = false;
  normalization_version = 1;
  generator_version = "g";
  parameters_version = 1;
  parameters = "p";
  coverage_status = decision.coverage_status;
  freshness = decision.business_freshness;
  complete_through = none;
  source_decision = decision;
  scope = all_clients;
}

abbrev old : Run
old = record {
  id = "old";
  status = succeeded;
  phase = Phase.complete;
  as_of = 80;
  source_revision = 2;
  upper_sale_id = 5;
  sale_cursor = 5;
  client_cursor = "z";
  heartbeat_at = 400;
  finished_at = some 400;
  error_code = none;
  error_count = 0;
  metadata = record metadata { source_decision = record decision { source_revision = 2 } };
}

abbrev control : State
control = record { enabled = true; active_run_id = none; published_run_id = some "old" }

abbrev made : Run
made = record old {
  id = "new";
  status = running;
  phase = scan;
  as_of = 90;
  source_revision = 3;
  upper_sale_id = 7;
  sale_cursor = 5;
  client_cursor = "";
  heartbeat_at = 500;
  finished_at = none;
  metadata = metadata;
}

abbrev after : World
after = record {
  control = some (record control { active_run_id = some "new" });
  runs = old ∷ made ∷ [];
}

first_batch :
    run_batch plain input (record { control = some control; runs = old ∷ [] })
    ≡ ok (progressed made, after)
unfolding run_batch batch start code_number when same_texts stored_sales_contract_valid
    is_unknown_coverage is_unknown_business find_active is_reusable begin_run candidate find_run
    is_same_run stored_source_context scoped resolve_stored_sales_source same_decision
    against_published same_day same_codes same_flag same_scope same_text is_blocked new_run work
    advance save is_succeeded last_of object
first_batch = refl

is_free : find_run "new" (old ∷ []) ≡ none
unfolding find_run
is_free = refl

is_there : find_run "old" (old ∷ []) ≡ some old
unfolding find_run
is_there = refl

old_closed : is_open old.status ≡ false
unfolding is_open
old_closed = refl

ordered : IsOrdered control (old ∷ [])
ordered = λ p e. (old, rw (← some_inj e) is_there, refl, λ k a active. cc (active.named))

run_batch-IsOrdered_example :
    (c' : State) × (after.control ≡ some c')
    × IsOrdered c' after.runs
    × (published_day control (old ∷ []) ≤ published_day c' after.runs)
run_batch-IsOrdered_example =
    run_batch-IsOrdered plain input control (old ∷ []) (progressed made) after is_free
      (stored_source_context-IsDated print stored_print reads) ordered first_batch

run_batch-keeps_example : find_run "old" after.runs ≡ some old
run_batch-keeps_example =
    run_batch-keeps plain input control (old ∷ []) (progressed made) after "old" old is_free
      (stored_source_context-IsDated print stored_print reads) first_batch is_there old_closed

record_failure-guarded_example :
    (record_failure "E" (some "new") (some 500) 600 after ≡ (false, after))
    ⊎ (((record_failure "E" (some "new") (some 500) 600 after).0 ≡ true)
        × Marked
            (some "new")
            (some 500)
            after
            (record_failure "E" (some "new") (some 500) 600 after).1)
record_failure-guarded_example = record_failure-guarded "E" (some "new") (some 500) 600 after
