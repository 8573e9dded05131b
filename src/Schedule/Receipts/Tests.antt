-- ===== src/Schedule/Receipts/Tests.antt =====
-- churn_schedule.py: one delivered event and its receipt.
use sales_journal.Prelude.{List, String, [], none, ok, refl, some, true, ◌+◌, ◌<◌, ◌↔◌, ◌∷◌, ◌≡◌}
use sales_journal.Schedule.Config.{text, int, lookup}
use sales_journal.Schedule.Jobs.{Job, daily, released, partial, succeeded, no_counters}
use sales_journal.Schedule.Receipts.{
  Event, Incoming, Incoming.fields, Receipt, task_created, is_integer, distinct_ids, event_id_of,
  find_event, for_event, find_receipt, hash_of, verdict_of, same_verdict, is_accepted, task_pattern,
  task_of, created_of, reasons_of, read_claim, file_claim, receipt_of, file_all, settle,
  acknowledge, of_job, distinct, task_ids,
}
use sales_journal.Schedule.Receipts.OnFile.{IsUnique}
use sales_journal.Schedule.Receipts.Laws.{
  sent_of, accepted_of, rejected_of, Settled, acknowledge_again, acknowledge-accounts,
}

abbrev plain_digest : String → String
plain_digest s = s

abbrev job : Job
job = record {
  id = "j";
  business_date = 7;
  kind = daily;
  policy_revision = 2;
  status = released;
  run_id = some "run";
  release_id = some "r1";
  created_at = 1;
  updated_at = 2;
  counters = record no_counters { allowed = some 1 };
  error_code = none;
}

abbrev events : List Event
events = record { id = 5; release_id = "r1"; payload = "p5" } ∷ []

abbrev receipts : List Incoming
receipts =
    fields (
      ("event_id", int 5)
      ∷ ("event_hash", text "p5")
      ∷ ("decision", text "TASK_CREATED")
      ∷ ("task_id", text "T-1")
      ∷ [])
    ∷ []

abbrev on_file : List Receipt
on_file =
    record {
      job_id = "j";
      event_id = 5;
      event_hash = "p5";
      decision = task_created;
      created_for_release = true;
      task_id = some "T-1";
      reasons = [];
      observed_at = 9;
    }
    ∷ []

abbrev done : Job
done = record job {
  counters = record no_counters {
    allowed = some 1;
    sent = some 1;
    accepted = some 1;
    tasks_created = some 1;
    tasks_linked = some 1;
    rejected = some 0;
  };
  status = succeeded;
  updated_at = 9;
}

accepted_once : acknowledge plain_digest job 9 events receipts [] ≡ ok (done, on_file)
unfolding acknowledge lookup is_integer distinct_ids event_id_of find_event for_event find_receipt
    hash_of verdict_of same_verdict is_accepted task_pattern task_of created_of reasons_of
    read_claim file_claim receipt_of file_all settle of_job distinct task_ids
accepted_once = refl

acknowledge_again_example :
    (acknowledge plain_digest done 20 events receipts on_file
      ≡ ok (record done { updated_at = 20 }, on_file))
    × IsUnique on_file
    × Settled plain_digest "j" (some "r1") events receipts on_file
acknowledge_again_example =
    acknowledge_again plain_digest job 9 20 events receipts [] on_file tt accepted_once

acknowledge-accounts_example :
    (done.counters.sent ≡ some (sent_of "j" on_file))
    × (done.counters.accepted ≡ some (accepted_of "j" on_file))
    × (done.counters.rejected ≡ some (rejected_of "j" on_file))
    × (accepted_of "j" on_file + rejected_of "j" on_file ≡ sent_of "j" on_file)
    × ((done.status ≡ succeeded) ↔ ((1 ≡ sent_of "j" on_file) × (rejected_of "j" on_file ≡ 0)))
    × ((done.status ≡ partial) ↔ ((1 ≡ sent_of "j" on_file) × (0 < rejected_of "j" on_file)))
acknowledge-accounts_example =
    acknowledge-accounts plain_digest job 9 events receipts [] on_file accepted_once
