-- ===== src/Schedule/Receipts.antt =====
-- churn_schedule.py: `acknowledge`, the receipts of delivered events. `digest` stands for the SHA-256
-- of the canonical JSON of a payload, which is kept as its text.
use sales_journal.Prelude.{
  Bool, List, Option, Result, String, [], all, any, codes, err, false, holds, if◌then◌else◌,
  is_alnum, is_digit, is_none, keep, leb, length, none, not, ok, or_else, raise_if, some, str_eq,
  suc, tally, true, ℕ, ◌&&◌, ◌++◌, ◌-◌, ◌==◌, ◌>>=◌, ◌>>◌, ◌||◌, ◌∷◌,
}
pub mod OnFile
pub mod Release
pub mod Laws
mod Tests
use sales_journal.Schedule.Config.{Scalar, null, flag, int, text, list, Fields, lookup, ◌then_some◌}
use sales_journal.Schedule.Control.{
  Error, invalid_receipts, invalid_receiver_acknowledgement, receipt_conflict,
}
use sales_journal.Schedule.Jobs.{Job, Counters, delivering, succeeded, partial, Status}

-- An AnalyticsAutomationEvent, which is immutable once released.
pub record Event : Type 0 where
  pub id : ℕ
  pub release_id : String
  pub payload : String

pub data Verdict : Type 0 where
  task_created task_exists blocked review : Verdict

-- models/churn_schedule.py: ChurnReceipt
pub record Receipt : Type 0 where
  pub job_id : String
  pub event_id : ℕ
  pub event_hash : String
  pub decision : Verdict
  pub created_for_release : Bool
  pub task_id : Option String
  pub reasons : List String
  pub observed_at : ℕ

-- An element of the list that the command line hands over.
pub data Incoming : Type 0 where
  fields : Fields → Incoming
  other : Incoming

-- The decision is one of DECISIONS.
pub verdict_of : Option Scalar → Option Verdict
verdict_of (some (text s)) =
    if str_eq s "TASK_CREATED"
    then some task_created
    else if str_eq s "TASK_EXISTS"
    then some task_exists
    else if str_eq s "BLOCKED"
    then some blocked
    else if str_eq s "REVIEW"
    then some review
    else none
verdict_of _ = none

pub same_verdict : Verdict → Verdict → Bool
same_verdict task_created task_created = true
same_verdict task_exists task_exists = true
same_verdict blocked blocked = true
same_verdict review review = true
same_verdict _ _ = false

-- `decision in {'TASK_CREATED', 'TASK_EXISTS'}`
pub is_accepted : Verdict → Bool
is_accepted task_created = true
is_accepted task_exists = true
is_accepted _ = false

-- `re.fullmatch('[a-zA-Z0-9-]{1,64}', task)`
pub task_pattern : String → Bool
task_pattern s =
    all (λ c. is_alnum c || c == b'-') (codes s)
    && leb 1 (length (codes s))
    && leb (length (codes s)) 64

-- `re.fullmatch('[A-Z0-9_]{1,64}', r)`
pub reason_pattern : String → Bool
reason_pattern s =
    all (λ c. is_digit c || (leb 65 c && leb c 90) || c == b'_') (codes s)
    && leb 1 (length (codes s))
    && leb (length (codes s)) 64

-- `receipt.get('task_id')` with its test: no task, or a text of the pattern.
pub task_of : Option Scalar → Option (Option String)
task_of none = some none
task_of (some null) = some none
task_of (some (text s)) = if task_pattern s then some (some s) else none
task_of (some _) = none

-- `receipt.get('created_for_release', decision == 'TASK_CREATED')`, which must be a Boolean.
pub created_of : Option Scalar → Verdict → Option Bool
created_of none decision = some (same_verdict decision task_created)
created_of (some (flag b)) decision = some b
created_of (some _) decision = none

pub reasons_of : Option Scalar → Option (List String)
reasons_of none = some []
reasons_of (some (list rs)) = if leb (length rs) 30 && all reason_pattern rs then some rs else none
reasons_of (some _) = none

pub event_id_of : Incoming → Option ℕ
event_id_of (fields r) = elim (lookup "event_id" r) [ some (int n) ↦ some n | _ ↦ none ]
event_id_of other = none

-- The integers of `ids`. A negative one is an integer for `type(v) is int` and names no event.
pub is_integer : Incoming → Bool
is_integer (fields r) = elim (lookup "event_id" r) [
  | some (int n) ↦ true
  | some (Scalar.negative n) ↦ true
  | _ ↦ false
]
is_integer other = false

pub same_event : Incoming → Incoming → Bool
same_event (fields r) (fields s) = elim (lookup "event_id" r) [
  | some (int n) ↦ elim (lookup "event_id" s) [ some (int m) ↦ n == m | _ ↦ false ]
  | some (Scalar.negative n) ↦ elim (lookup "event_id" s) [
    | some (Scalar.negative m) ↦ n == m
    | _ ↦ false
  ]
  | _ ↦ false
]
same_event _ _ = false

-- `len(set(ids)) == len(ids)`
pub distinct_ids : List Incoming → Bool
distinct_ids [] = true
distinct_ids (r ∷ rs) = not (any (same_event r) rs) && distinct_ids rs

-- The events of the job's release, `events.get(receipt['event_id'])`.
pub find_event : Option String → ℕ → List Event → Option Event
find_event release id [] = none
find_event release id (e ∷ es) =
    let rest = find_event release id es in
    if holds (λ r. str_eq e.release_id r) release && e.id == id then some e else rest

pub for_event : String → ℕ → Receipt → Bool
for_event job id r = str_eq r.job_id job && r.event_id == id

pub find_receipt : String → ℕ → List Receipt → Option Receipt
find_receipt job id [] = none
find_receipt job id (r ∷ rs) =
    let rest = find_receipt job id rs in if for_event job id r then some r else rest

pub same_task : Option String → Option String → Bool
same_task none none = true
same_task (some s) (some t) = str_eq s t
same_task _ _ = false

-- `receipt.get('event_hash') != digest(event.payload)`
pub hash_of : Option Scalar → String → Option String
hash_of (some (text hash)) expected = if str_eq hash expected then some hash else none
hash_of _ expected = none

-- What a valid receipt says.
pub record Claim : Type 0 where
  pub event_id : ℕ
  pub event_hash : String
  pub decision : Verdict
  pub created_for_release : Bool
  pub reasons : List String
  pub task_id : Option String

pub receipt_of : String → ℕ → Claim → Receipt
receipt_of job now claim = record {
  job_id = job;
  event_id = claim.event_id;
  event_hash = claim.event_hash;
  decision = claim.decision;
  created_for_release = claim.created_for_release;
  task_id = claim.task_id;
  reasons = claim.reasons;
  observed_at = now;
}

pub same_flag : Bool → Bool → Bool
same_flag true b = b
same_flag false b = not b

-- The receipt on file says the same; a created and an existing task are not told apart.
pub agrees : Receipt → Claim → Bool
agrees old new =
    str_eq old.event_hash new.event_hash
    && same_task old.task_id new.task_id
    && same_flag old.created_for_release new.created_for_release
    && (same_verdict old.decision new.decision
        || (is_accepted old.decision && is_accepted new.decision))

-- One round of the loop on the receipts on file.
pub file_claim : String → ℕ → Claim → List Receipt → Result Error (List Receipt)
file_claim job now new records = elim (find_receipt job new.event_id records) [
  | none ↦ ok (records ++ receipt_of job now new ∷ [])
  | some old ↦ if agrees old new then ok records else err receipt_conflict
]

-- How many distinct texts a list has.
pub distinct : List String → ℕ
distinct [] = 0
distinct (s ∷ ss) = let rest = distinct ss in if any (str_eq s) ss then rest else suc rest

-- `r.task_id for r in records if ... and r.task_id`
pub task_ids : (Receipt → Bool) → List Receipt → List String
task_ids p [] = []
task_ids p (r ∷ rs) =
    let rest = task_ids p rs in
    elim r.task_id [
      | none ↦ rest
      | some task ↦ if p r && not (str_eq task "") then task ∷ rest else rest
    ]

pub of_job : String → Receipt → Bool
of_job job r = str_eq r.job_id job

-- The counters and the status that follow from the receipts of the job.
pub settle : Job → ℕ → List Receipt → Job
settle job now records =
    let mine = keep (of_job job.id) records in
    let accepted = tally (λ r. is_accepted r.decision) mine in
    let total = or_else 0 job.counters.allowed in
    record job {
      counters = record (job.counters) {
        sent = some (length mine);
        accepted = some accepted;
        tasks_created = some (distinct (task_ids (λ r. r.created_for_release) mine));
        tasks_linked = some (distinct (task_ids (λ r. true) mine));
        rejected = some (length mine - accepted);
      };
      status =
          if length mine == total
          then (if accepted == total then succeeded else partial)
          else delivering;
      updated_at = now;
    }

module _ (digest : String → String) where
  -- The checks of one receipt; `none` is INVALID_RECEIVER_ACKNOWLEDGEMENT.
  pub read_claim : Option String → List Event → Incoming → Option Claim
  read_claim release events other = none
  read_claim release events (fields r) = event_id_of (fields r) then_some λ id.
      find_event release id events then_some λ event.
      hash_of (lookup "event_hash" r) (digest event.payload) then_some λ hash.
      verdict_of (lookup "decision" r) then_some λ decision.
      created_of (lookup "created_for_release" r) decision then_some λ created.
      reasons_of (lookup "reasons" r) then_some λ reasons.
      task_of (lookup "task_id" r) then_some λ task.
      if is_accepted decision && is_none task
      then none
      else some (record {
        event_id = event.id;
        event_hash = hash;
        decision = decision;
        created_for_release = created;
        reasons = reasons;
        task_id = task;
      })

  pub file_all :
      String
      → Option String
      → ℕ
      → List Event
      → List Incoming
      → List Receipt
      → Result Error (List Receipt)
  file_all job release now events [] records = ok records
  file_all job release now events (r ∷ rs) records = elim (read_claim release events r) [
    | none ↦ err invalid_receiver_acknowledgement
    | some new ↦ file_claim job now new records >>= file_all job release now events rs
  ]

  -- `acknowledge(db, job, receipts, now=now)` of a list; the caller's transaction is rolled back on
  -- an error, so that an error leaves the job and the receipts as they were.
  pub acknowledge :
      Job → ℕ → List Event → List Incoming → List Receipt → Result Error (Job × List Receipt)
  acknowledge job now events receipts records = do
    raise_if (not (leb 1 (length receipts) && leb (length receipts) 25)) invalid_receipts
    raise_if (not (all is_integer receipts && distinct_ids receipts)) invalid_receipts
    filed ← file_all job.id job.release_id now events receipts records
    ok (settle job now filed, filed)
