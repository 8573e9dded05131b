-- ===== src/Catalog/Sync/Loop.antt =====
-- catalog_sync.py: the loop of `synchronize` over pages, its beginning and its two ends.
use sales_journal.Prelude.{
  Bool, List, Option, String, [], false, if◌then◌else◌, leb, ltb, max, none, not, or_else, some,
  str_eq, suc, true, zero, ℕ, ◌&&◌, ◌+◌, ◌∷◌,
}
use sales_journal.Catalog.Client.{batch_size_limit}
use sales_journal.Catalog.Sync.{Item, Tables, Texts}
use sales_journal.Catalog.Sync.Page.{
  SyncState, idle, running, stopped, paused, failed, Failure, lookup_failed, cancelled, no_memory,
  other_failure, Limits, Env, Totals, Sync, complete, page_rows, run_page, raised, saved,
}

-- `_state(db)`: the row, or a new one.
unfoldable pub new_state : SyncState
new_state = record {
  revision = 0;
  cycle = 0;
  cursor = 0;
  upper_id = 0;
  is_completed = true;
  status = idle;
  processed = 0;
  matched_count = 0;
  not_found_count = 0;
  ambiguous_count = 0;
  errors = 0;
  invalid_count = 0;
  started_at = none;
  finished_at = none;
  last_success_at = none;
  last_full_success_at = none;
  error_code = none;
}

-- `max(SaleItem.id)`, zero for an empty table.
pub top_id : List Item → ℕ
top_id [] = 0
top_id (i ∷ is) = max i.id (top_id is)

-- The transaction before the loop: a new cycle if the last one is complete.
unfoldable pub begin : ℕ → List Item → SyncState → SyncState
unfolding top_id
begin now items s =
    let opened =
      if s.is_completed
      then record s {
        started_at = some now;
        cycle = s.cycle + 1;
        cursor = 0;
        upper_id = top_id items;
        is_completed = false;
      }
      else s in
    record opened {
      status = running;
      started_at = some (or_else now opened.started_at);
      finished_at = none;
      error_code = none;
    }

-- `while handled < max_products and scanned < max_scan_rows and not stop_event.is_set()`
unfoldable pub may_go_on : Limits → Env → ℕ → Totals → Bool
may_go_on limits env round c =
    ltb c.handled limits.max_products
    && ltb c.scanned limits.max_scan_rows
    && not (env.is_stopped round)

-- How the loop ends: the round that is not run, and the failure if one is raised.
pub record End : Type 0 where
  pub sync : Sync
  pub round : ℕ
  pub failure : Option Failure

abbrev pub ended : Sync → ℕ → Option Failure → End
ended s round f = record { sync = s; round = round; failure = f }

-- The loop over pages, with fuel; `none` means that it ran out.
unfoldable pub run_pages : Texts → Limits → Env → ℕ → ℕ → Sync → Option End
unfolding may_go_on
run_pages lib limits env zero round s = none
run_pages lib limits env (suc fuel) round s = elim (may_go_on limits env round s.totals) [
  | false ↦ some (ended s round none)
  | true ↦ elim (env.before round) [
    | some f ↦ some (ended s round (some f))
    | none ↦ elim (page_rows limits s.totals.scanned s.tables s.state) [
      | [] ↦ some (ended (record s { state = complete env.now s.state }) round none)
      | i ∷ is ↦ elim (run_page lib limits env round (i ∷ is) s) [
        | raised t f ↦ some (ended t round (some f))
        | saved t ↦ elim t.state.is_completed [
          | true ↦ some (ended t round none)
          | false ↦ run_pages lib limits env fuel (round + 1) t
        ]
      ]
    ]
  ]
]

pub failure_code : Failure → String
failure_code (lookup_failed e) = e.error_code
failure_code cancelled = "cancelled"
failure_code no_memory = "memory_headroom"
failure_code other_failure = "sync_error"

-- The last transaction, and `record_error`.
unfoldable pub conclude : Env → End → Sync × Option Failure
unfolding failure_code
conclude env e = elim e.failure [
  | none ↦ (
    record e.sync {
      state = record e.sync.state {
        status =
            if e.sync.state.is_completed
            then e.sync.state.status
            else if env.is_stopped e.round
            then stopped
            else paused;
        finished_at = some env.now;
      };
    },
    none,
  )
  | some f ↦ (
    record e.sync {
      state = record e.sync.state {
        status = if str_eq (failure_code f) "cancelled" then stopped else failed;
        error_code = some (failure_code f);
        errors = e.sync.state.errors + 1;
        finished_at = some env.now;
      };
    },
    some f,
  )
]

unfoldable pub no_totals : Totals
no_totals = record {
  handled = 0;
  scanned = 0;
  matched_total = 0;
  not_found_total = 0;
  ambiguous_total = 0;
  invalid_total = 0;
}

unfoldable pub are_valid : Limits → Bool
are_valid l =
    (leb 1 l.batch_size && leb l.batch_size batch_size_limit)
    && (leb 1 l.max_products && leb l.max_products 10000)
    && (leb 1 l.max_scan_rows && leb l.max_scan_rows 100000)

pub data Outcome : Type 0 where
  invalid_limits out_of_fuel : Outcome
  finished : Sync → Option Failure → Outcome

unfoldable pub outcome_of : Env → Option End → Outcome
unfolding conclude
outcome_of env none = out_of_fuel
outcome_of env (some e) = let (s, f) = conclude env e in finished s f

-- `synchronize(...)`: one round more than the rows it may scan is fuel enough.
unfoldable pub synchronize : Texts → Limits → Env → Tables → Option SyncState → Outcome
unfolding are_valid begin outcome_of new_state no_totals
synchronize lib limits env t state =
    if are_valid limits
    then outcome_of env (
        run_pages lib limits env (limits.max_scan_rows + 1) 0 (record {
          tables = t;
          state = begin env.now t.items (or_else new_state state);
          totals = no_totals;
        }))
    else invalid_limits
