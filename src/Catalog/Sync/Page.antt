-- ===== src/Catalog/Sync/Page.antt =====
-- catalog_sync.py: the control state, and one page of `synchronize` with its commits. Each round of
-- the loop finds in `Env` what happens around it.
use sales_journal.Prelude.{
  Bool, List, Option, Result, String, [], err, if◌then◌else◌, keep, leb, length, ltb, min, none, ok,
  some, suc, tally, true, zero, ℕ, ◌&&◌, ◌+◌, ◌-◌, ◌∷◌,
}
use sales_journal.Catalog.Refresh.{LookupStatus, same_status}
use sales_journal.Catalog.Refresh
use sales_journal.Catalog.Client.{Request, Answer, matched, not_found, ambiguous, LookupError}
use sales_journal.Catalog.Sync.{
  Item, Tables, Texts, Walk, walk_rows, store_products, save_answers, save_invalid,
}

pub data SyncStatus : Type 0 where
  idle running completed stopped paused failed : SyncStatus

-- CatalogSyncState
pub record SyncState : Type 0 where
  pub revision : ℕ
  pub cycle : ℕ
  pub cursor : ℕ
  pub upper_id : ℕ
  pub is_completed : Bool
  pub status : SyncStatus
  pub processed : ℕ
  pub matched_count : ℕ
  pub not_found_count : ℕ
  pub ambiguous_count : ℕ
  pub errors : ℕ
  pub invalid_count : ℕ
  pub started_at : Option ℕ
  pub finished_at : Option ℕ
  pub last_success_at : Option ℕ
  pub last_full_success_at : Option ℕ
  pub error_code : Option String

-- What ends a run by an exception.
pub data Failure : Type 0 where
  lookup_failed : LookupError → Failure
  cancelled no_memory other_failure : Failure

pub record Limits : Type 0 where
  pub max_products : ℕ
  pub max_scan_rows : ℕ
  pub batch_size : ℕ

-- What happens around the rounds: the stop event at the head of a round, what the lock's guard or
-- the memory check raises before a page, the client's answer, and what the guard raises after it.
pub record Env : Type 0 where
  pub now : ℕ
  pub is_stopped : ℕ → Bool
  pub before : ℕ → Option Failure
  pub client : ℕ → List Request → Result LookupError (List Answer)
  pub after : ℕ → Option Failure

-- `counters`, with the rows scanned and the identities handled.
pub record Totals : Type 0 where
  pub handled : ℕ
  pub scanned : ℕ
  pub matched_total : ℕ
  pub not_found_total : ℕ
  pub ambiguous_total : ℕ
  pub invalid_total : ℕ

pub record Sync : Type 0 where
  pub tables : Tables
  pub state : SyncState
  pub totals : Totals

-- `WHERE id > cursor AND id <= upper_id`
unfoldable pub is_due : SyncState → Item → Bool
is_due s item = ltb s.cursor item.id && leb item.id s.upper_id

unfoldable pub first : ℕ → List Item → List Item
first zero is = []
first (suc n) [] = []
first (suc n) (i ∷ is) = i ∷ first n is

unfoldable pub page_rows : Limits → ℕ → Tables → SyncState → List Item
unfolding is_due first
page_rows limits scanned t s =
    first (min limits.batch_size (limits.max_scan_rows - scanned)) (keep (is_due s) t.items)

unfoldable pub complete : ℕ → SyncState → SyncState
complete now s = record s {
  is_completed = true;
  status = completed;
  last_full_success_at = some now;
}

unfoldable pub start_walk : Tables → SyncState → Walk
start_walk t s = record {
  lookups = t.lookups;
  keys = [];
  requests = [];
  bad = [];
  checkpoint = s.cursor;
  visited = 0;
}

-- `result.status == name`
pub is_answer : LookupStatus → Answer → Bool
unfolding same_status
is_answer status (matched _ _) = same_status status Refresh.matched
is_answer status not_found = same_status status Refresh.not_found
is_answer status ambiguous = same_status status Refresh.ambiguous

-- The state after a page whose answers are stored.
unfoldable pub advance : ℕ → Walk → List Answer → SyncState → SyncState
unfolding is_answer complete
advance now w answers s =
    let moved = record s { cursor = w.checkpoint } in
    let closed = if leb s.upper_id w.checkpoint then complete now moved else moved in
    let touched = leb 1 (length answers + length w.bad) in
    record closed {
      processed = s.processed + (length answers + length w.bad);
      invalid_count = s.invalid_count + length w.bad;
      matched_count = s.matched_count + tally (is_answer Refresh.matched) answers;
      not_found_count = s.not_found_count + tally (is_answer Refresh.not_found) answers;
      ambiguous_count = s.ambiguous_count + tally (is_answer Refresh.ambiguous) answers;
      revision = if touched then s.revision + 1 else s.revision;
      last_success_at = if touched then some now else s.last_success_at;
    }

unfoldable pub count_page : Walk → List Answer → Totals → Totals
count_page w answers c = record {
  handled = c.handled + (length answers + length w.bad);
  scanned = c.scanned + w.visited;
  matched_total = c.matched_total + tally (is_answer Refresh.matched) answers;
  not_found_total = c.not_found_total + tally (is_answer Refresh.not_found) answers;
  ambiguous_total = c.ambiguous_total + tally (is_answer Refresh.ambiguous) answers;
  invalid_total = c.invalid_total + length w.bad;
}

-- The last transaction of a page.
unfoldable pub save_page : Texts → ℕ → Walk → List Answer → Sync → Sync
unfolding store_products save_answers save_invalid advance count_page
save_page lib now w answers s = record {
  tables = record s.tables {
    lookups =
        save_invalid now s.state.cycle w.bad
          (save_answers now s.state.cycle w.keys answers w.lookups);
    products = store_products lib now answers s.tables.products;
  };
  state = advance now w answers s.state;
  totals = count_page w answers s.totals;
}

-- A page that is left by an exception keeps the new lookups, and nothing else.
unfoldable pub keep_lookups : Walk → Sync → Sync
keep_lookups w s = record s { tables = record s.tables { lookups = w.lookups } }

-- `results = await client(inputs) if inputs else []`
unfoldable pub ask : Env → ℕ → List Request → Result LookupError (List Answer)
ask env round [] = ok []
ask env round (r ∷ rs) = env.client round (r ∷ rs)

pub data PageEnd : Type 0 where
  raised : Sync → Failure → PageEnd
  saved : Sync → PageEnd

-- The page with its rows: the sync it leaves, and the failure if it raises.
unfoldable pub run_page : Texts → Limits → Env → ℕ → List Item → Sync → PageEnd
unfolding walk_rows start_walk save_page keep_lookups ask
run_page lib limits env round rows s =
    let w =
      walk_rows lib s.state.cycle limits.max_products s.totals.handled rows
        (start_walk s.tables s.state) in
    elim (ask env round w.requests) [
      | err e ↦ raised (keep_lookups w s) (lookup_failed e)
      | ok answers ↦ elim (env.after round) [
        | some f ↦ raised (keep_lookups w s) f
        | none ↦ saved (save_page lib env.now w answers s)
      ]
    ]
