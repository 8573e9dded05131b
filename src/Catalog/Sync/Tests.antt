-- ===== src/Catalog/Sync/Tests.antt =====
-- Runs of `synchronize` at small tables, and instances of its theorems.
use sales_journal.Prelude.{
  List, Option, Result, String, [], arith, err, false, is_some, none, ok, or_else, refl, some, suc,
  true, zero, ℕ, ◌∷◌, ◌≡◌, ◌≤◌,
}
use sales_journal.Catalog.Client.{
  Request, answers_of, is_foreign, any_foreign, is_misnumbered, check_reply, attempt_reply,
  attempt_from, validate_input, by_code, Attributes, LookupError, Reply, failed_with,
  lookup_products, matched, not_found,
}
use sales_journal.Catalog.Sync.{
  find_lookup, take_row, add_lookup, enlist, pass_row, is_seen, Item, Tables, Texts,
}
use sales_journal.Catalog.Sync.Page.{
  run_page, page_rows, Failure, lookup_failed, raised, saved, Env, Limits, Sync,
}
use sales_journal.Catalog.Client.Laws.{
  Answered, Replied, lookup_products-in_order, lookup_products-Answered,
}
use sales_journal.Catalog.Sync.Runs.{IsFaithful}
use sales_journal.Catalog.Sync.Marks.{Rises, Rises-above}
use sales_journal.Catalog.Sync.Bounds.{synchronize-finished, synchronize-within}
use sales_journal.Catalog.Sync.Covers.{Covers, IsWhole}
use sales_journal.Catalog.Sync.Complete.{synchronize-Covers, run_page-raised}
use sales_journal.Catalog.Sync.Loop.{
  are_valid, run_pages, no_totals, finished, out_of_fuel, invalid_limits, synchronize, new_state,
}

abbrev lib : Texts
lib = record {
  strip = λ s. s;
  casefold = λ s. s;
  digest = λ c a. or_else (or_else "" a) c;
  image_url = λ u. u;
}

abbrev item : ℕ → String → Item
item n c = record { id = n; code = some c; article = none }

-- Two identities, the first one in two sale items, and an item without any.
abbrev tables : Tables
tables = record {
  items = item 3 "a" ∷ item 5 "b" ∷ item 8 "a" ∷ item 9 "" ∷ [];
  lookups = [];
  products = [];
}

abbrev limits : Limits
limits = record { max_products = 100; max_scan_rows = 50; batch_size = 4 }

abbrev attributes : Attributes
attributes = record {
  code = "b";
  article = none;
  manufacturer = none;
  brand = none;
  category = none;
  subcategory = none;
  category_id = none;
  legacy_category = none;
  material = none;
  horeca = false;
}

abbrev reply : Reply
reply = record {
  schema_version = 1;
  items =
      record { request_index = 0; answer = not_found }
      ∷ record {
        request_index = 1;
        answer =
            matched by_code (record {
              product_id = 7;
              attributes = attributes;
              image_url = none;
              updated_at = 50;
            });
      }
      ∷ [];
}

abbrev network : ℕ → Result LookupError Reply
network zero = err (record { error_code = "http_503"; retryable = true })
network (suc n) = ok reply

abbrev env : Env
env = record {
  now = 60;
  is_stopped = λ n. false;
  before = λ n. none;
  client = λ n rs. lookup_products network 3 rs;
  after = λ n. none;
}

-- The same run with a client that is out of reach.
abbrev offline : Env
offline = record env { client = λ n rs. err (failed_with "transport_error") }

abbrev result : Env → Sync
result e = elim (synchronize lib limits e tables none) [
  | finished s f ↦ s
  | out_of_fuel ↦ record { tables = tables; state = new_state; totals = no_totals }
  | invalid_limits ↦ record { tables = tables; state = new_state; totals = no_totals }
]

scanned_all : (result env).totals.scanned ≡ 4
unfolding synchronize validate_input lookup_products attempt_from attempt_reply check_reply
    is_misnumbered any_foreign is_foreign run_pages page_rows run_page is_seen pass_row enlist
    add_lookup answers_of take_row
scanned_all = refl

two_answers : (result env).state.processed ≡ 3
unfolding synchronize validate_input lookup_products attempt_from attempt_reply check_reply
    is_misnumbered any_foreign is_foreign run_pages page_rows run_page is_seen pass_row enlist
    add_lookup answers_of take_row
two_answers = refl

cursor_at_end : (result env).state.cursor ≡ 9
unfolding synchronize validate_input lookup_products attempt_from attempt_reply check_reply
    is_misnumbered any_foreign is_foreign run_pages page_rows run_page is_seen pass_row enlist
    add_lookup answers_of take_row
cursor_at_end = refl

offline_cursor : (result offline).state.cursor ≡ 0
unfolding synchronize validate_input lookup_products attempt_from attempt_reply check_reply
    is_misnumbered any_foreign is_foreign run_pages page_rows run_page is_seen pass_row enlist
    add_lookup answers_of take_row
offline_cursor = refl

offline_errors : (result offline).state.errors ≡ 1
unfolding synchronize validate_input lookup_products attempt_from attempt_reply check_reply
    is_misnumbered any_foreign is_foreign run_pages page_rows run_page is_seen pass_row enlist
    add_lookup answers_of take_row
offline_errors = refl

abbrev is_faithful : IsFaithful env
is_faithful n rs answers h = lookup_products-Answered network 3 rs answers h

abbrev run : synchronize lib limits env tables none ≡ finished (result env) none
unfolding synchronize validate_input lookup_products attempt_from attempt_reply check_reply
    is_misnumbered any_foreign is_foreign run_pages page_rows run_page is_seen pass_row enlist
    add_lookup answers_of take_row
run = refl

abbrev ids_rise : Rises 0 tables.items
ids_rise = omega arith

-- A new cycle starts at the cursor zero, below every id.
abbrev nothing_before : Covers lib tables (or_else new_state none)
unfolding new_state
nothing_before i there le = absurd (omega (arith, Rises-above 0 tables.items i ids_rise there))

abbrev two_requests : List Request
two_requests =
    record { code = some "a"; article = none } ∷ record { code = some "b"; article = none } ∷ []

lookup_products-in_order_example :
    Answered two_requests (answers_of reply.items) × Replied network 0 2 (answers_of reply.items)
unfolding lookup_products attempt_from attempt_reply check_reply is_misnumbered any_foreign
    is_foreign answers_of
lookup_products-in_order_example =
    lookup_products-in_order network 3 two_requests (answers_of reply.items) refl

synchronize-finished_example :
    (s : Sync) × (f : Option Failure) × (synchronize lib limits env tables none ≡ finished s f)
unfolding are_valid
synchronize-finished_example = synchronize-finished lib limits env tables none refl

synchronize-within_example :
    ((result env).totals.handled ≤ 100) × ((result env).totals.scanned ≤ 50)
unfolding are_valid
synchronize-within_example =
    synchronize-within lib limits env tables none refl (result env) none is_faithful run

synchronize-Covers_example :
    Covers lib (result env).tables (result env).state
    × IsWhole lib (result env).tables (result env).state
unfolding are_valid
synchronize-Covers_example =
    synchronize-Covers lib limits env tables none (result env) none refl is_faithful ids_rise
      nothing_before run

abbrev start : Sync
start = record { tables = tables; state = new_state; totals = no_totals }

abbrev left : Sync
left = elim (run_page lib limits offline 0 tables.items start) [ raised t f ↦ t | saved t ↦ t ]

run_page-raised_example :
    (left.state ≡ new_state)
    × (left.totals ≡ no_totals)
    × (left.tables.items ≡ tables.items)
    × (left.tables.products ≡ [])
    × ((key : String)
        → is_some (find_lookup key []) ≡ true
        → find_lookup key left.tables.lookups ≡ find_lookup key [])
unfolding validate_input lookup_products attempt_from attempt_reply check_reply is_misnumbered
    any_foreign is_foreign run_page is_seen pass_row enlist add_lookup answers_of take_row new_state
    no_totals find_lookup
run_page-raised_example =
    run_page-raised lib limits offline 0 tables.items start left
      (lookup_failed (failed_with "transport_error")) refl
