-- ===== src/Catalog/Sync/Bounds.antt =====
-- catalog_sync.py: `synchronize` ends, and keeps its limits.
use sales_journal.Prelude.{Option, ap, arith, or_else, refl, sym, true, ◌+◌, ◌∙◌, ◌≡◌, ◌≤◌}
use sales_journal.Catalog.Sync.{Tables, Texts}
use sales_journal.Catalog.Sync.Page.{Env, Failure, Limits, Sync, SyncState}
use sales_journal.Catalog.Sync.Loop.{
  End, finished, are_valid, begin, conclude, new_state, no_totals, outcome_of, synchronize,
}
use sales_journal.Catalog.Sync.Runs.{IsFaithful, Pages, Pages-within, run_pages-Pages}

pub finished_inj : {s s' : Sync} {f f' : Option Failure} → finished s f ≡ finished s' f' → s ≡ s'
finished_inj h = cc

module _ (lib : Texts) (limits : Limits) (env : Env) (t : Tables) (state : Option SyncState)
    (valid : are_valid limits ≡ true) where
  abbrev pub begun : Sync
  begun = record {
    tables = t;
    state = begin env.now t.items (or_else new_state state);
    totals = no_totals;
  }

  -- The pages behind a result.
  pub synchronize-Pages :
      (e : End) × (synchronize lib limits env t state
        ≡ finished (conclude env e).0 (conclude env e).1)
      × Pages lib limits env 0 begun e
  unfolding synchronize outcome_of no_totals
  synchronize-Pages =
      let (e, eq, pages) =
        run_pages-Pages lib limits env (limits.max_scan_rows + 1) 0 begun (omega arith)
          (omega arith) in
      (e, rw valid (rw eq (refl)), pages)

  -- With valid limits a synchronisation ends with a result, whatever the tables, the client and the
  -- stop event do: its fuel does not run out.
  pub synchronize-finished :
      (s : Sync) × (f : Option Failure) × (synchronize lib limits env t state ≡ finished s f)
  synchronize-finished =
      let (e, eq, _) = synchronize-Pages in ((conclude env e).0, (conclude env e).1, eq)

  conclude-totals : (e : End) → (conclude env e).0.totals ≡ e.sync.totals
  unfolding conclude
  conclude-totals e = ground arith

  -- With valid limits and a client that gives one answer for each request and no match by a field
  -- that the request lacks, a synchronisation handles at most as many identities and scans at most as
  -- many rows as its limits say, also if it fails.
  pub synchronize-within :
      (s : Sync) (f : Option Failure)
      → IsFaithful env
      → synchronize lib limits env t state ≡ finished s f
      → (s.totals.handled ≤ limits.max_products) × (s.totals.scanned ≤ limits.max_scan_rows)
  unfolding no_totals
  synchronize-within s f good h =
      let (e, eq, pages) = synchronize-Pages in
      let same = finished_inj (sym h ∙ eq) ∙ refl in
      let (a, b) = Pages-within lib limits env good pages (omega arith, omega arith) in
      let kept = ap (λ (x : Sync). x.totals) same ∙ conclude-totals e in (rw kept a, rw kept b)
