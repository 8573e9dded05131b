-- ===== src/Catalog/Sync/Complete.antt =====
-- catalog_sync.py: what a synchronisation, ended in any way, has done with the sale items, and what
-- a page that fails leaves.
use sales_journal.Prelude.{
  Bool-cases, List, Option, Option-cases, String, arith, inl, inr, is_some, or_else, refl, sym,
  true, ℕ, ◌<◌, ◌∙◌, ◌≡◌,
}
use sales_journal.Catalog.Sync.{Item, Tables, Texts, find_lookup}
use sales_journal.Catalog.Sync.Laws.{walk_rows-Walks}
use sales_journal.Catalog.Sync.Marks.{Rises, Walks-find, Rises-above}
use sales_journal.Catalog.Sync.Page.{
  Env, Failure, Limits, Sync, SyncState, raised, run_page, keep_lookups, start_walk,
}
use sales_journal.Catalog.Sync.Loop.{
  End, finished, are_valid, begin, conclude, new_state, synchronize,
}
use sales_journal.Catalog.Sync.Runs.{IsFaithful, PageRuns, raised-keep, run_page-PageRuns}
use sales_journal.Catalog.Sync.Bounds.{synchronize-Pages, finished_inj}
use sales_journal.Catalog.Sync.Covers.{Covers, IsWhole, Sound, Pages-Sound}

begin-Sound :
    (lib : Texts) (limits : Limits) (env : Env) (t : Tables) (s : SyncState)
    → Rises 0 t.items
    → Covers lib t s
    → Covers lib t (begin env.now t.items s) × IsWhole lib t (begin env.now t.items s)
unfolding begin
begin-Sound lib limits env t s rises covers = elim (Bool-cases s.is_completed) [
  | inl fresh ↦ rw fresh (
    (λ item there le. absurd (omega (arith, Rises-above 0 t.items item rises there))),
    (λ done. cc),
  )
  | inr going ↦ rw going ((λ item there le. covers item there le), λ done. cc)
]

conclude-Sound :
    (lib : Texts) (limits : Limits) (env : Env) (e : End)
    → Sound lib limits env e.sync
    → Sound lib limits env (conclude env e).0
unfolding conclude
conclude-Sound lib limits env e h = elim (Option-cases e.failure) [
  | inl p ↦ rw (p, conclude) h
  | inr (f, p) ↦ rw (p, conclude) h
]

are_valid-batch : (limits : Limits) → are_valid limits ≡ true → 0 < limits.batch_size
unfolding are_valid
are_valid-batch limits h = ground arith

-- If the ids of the sale items are positive and rise along the table, the limits are valid, the client
-- gives one answer for each request and no match by a field that the request lacks, and every item up
-- to the cursor had a lookup of the cycle before, then after a synchronisation, failed or not, every
-- item up to the cursor has one, and if the cycle is complete, every item up to the cycle's end.
pub synchronize-Covers :
    (lib : Texts) (limits : Limits) (env : Env) (t : Tables) (state : Option SyncState) (s : Sync)
    (f : Option Failure)
    → are_valid limits ≡ true
    → IsFaithful env
    → Rises 0 t.items
    → Covers lib t (or_else new_state state)
    → synchronize lib limits env t state ≡ finished s f
    → Covers lib s.tables s.state × IsWhole lib s.tables s.state
synchronize-Covers lib limits env t state s f valid good rises covers h =
    let (e, eq, pages) = synchronize-Pages lib limits env t state valid in
    let (c, w) = begin-Sound lib limits env t (or_else new_state state) rises covers in
    let sound =
      Pages-Sound lib limits env good (are_valid-batch limits valid) pages (rises, c, w) in
    let (_, c', w') = conclude-Sound lib limits env e sound in
    rw (finished_inj (sym h ∙ eq)) (c', w')

-- A page that ends with an exception, from the client or the lock's guard, leaves the checkpoint,
-- the counters, the totals, the sale items and the products as they were, and every lookup that was
-- there: it can only add lookups.
pub run_page-raised :
    (lib : Texts) (limits : Limits) (env : Env) (round : ℕ) (rows : List Item) (s t : Sync)
    (f : Failure)
    → run_page lib limits env round rows s ≡ raised t f
    → (t.state ≡ s.state)
      × (t.totals ≡ s.totals)
      × (t.tables.items ≡ s.tables.items)
      × (t.tables.products ≡ s.tables.products)
      × ((key : String)
          → is_some (find_lookup key s.tables.lookups) ≡ true
          → find_lookup key t.tables.lookups ≡ find_lookup key s.tables.lookups)
unfolding keep_lookups start_walk
run_page-raised lib limits env round rows s t f h =
    let page : PageRuns lib limits env round rows s (raised t f) =
      rw h at (run_page-PageRuns lib limits env round rows s) in
    let walk =
      walk_rows-Walks lib s.state.cycle limits.max_products s.totals.handled rows
        (start_walk s.tables s.state) in
    rw (raised-keep lib limits env page) (
      refl,
      refl,
      refl,
      refl,
      λ key there. Walks-find lib s.state.cycle limits.max_products s.totals.handled key walk there,
    )
