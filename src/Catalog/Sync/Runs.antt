-- ===== src/Catalog/Sync/Runs.antt =====
-- catalog_sync.py: a run of `synchronize` as a sequence of pages, and why it ends within its limits.
use sales_journal.Prelude.{
  Bool-cases, List, List-cases, Option-cases, Result-cases, [], arith, inl, inr, keep, length, min,
  none, ok, refl, some, suc, true, zero, ℕ, ◌+◌, ◌-◌, ◌<◌, ◌∷◌, ◌≡◌, ◌≤◌, ◌⊎◌,
}
use sales_journal.Catalog.Client.{Request, Answer}
use sales_journal.Catalog.Client.Laws.{Answered, Answered-length}
use sales_journal.Catalog.Sync.{Item, Texts, Walk, walk_rows}
use sales_journal.Catalog.Sync.Laws.{
  walk_rows-Walks, Walks-visited, Walks-taken, Walks-requests, Walks-progress,
}
use sales_journal.Catalog.Sync.Page.{
  is_due, Failure, lookup_failed, Limits, Env, Sync, Totals, PageEnd, raised, saved, first,
  page_rows, start_walk, ask, keep_lookups, save_page, count_page, run_page, complete,
}
use sales_journal.Catalog.Sync.Loop.{End, ended, may_go_on, run_pages}

-- The client answers as its protocol says: what `lookup_products` does.
abbrev pub IsFaithful : Env → Type 0
IsFaithful env =
    (round : ℕ) (rs : List Request) (answers : List Answer)
    → env.client round rs ≡ ok answers
    → Answered rs answers

pub ask-length :
    (env : Env) (round : ℕ) (rs : List Request) (answers : List Answer)
    → IsFaithful env
    → ask env round rs ≡ ok answers
    → length answers ≡ length rs
unfolding ask
ask-length env round [] [] good h = refl
ask-length env round [] (a ∷ as') good h = absurd (ground arith)
ask-length env round (r ∷ rs) answers good h = Answered-length (good round (r ∷ rs) answers h)

PageEnd-cases :
    (p : PageEnd) → ((t : Sync) × (f : Failure) × (p ≡ raised t f)) ⊎ ((t : Sync) × (p ≡ saved t))
PageEnd-cases (raised t f) = inl (t, f, refl)
PageEnd-cases (saved t) = inr (t, refl)

module _ (lib : Texts) (limits : Limits) (env : Env) where
  abbrev pub walked : List Item → Sync → Walk
  walked rows s =
      walk_rows lib s.state.cycle limits.max_products s.totals.handled rows
        (start_walk s.tables s.state)

  -- A page is left by an exception, or stores one answer for each request.
  pub data PageRuns (round : ℕ) (rows : List Item) (s : Sync) : PageEnd → Type 0 where
    thrown : (f : Failure) → PageRuns round rows s (raised (keep_lookups (walked rows s) s) f)
    stored :
        (answers : List Answer)
        → ask env round (walked rows s).requests ≡ ok answers
        → PageRuns round rows s (saved (save_page lib env.now (walked rows s) answers s))

  pub run_page-PageRuns :
      (round : ℕ) (rows : List Item) (s : Sync)
      → PageRuns round rows s (run_page lib limits env round rows s)
  unfolding run_page
  run_page-PageRuns round rows s = elim (Result-cases (ask env round (walked rows s).requests)) [
    | inl (e, p) ↦ rw (p, run_page) (thrown (lookup_failed e))
    | inr (answers, p) ↦ elim (Option-cases (env.after round)) [
      | inl q ↦ rw (p, run_page) (rw (q, run_page) (stored answers p))
      | inr (f, q) ↦ rw (p, run_page) (rw (q, run_page) (thrown f))
    ]
  ]

  -- An exception leaves the state, the totals and the products as the page found them.
  pub raised-keep :
      {round : ℕ} {rows : List Item} {s t : Sync} {f : Failure}
      → PageRuns round rows s (raised t f)
      → t ≡ keep_lookups (walked rows s) s
  raised-keep (thrown f) = refl

  -- The loop from a round on. A page has rows, and is run only while the limits allow it.
  pub data Pages : ℕ → Sync → End → Type 0 where
    held : {round : ℕ} {s : Sync} → Pages round s (ended s round none)
    blocked : {round : ℕ} {s : Sync} (f : Failure) → Pages round s (ended s round (some f))
    exhausted :
        {round : ℕ} {s : Sync}
        → may_go_on limits env round s.totals ≡ true
        → page_rows limits s.totals.scanned s.tables s.state ≡ []
        → Pages round s (ended (record s { state = complete env.now s.state }) round none)
    broken :
        {round : ℕ} {s t : Sync} {i : Item} {is : List Item} {f : Failure}
        → page_rows limits s.totals.scanned s.tables s.state ≡ i ∷ is
        → PageRuns round (i ∷ is) s (raised t f)
        → Pages round s (ended t round (some f))
    closing :
        {round : ℕ} {s t : Sync} {i : Item} {is : List Item}
        → may_go_on limits env round s.totals ≡ true
        → page_rows limits s.totals.scanned s.tables s.state ≡ i ∷ is
        → PageRuns round (i ∷ is) s (saved t)
        → Pages round s (ended t round none)
    further :
        {round : ℕ} {s t : Sync} {i : Item} {is : List Item} {e : End}
        → may_go_on limits env round s.totals ≡ true
        → page_rows limits s.totals.scanned s.tables s.state ≡ i ∷ is
        → PageRuns round (i ∷ is) s (saved t)
        → Pages (round + 1) t e
        → Pages round s e

  length-first : (n : ℕ) (is : List Item) → length (first n is) ≤ n
  unfolding first
  length-first zero is = omega arith
  length-first (suc n) [] = omega arith
  length-first (suc n) (i ∷ is) = omega (arith, length-first n is)

  page_rows-length :
      (scanned : ℕ) (s : Sync)
      → length (page_rows limits scanned s.tables s.state) ≤ limits.max_scan_rows - scanned
  unfolding page_rows
  page_rows-length scanned s =
      let n = min limits.batch_size (limits.max_scan_rows - scanned) in
      let short = length-first n (keep (is_due s.state) s.tables.items) in grind (arith, short)

  -- A page visits at least one row, and none twice.
  stored-scanned :
      {round : ℕ} {i : Item} {is : List Item} {s t : Sync}
      → s.totals.handled < limits.max_products
      → PageRuns round (i ∷ is) s (saved t)
      → (s.totals.scanned < t.totals.scanned)
        × (t.totals.scanned ≤ s.totals.scanned + length (i ∷ is))
  unfolding save_page count_page start_walk
  stored-scanned {i = i} {is = is} {s = s} room (stored answers e) =
      let cycle = s.state.cycle in
      let used = s.totals.handled in
      let walk =
        walk_rows-Walks lib cycle limits.max_products used (i ∷ is) (start_walk s.tables s.state) in
      let moved = Walks-progress lib cycle limits.max_products used walk (omega arith) in
      let visits = Walks-visited lib cycle limits.max_products used walk in
      (omega arith, omega arith)

  stored-handled :
      {round : ℕ} {i : Item} {is : List Item} {s t : Sync}
      → IsFaithful env
      → s.totals.handled < limits.max_products
      → PageRuns round (i ∷ is) s (saved t)
      → t.totals.handled ≤ limits.max_products
  unfolding save_page count_page start_walk
  stored-handled {round = round} {i = i} {is = is} {s = s} good room (stored answers e) =
      let cycle = s.state.cycle in
      let used = s.totals.handled in
      let w = walked (i ∷ is) s in
      let walk =
        walk_rows-Walks lib cycle limits.max_products used (i ∷ is) (start_walk s.tables s.state) in
      let full = ask-length env round w.requests answers good e in
      let fits_still = Walks-taken lib cycle limits.max_products used walk (omega arith) in
      let sent = Walks-requests lib cycle limits.max_products used walk refl in omega arith

  pub go_on-room :
      (round : ℕ) (c : Totals)
      → may_go_on limits env round c ≡ true
      → (c.handled < limits.max_products) × (c.scanned < limits.max_scan_rows)
  unfolding may_go_on
  go_on-room round c h = (ground arith, ground arith)

  -- With a round of fuel for each row that may still be scanned, and one more, the loop ends.
  pub run_pages-Pages :
      (fuel round : ℕ) (s : Sync)
      → limits.max_scan_rows < fuel + s.totals.scanned
      → s.totals.scanned ≤ limits.max_scan_rows
      → (e : End) × (run_pages lib limits env fuel round s ≡ some e) × Pages round s e
  unfolding run_pages
  run_pages-Pages zero round s h k = absurd (omega arith)
  run_pages-Pages (suc fuel) round s h k = elim (Bool-cases (may_go_on limits env round s.totals)) [
    | inr stop ↦ (ended s round none, rw (stop, run_pages) (refl), held)
    | inl go ↦ elim (Option-cases (env.before round)) [
      | inr (f, q) ↦
          (ended s round (some f), rw (go, run_pages) (rw (q, run_pages) (refl)), blocked f)
      | inl q ↦ elim (List-cases (page_rows limits s.totals.scanned s.tables s.state)) [
        | inl empty ↦ (
          ended (record s { state = complete env.now s.state }) round none,
          rw (go, run_pages) (rw q (rw empty (refl))),
          exhausted go empty,
        )
        | inr (i, is, rows) ↦ elim (PageEnd-cases (run_page lib limits env round (i ∷ is) s)) [
          | inl (t, f, p) ↦ (
            ended t round (some f),
            rw (go, run_pages) (rw q (rw rows (rw p (refl)))),
            broken rows (rw p at (run_page-PageRuns round (i ∷ is) s)),
          )
          | inr (t, p) ↦
              let page : PageRuns round (i ∷ is) s (saved t) =
                rw p at (run_page-PageRuns round (i ∷ is) s) in
              elim (Bool-cases t.state.is_completed) [
                | inl closed ↦ (
                  ended t round none,
                  rw (go, run_pages) (rw q (rw rows (rw p (simp closed)))),
                  closing go rows page,
                )
                | inr open_still ↦
                    let (more, room) = stored-scanned (go_on-room round s.totals go).0 page in
                    let short : length (i ∷ is) ≤ limits.max_scan_rows - s.totals.scanned =
                      rw rows at (page_rows-length s.totals.scanned s) in
                    let (e, eq, pages) =
                      run_pages-Pages fuel (round + 1) t (omega arith) (omega arith) in
                    (
                      e,
                      rw (go, run_pages) (rw q (rw rows (rw p (simp open_still eq)))),
                      further go rows page pages,
                    )
              ]
        ]
      ]
    ]
  ]

  abbrev WithinLimits : Totals → Type 0
  WithinLimits c = (c.handled ≤ limits.max_products) × (c.scanned ≤ limits.max_scan_rows)

  saved-within :
      {round : ℕ} {s t : Sync} {i : Item} {is : List Item}
      → IsFaithful env
      → may_go_on limits env round s.totals ≡ true
      → page_rows limits s.totals.scanned s.tables s.state ≡ i ∷ is
      → PageRuns round (i ∷ is) s (saved t)
      → WithinLimits t.totals
  saved-within {round = round} {s = s} {i = i} {is = is} good go rows page =
      let (room, left) = go_on-room round s.totals go in
      let (_, visits) = stored-scanned room page in
      let short : length (i ∷ is) ≤ limits.max_scan_rows - s.totals.scanned =
        rw rows at (page_rows-length s.totals.scanned s) in
      (stored-handled good room page, omega arith)

  pub Pages-within :
      {round : ℕ} {s : Sync} {e : End}
      → IsFaithful env
      → Pages round s e
      → WithinLimits s.totals
      → WithinLimits e.sync.totals
  unfolding keep_lookups
  Pages-within good held h = h
  Pages-within good (blocked f) h = h
  Pages-within good (exhausted _ _) h = h
  Pages-within good (broken _ page) h = rw (raised-keep page) h
  Pages-within good (closing go rows page) h = saved-within good go rows page
  Pages-within good (further go rows page rest) h =
      Pages-within good rest (saved-within good go rows page)
