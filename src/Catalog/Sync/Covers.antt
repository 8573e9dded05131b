-- ===== src/Catalog/Sync/Covers.antt =====
-- catalog_sync.py: no sale item up to the cursor is without a lookup of the cycle.
use sales_journal.Prelude.{
  All, Bool, Bool-cases, List, String, [], arith, inl, inr, keep, leb, leb→le, length, min, refl,
  suc, true, zero, ℕ, ◌-◌, ◌<◌, ◌||◌, ◌∙◌, ◌∷◌, ◌≡◌, ◌≢◌, ◌≤◌, ◌⊎◌,
}
use mathlib.Core.Path.{subst}
use sales_journal.Catalog.Client.{Answer}
use sales_journal.Catalog.Sync.{Item, Tables, Texts, Walk, identity, is_seen}
use sales_journal.Catalog.Sync.Laws.{walk_rows-Walks, Walks-requests}
use sales_journal.Catalog.Sync.Marks.{
  Has, Rises, Rises-above, Walks-at, Walks-checkpoint, Walks-current, Walks-seen, is_current,
}
use sales_journal.Catalog.Sync.Saved.{save-current}
use sales_journal.Catalog.Sync.Page.{
  Env, Failure, Limits, Sync, SyncState, advance, complete, first, is_due, keep_lookups, page_rows,
  raised, saved, save_page, start_walk,
}
use sales_journal.Catalog.Sync.Loop.{End}
use sales_journal.Catalog.Sync.Runs.{
  IsFaithful, PageRuns, stored, ask-length, walked, go_on-room, raised-keep, Pages, held, blocked,
  exhausted, broken, closing, further,
}

-- Every sale item up to the cursor has a lookup of the cycle.
abbrev pub Covers : Texts → Tables → SyncState → Type 0
Covers lib t s =
    (item : Item)
    → Has item t.items
    → item.id ≤ s.cursor
    → is_current s.cycle (identity lib item) t.lookups ≡ true

-- A cycle that is complete has a lookup for every sale item up to its end.
abbrev pub IsWhole : Texts → Tables → SyncState → Type 0
IsWhole lib t s =
    s.is_completed ≡ true
    → (item : Item) → Has item t.items
    → item.id ≤ s.upper_id
    → is_current s.cycle (identity lib item) t.lookups ≡ true

Rises-weaken : (low high : ℕ) (is : List Item) → low ≤ high → Rises high is → Rises low is
Rises-weaken low high [] h r = tt
Rises-weaken low high (i ∷ is) h (a, r) = (omega arith, r)

Rises-keep : (p : Item → Bool) (low : ℕ) (is : List Item) → Rises low is → Rises low (keep p is)
Rises-keep p low [] r = tt
Rises-keep p low (i ∷ is) (a, r) = elim (Bool-cases (p i)) [
  | inl h ↦ rw h (a, Rises-keep p i.id is r)
  | inr h ↦ rw h (Rises-weaken low i.id (keep p is) (omega arith) (Rises-keep p i.id is r))
]

Rises-first : (n low : ℕ) (is : List Item) → Rises low is → Rises low (first n is)
unfolding first
Rises-first zero low is r = tt
Rises-first (suc n) low [] r = tt
Rises-first (suc n) low (i ∷ is) (a, r) = (a, Rises-first n i.id is r)

-- The rows that are due lie above the cursor.
Rises-due :
    (s : SyncState) (low : ℕ) (is : List Item) → Rises low is → Rises s.cursor (keep (is_due s) is)
unfolding is_due
Rises-due s low [] r = tt
Rises-due s low (i ∷ is) (a, r) = elim (Bool-cases (is_due s i)) [
  | inl h ↦ rw h (ground arith, Rises-keep (is_due s) i.id is r)
  | inr h ↦ rw h (Rises-due s i.id is r)
]

Has-keep :
    (p : Item → Bool) (item : Item) (is : List Item)
    → p item ≡ true
    → Has item is
    → Has item (keep p is)
Has-keep p item [] h there = there
Has-keep p item (i ∷ is) h (inl e) = rw e (rw h (inl refl))
Has-keep p item (i ∷ is) h (inr there) = elim (Bool-cases (p i)) [
  | inl yes_i ↦ rw yes_i (inr (Has-keep p item is h there))
  | inr no_i ↦ rw no_i (Has-keep p item is h there)
]

-- A row is on the page, or the page ends before it.
Has-first :
    (n low : ℕ) (is : List Item) (item : Item)
    → Rises low is
    → Has item is
    → Has item (first n is) ⊎ All (λ (r : Item). r.id < item.id) (first n is)
unfolding first
Has-first zero low is item r there = inr tt
Has-first (suc n) low [] item r there = absurd there
Has-first (suc n) low (i ∷ is) item (a, r) (inl e) = inl (inl e)
Has-first (suc n) low (i ∷ is) item (a, r) (inr there) = elim (Has-first n i.id is item r there) [
  | inl on ↦ inl (inr on)
  | inr beyond ↦ inr (Rises-above i.id is item r there, beyond)
]

first-not_empty : (n : ℕ) (is : List Item) (item : Item) → 0 < n → Has item is → first n is ≢ []
unfolding first
first-not_empty zero is item h there e = absurd (omega arith)
first-not_empty (suc n) [] item h there e = there
first-not_empty (suc n) (i ∷ is) item h there e = cc

All-keep :
    (P : Item → Type 0) (p : Item → Bool)
    → ((i : Item) → p i ≡ true → P i)
    → (is : List Item) → All P (keep p is)
All-keep P p h [] = tt
All-keep P p h (i ∷ is) = elim (Bool-cases (p i)) [
  | inl t ↦ rw t (h i t, All-keep P p h is)
  | inr f ↦ rw f (All-keep P p h is)
]

All-first : (P : Item → Type 0) (n : ℕ) (is : List Item) → All P is → All P (first n is)
unfolding first
All-first P zero is h = tt
All-first P (suc n) [] h = tt
All-first P (suc n) (i ∷ is) (a, h) = (a, All-first P n is h)

advance_lem :
    (now : ℕ) (w : Walk) (answers : List Answer) (s : SyncState)
    → ((advance now w answers s).cursor ≡ w.checkpoint)
      × ((advance now w answers s).cycle ≡ s.cycle)
      × ((advance now w answers s).upper_id ≡ s.upper_id)
      × ((advance now w answers s).is_completed ≡ (leb s.upper_id w.checkpoint || s.is_completed))
unfolding advance complete
advance_lem now w answers s = ground arith

module _ (lib : Texts) (limits : Limits) (env : Env) where
  abbrev rows_of : Sync → List Item
  rows_of s = page_rows limits s.totals.scanned s.tables s.state

  -- The checkpoint of a page is the cursor, or not above the cycle's end.
  checkpoint-le :
      (s : Sync)
      → s.state.cursor < (walked lib limits env (rows_of s) s).checkpoint
      → (walked lib limits env (rows_of s) s).checkpoint ≤ s.state.upper_id
  unfolding start_walk page_rows is_due
  checkpoint-le s =
      let n = min limits.batch_size (limits.max_scan_rows - s.totals.scanned) in
      let P : ℕ → Type 0 = λ (c : ℕ). s.state.cursor < c → c ≤ s.state.upper_id in
      Walks-at lib s.state.cycle limits.max_products s.totals.handled P
        (walk_rows-Walks lib s.state.cycle limits.max_products s.totals.handled (rows_of s)
          (start_walk s.tables s.state))
        (λ h. absurd (omega arith))
        (All-first (λ (r : Item). P r.id) n (keep (is_due s.state) s.tables.items)
          (All-keep (λ (r : Item). P r.id) (is_due s.state) (λ i h _. ground arith) s.tables.items))

  -- A sale item up to the page's checkpoint was seen.
  walked-seen :
      (s : Sync) (item : Item)
      → Covers lib s.tables s.state
      → Rises 0 s.tables.items
      → Has item s.tables.items
      → item.id ≤ (walked lib limits env (rows_of s) s).checkpoint
      → is_seen s.state.cycle (identity lib item) (walked lib limits env (rows_of s) s) ≡ true
  unfolding start_walk page_rows is_seen is_due
  walked-seen s item covers rises there le =
      let n = min limits.batch_size (limits.max_scan_rows - s.totals.scanned) in
      let m = limits.max_products in
      let w = walked lib limits env (rows_of s) s in
      let due = keep (is_due s.state) s.tables.items in
      let walk =
        walk_rows-Walks lib s.state.cycle m s.totals.handled (rows_of s)
          (start_walk s.tables s.state) in
      elim (Bool-cases (leb item.id s.state.cursor)) [
        | inl old ↦
            let before = covers item there (leb→le item.id s.state.cursor old) in
            Walks-seen s.state.cycle lib m s.totals.handled (identity lib item) walk (ground arith)
        | inr fresh ↦
            let inside = checkpoint-le s (ground arith) in
            let is_there : is_due s.state item ≡ true = ground arith in
            let due_rises = Rises-due s.state 0 s.tables.items rises in
            elim (Has-first n s.state.cursor due item due_rises
              (Has-keep (is_due s.state) item s.tables.items is_there there)) [
                | inl on ↦
                    Walks-checkpoint lib s.state.cycle m s.totals.handled walk
                      (Rises-first n s.state.cursor due due_rises) item on le
                | inr beyond ↦
                    let below =
                      Walks-at lib s.state.cycle m s.totals.handled (λ (c : ℕ). c < item.id) walk
                        (ground arith) beyond in
                    absurd (omega arith)
              ]
      ]

  -- With no row left, the cursor has passed every item of the cycle.
  exhausted-whole :
      (s : Sync) (item : Item)
      → Rises 0 s.tables.items
      → Covers lib s.tables s.state
      → Has item s.tables.items
      → item.id ≤ s.state.upper_id
      → 0 < limits.batch_size
      → s.totals.scanned < limits.max_scan_rows
      → rows_of s ≡ []
      → is_current s.state.cycle (identity lib item) s.tables.lookups ≡ true
  unfolding page_rows is_due
  exhausted-whole s item rises covers there le some_rows some_left empty =
      elim (Bool-cases (leb item.id s.state.cursor)) [
        | inl old ↦ covers item there (leb→le item.id s.state.cursor old)
        | inr fresh ↦ absurd (
            first-not_empty (min limits.batch_size (limits.max_scan_rows - s.totals.scanned))
              (keep (is_due s.state) s.tables.items) item (grind arith)
              (Has-keep (is_due s.state) item s.tables.items (ground arith) there) empty)
      ]

  start-requests :
      (s : Sync)
      → length (start_walk s.tables s.state).requests ≡ length (start_walk s.tables s.state).keys
  unfolding start_walk
  start-requests s = refl

  start-seen :
      (s : Sync) (key : String)
      → is_current s.state.cycle key s.tables.lookups ≡ true
      → is_seen s.state.cycle key (start_walk s.tables s.state) ≡ true
  unfolding start_walk is_seen
  start-seen s key h = ground arith

  -- The facts that each page keeps.
  abbrev pub Sound : Sync → Type 0
  Sound s = Rises 0 s.tables.items × Covers lib s.tables s.state × IsWhole lib s.tables s.state

  raised-Sound :
      {round : ℕ} {rows : List Item} {s t : Sync} {f : Failure}
      → PageRuns lib limits env round rows s (raised t f)
      → Sound s
      → Sound t
  unfolding keep_lookups start_walk
  raised-Sound {rows = rows} {s = s} page (rises, covers, whole) =
      let walk =
        walk_rows-Walks lib s.state.cycle limits.max_products s.totals.handled rows
          (start_walk s.tables s.state) in
      let keeps =
        λ (item : Item) (h : is_current s.state.cycle (identity lib item) s.tables.lookups ≡ true).
          Walks-current lib s.state.cycle limits.max_products s.totals.handled (identity lib item)
            walk h in
      rw (raised-keep lib limits env page) (
        rises,
        (λ item there le. keeps item (covers item there le)),
        λ done item there le. keeps item (whole done item there le),
      )

  stored-Sound :
      {round : ℕ} {rows : List Item} {s t : Sync}
      → IsFaithful env
      → rows_of s ≡ rows
      → PageRuns lib limits env round rows s (saved t)
      → Sound s
      → Sound t
  unfolding save_page
  stored-Sound {round = round} {rows = rows} {s = s} good eq (stored answers asked)
        (rises, covers, whole) =
      let w = walked lib limits env rows s in
      let c = s.state.cycle in
      let walk =
        walk_rows-Walks lib c limits.max_products s.totals.handled rows
          (start_walk s.tables s.state) in
      let sent =
        Walks-requests lib c limits.max_products s.totals.handled walk (start-requests s) in
      let full = ask-length env round w.requests answers good asked ∙ sent in
      let (cursor, cycle, upper, closed) = advance_lem env.now w answers s.state in
      let saves = λ (item : Item) (h : is_seen c (identity lib item) w ≡ true).
        save-current env.now c (identity lib item) w answers full h in
      let reached = λ (item : Item) (there : Has item s.tables.items) (le : item.id ≤ w.checkpoint).
        saves item (
          subst
            (λ rs.
              item.id ≤ (walked lib limits env rs s).checkpoint
              → is_seen c (identity lib item) (walked lib limits env rs s) ≡ true)
            eq (walked-seen s item covers rises there) le) in
      (
        rises,
        (λ item there le. rw cycle (reached item there (rw cursor at le))),
        λ done item there le. rw cycle (elim (Bool-cases (leb s.state.upper_id w.checkpoint)) [
          | inl past ↦ reached item there (ground arith)
          | inr within ↦ saves item (
              Walks-seen c lib limits.max_products s.totals.handled (identity lib item) walk (
                start-seen s (identity lib item)
                  (whole (ground arith) item there (rw upper at le))))
        ]),
      )

  -- A run of pages keeps the facts.
  pub Pages-Sound :
      {round : ℕ} {s : Sync} {e : End}
      → IsFaithful env
      → 0 < limits.batch_size
      → Pages lib limits env round s e
      → Sound s
      → Sound e.sync
  unfolding complete
  Pages-Sound good m held h = h
  Pages-Sound good m (blocked f) h = h
  Pages-Sound good m (exhausted {round = round} {s = s} go empty) (rises, covers, whole) = (
    rises,
    covers,
    λ _ item there le.
        exhausted-whole s item rises covers there le m
          (go_on-room lib limits env round s.totals go).1 empty,
  )
  Pages-Sound good m (broken _ page) h = raised-Sound page h
  Pages-Sound good m (closing _ rows page) h = stored-Sound good rows page h
  Pages-Sound good m (further _ rows page rest) h =
      Pages-Sound good m rest (stored-Sound good rows page h)
