-- ===== src/Catalog/Sync/Laws.antt =====
-- catalog_sync.py: how far the walk over one page goes.
use sales_journal.Prelude.{
  Bool-cases, List, Option, String, [], ap, arith, inl, inr, leb, length, length-append, none, refl,
  some, true, ℕ, ◌+◌, ◌<◌, ◌∷◌, ◌≡◌, ◌≤◌,
}
use sales_journal.Catalog.Client.{Request}
use sales_journal.Catalog.Sync.{
  Item, Texts, Walk, pass_row, take_row, add_lookup, enlist, request_of, is_seen, identity,
  walk_rows,
}

-- The identities that a walk has put on its lists.
abbrev pub taken : Walk → ℕ
taken w = length w.keys + length w.bad

enlist_lem :
    (key : String) (r : Option Request) (w : Walk)
    → (taken (enlist key r w) ≡ taken w + 1)
      × (length (enlist key r w).requests + length w.keys
          ≡ length (enlist key r w).keys + length w.requests)
unfolding enlist
enlist_lem key none w = (omega (arith, length-append w.bad (key ∷ [])), omega arith)
enlist_lem key (some r) w = (
  omega (arith, length-append w.keys (key ∷ [])),
  omega (arith, length-append w.keys (key ∷ []), length-append w.requests (r ∷ [])),
)

enlist-visited :
    (key : String) (r : Option Request) (w : Walk) → (enlist key r w).visited ≡ w.visited
unfolding enlist
enlist-visited key none w = refl
enlist-visited key (some r) w = refl

add_lookup_lem :
    (lib : Texts) (item : Item) (w : Walk)
    → ((add_lookup lib item w).keys ≡ w.keys)
      × ((add_lookup lib item w).bad ≡ w.bad)
      × ((add_lookup lib item w).requests ≡ w.requests)
      × ((add_lookup lib item w).visited ≡ w.visited)
unfolding add_lookup
add_lookup_lem lib item w = ground arith

take_row_lem :
    (lib : Texts) (item : Item) (w : Walk)
    → ((take_row lib item w).visited ≡ w.visited + 1)
      × (taken (take_row lib item w) ≡ taken w + 1)
      × (length (take_row lib item w).requests + length w.keys
          ≡ length (take_row lib item w).keys + length w.requests)
unfolding take_row pass_row
take_row_lem lib item w =
    let added = add_lookup lib item w in
    let key = identity lib item in
    let r = request_of lib item in
    let (k, b, q, v) = add_lookup_lem lib item w in
    let (t, l) = enlist_lem key r added in
    (
      ground (arith, enlist-visited key r added, v),
      omega (arith, t, ap length k, ap length b),
      omega (arith, l, ap length k, ap length q),
    )

-- The walk as a relation: what becomes of each row of the page.
module _ (lib : Texts) (cycle max_products handled : ℕ) where
  pub data Walks : List Item → Walk → Walk → Type 0 where
    over : {w : Walk} → Walks [] w w
    passed :
        {item : Item} {items : List Item} {w w' : Walk}
        → is_seen cycle (identity lib item) w ≡ true
        → Walks items (pass_row item w) w'
        → Walks (item ∷ items) w w'
    enlisted :
        {item : Item} {items : List Item} {w w' : Walk}
        → handled + taken w < max_products
        → Walks items (take_row lib item w) w'
        → Walks (item ∷ items) w w'
    full :
        {item : Item} {items : List Item} {w : Walk}
        → max_products ≤ handled + taken w
        → Walks (item ∷ items) w w

  pub walk_rows-Walks :
      (items : List Item) (w : Walk)
      → Walks items w (walk_rows lib cycle max_products handled items w)
  unfolding walk_rows
  walk_rows-Walks [] w = over
  walk_rows-Walks (item ∷ items) w = elim (Bool-cases (is_seen cycle (identity lib item) w)) [
    | inl seen ↦ rw (seen, walk_rows) (passed seen (walk_rows-Walks items (pass_row item w)))
    | inr fresh ↦ elim (Bool-cases (leb max_products (handled + length w.keys + length w.bad))) [
      | inl none_left ↦ rw (fresh, walk_rows) (rw (none_left, walk_rows) (full (ground arith)))
      | inr room ↦
          rw (fresh, walk_rows)
            (rw (room, walk_rows)
              (enlisted (ground arith) (walk_rows-Walks items (take_row lib item w))))
    ]
  ]

  -- No row is visited twice.
  pub Walks-visited :
      {items : List Item} {w w' : Walk}
      → Walks items w w'
      → (w.visited ≤ w'.visited) × (w'.visited ≤ w.visited + length items)
  unfolding pass_row
  Walks-visited over = (omega arith, omega arith)
  Walks-visited (passed _ rest) = let (a, b) = Walks-visited rest in (omega arith, omega arith)
  Walks-visited (enlisted {item = item} {w = w} _ rest) =
      let (a, b) = Walks-visited rest in
      (omega (arith, take_row_lem lib item w), omega (arith, take_row_lem lib item w))
  Walks-visited (full _) = (omega arith, omega arith)

  -- The lists never hold more than the run may still handle.
  pub Walks-taken :
      {items : List Item} {w w' : Walk}
      → Walks items w w'
      → handled + taken w ≤ max_products
      → handled + taken w' ≤ max_products
  unfolding pass_row
  Walks-taken over h = h
  Walks-taken (passed _ rest) h = Walks-taken rest h
  Walks-taken (enlisted {item = item} {w = w} room rest) h =
      Walks-taken rest (omega (arith, take_row_lem lib item w))
  Walks-taken (full _) h = h

  -- A request for each identity that is to be sent.
  pub Walks-requests :
      {items : List Item} {w w' : Walk}
      → Walks items w w'
      → length w.requests ≡ length w.keys
      → length w'.requests ≡ length w'.keys
  unfolding pass_row
  Walks-requests over h = h
  Walks-requests (passed _ rest) h = Walks-requests rest h
  Walks-requests (enlisted {item = item} {w = w} room rest) h =
      Walks-requests rest (omega (arith, take_row_lem lib item w))
  Walks-requests (full _) h = h

  -- While there is room, the first row of a page is visited.
  pub Walks-progress :
      {item : Item} {items : List Item} {w w' : Walk}
      → Walks (item ∷ items) w w'
      → handled + taken w < max_products
      → w.visited < w'.visited
  unfolding pass_row
  Walks-progress (passed _ rest) h = omega (arith, Walks-visited rest)
  Walks-progress (enlisted {item = item} {w = w} room rest) h =
      omega (arith, take_row_lem lib item w, Walks-visited rest)
  Walks-progress (full none_left) h = absurd (omega arith)
