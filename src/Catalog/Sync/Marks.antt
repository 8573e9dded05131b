-- ===== src/Catalog/Sync/Marks.antt =====
-- catalog_sync.py: the identities that a page has seen, and that their lookups get the cycle.
use sales_journal.Prelude.{
  All, Any, Bool, Bool-cases, List, Option, String, [], arith, eq_refl, holds, inl, inr, is_some,
  none, refl, some, str_eq, true, ℕ, ◌++◌, ◌<◌, ◌==◌, ◌∙◌, ◌∷◌, ◌≡◌, ◌≤◌,
}
use sales_journal.Catalog.Client.{Request}
use sales_journal.Catalog.Sync.Laws.{Walks, over, passed, enlisted, full}
use sales_journal.Catalog.Sync.{
  request_of, take_row, pass_row, Item, LookupRow, Texts, Walk, add_lookup, enlist, find_lookup,
  identity, is_listed, is_seen, new_lookup,
}

-- The lookup of an identity is there, and of this cycle.
abbrev pub is_current : ℕ → String → List LookupRow → Bool
is_current cycle key ls = holds (λ (l : LookupRow). l.cycle == cycle) (find_lookup key ls)

find_lookup-append :
    (key : String) (ls more : List LookupRow)
    → is_some (find_lookup key ls) ≡ true
    → find_lookup key (ls ++ more) ≡ find_lookup key ls
unfolding find_lookup
find_lookup-append key [] more h = absurd (ground arith)
find_lookup-append key (l ∷ ls) more h = elim (Bool-cases (str_eq key l.identity)) [
  | inl same ↦ rw (same, find_lookup) (refl)
  | inr other ↦ rw (other, find_lookup) (find_lookup-append key ls more (ground arith))
]

find_lookup-new :
    (l : LookupRow) (ls : List LookupRow) → is_some (find_lookup l.identity (ls ++ l ∷ [])) ≡ true
unfolding find_lookup
find_lookup-new l [] = ground (arith, eq_refl l.identity)
find_lookup-new l (x ∷ ls) = ground (arith, find_lookup-new l ls)

is_listed-append :
    (key : String) (xs ys : List String) → is_listed key xs ≡ true → is_listed key (xs ++ ys) ≡ true
unfolding is_listed
is_listed-append key [] ys h = absurd (ground arith)
is_listed-append key (x ∷ xs) ys h = ground (arith, is_listed-append key xs ys)

is_listed-last : (key : String) (xs : List String) → is_listed key (xs ++ key ∷ []) ≡ true
unfolding is_listed
is_listed-last key [] = ground (arith, eq_refl key)
is_listed-last key (x ∷ xs) = ground (arith, is_listed-last key xs)

module _ (cycle : ℕ) where
  is_seen-add_lookup :
      (lib : Texts) (item : Item) (key : String) (w : Walk)
      → is_seen cycle key w ≡ true
      → is_seen cycle key (add_lookup lib item w) ≡ true
  unfolding is_seen add_lookup
  is_seen-add_lookup lib item key w h =
      ground (arith, find_lookup-append key w.lookups (new_lookup lib item ∷ []))

  is_seen-enlist :
      (k key : String) (r : Option Request) (w : Walk)
      → is_seen cycle key w ≡ true
      → is_seen cycle key (enlist k r w) ≡ true
  unfolding is_seen enlist
  is_seen-enlist k key none w h = ground (arith, is_listed-append key w.bad (k ∷ []))
  is_seen-enlist k key (some r) w h = ground (arith, is_listed-append key w.keys (k ∷ []))

  -- A row that is taken leaves its identity seen.
  enlist-seen :
      (key : String) (r : Option Request) (w : Walk)
      → is_some (find_lookup key w.lookups) ≡ true
      → is_seen cycle key (enlist key r w) ≡ true
  unfolding is_seen enlist
  enlist-seen key none w h = ground (arith, is_listed-last key w.bad)
  enlist-seen key (some r) w h = ground (arith, is_listed-last key w.keys)

  add_lookup-found :
      (lib : Texts) (item : Item) (w : Walk)
      → is_some (find_lookup (identity lib item) (add_lookup lib item w).lookups) ≡ true
  unfolding add_lookup new_lookup
  add_lookup-found lib item w =
      let fresh : is_some (find_lookup (identity lib item) (w.lookups ++ new_lookup lib item ∷ []))
          ≡ true =
        find_lookup-new (new_lookup lib item) w.lookups in
      ground (arith, fresh)

  take_row-seen :
      (lib : Texts) (item : Item) (w : Walk)
      → is_seen cycle (identity lib item) (take_row lib item w) ≡ true
  unfolding take_row pass_row is_seen
  take_row-seen lib item w =
      enlist-seen (identity lib item) (request_of lib item) (add_lookup lib item w)
        (add_lookup-found lib item w)

  -- What is seen stays seen.
  pub Walks-seen :
      (lib : Texts) (max_products handled : ℕ) (key : String) {items : List Item} {w w' : Walk}
      → Walks lib cycle max_products handled items w w'
      → is_seen cycle key w ≡ true
      → is_seen cycle key w' ≡ true
  unfolding pass_row take_row is_seen
  Walks-seen lib m n key over h = h
  Walks-seen lib m n key (passed _ rest) h = Walks-seen lib m n key rest h
  Walks-seen lib m n key (enlisted {item = item} {w = w} _ rest) h = Walks-seen lib m n key rest (
      is_seen-enlist (identity lib item) key (request_of lib item) (add_lookup lib item w)
        (is_seen-add_lookup lib item key w h))
  Walks-seen lib m n key (full _) h = h

add_lookup-find :
    (lib : Texts) (item : Item) (key : String) (w : Walk)
    → is_some (find_lookup key w.lookups) ≡ true
    → find_lookup key (add_lookup lib item w).lookups ≡ find_lookup key w.lookups
unfolding add_lookup
add_lookup-find lib item key w h =
    ground (arith, find_lookup-append key w.lookups (new_lookup lib item ∷ []))

enlist-lookups :
    (key : String) (r : Option Request) (w : Walk) → (enlist key r w).lookups ≡ w.lookups
unfolding enlist
enlist-lookups key none w = refl
enlist-lookups key (some r) w = refl

take_row-find :
    (lib : Texts) (item : Item) (key : String) (w : Walk)
    → is_some (find_lookup key w.lookups) ≡ true
    → find_lookup key (take_row lib item w).lookups ≡ find_lookup key w.lookups
unfolding take_row pass_row
take_row-find lib item key w h =
    rw (enlist-lookups (identity lib item) (request_of lib item) (add_lookup lib item w))
      (add_lookup-find lib item key w h)

-- A walk adds lookups, and changes none.
pub Walks-find :
    (lib : Texts) (cycle max_products handled : ℕ) (key : String) {items : List Item} {w w' : Walk}
    → Walks lib cycle max_products handled items w w'
    → is_some (find_lookup key w.lookups) ≡ true
    → find_lookup key w'.lookups ≡ find_lookup key w.lookups
unfolding pass_row
Walks-find lib c m n key over h = refl
Walks-find lib c m n key (passed _ rest) h = Walks-find lib c m n key rest h
Walks-find lib c m n key (enlisted {item = item} {w = w} _ rest) h =
    let step = take_row-find lib item key w h in Walks-find lib c m n key rest (rw step h) ∙ step
Walks-find lib c m n key (full _) h = refl

pub Walks-current :
    (lib : Texts) (cycle max_products handled : ℕ) (key : String) {items : List Item} {w w' : Walk}
    → Walks lib cycle max_products handled items w w'
    → is_current cycle key w.lookups ≡ true
    → is_current cycle key w'.lookups ≡ true
Walks-current lib c m n key {w = w} walk h = rw (Walks-find lib c m n key walk (ground arith)) h

-- Ids rise along the list, from above a bound.
abbrev pub Rises : ℕ → List Item → Type 0
Rises low [] = Unit
Rises low (i ∷ is) = (low < i.id) × Rises i.id is

abbrev pub Has : Item → List Item → Type 0
Has item items = Any (λ x. x ≡ item) items

pub Rises-above :
    (low : ℕ) (items : List Item) (item : Item) → Rises low items → Has item items → low < item.id
Rises-above low [] item h there = absurd there
Rises-above low (i ∷ is) item (h, t) (inl e) = rw (← e) h
Rises-above low (i ∷ is) item (h, t) (inr m) = omega (arith, Rises-above i.id is item t m)

-- After a walk, every row up to its checkpoint is seen.
pub Walks-checkpoint :
    (lib : Texts) (cycle max_products handled : ℕ) {items : List Item} {w w' : Walk}
    → Walks lib cycle max_products handled items w w'
    → Rises w.checkpoint items
    → (item : Item) → Has item items
    → item.id ≤ w'.checkpoint
    → is_seen cycle (identity lib item) w' ≡ true
unfolding pass_row take_row is_seen
Walks-checkpoint lib c m n over h item there le = absurd there
Walks-checkpoint lib c m n (passed {w = w} seen rest) (h, t) item (inl e) le =
    Walks-seen c lib m n (identity lib item) rest (rw (← e) seen)
Walks-checkpoint lib c m n (passed seen rest) (h, t) item (inr there) le =
    Walks-checkpoint lib c m n rest t item there le
Walks-checkpoint lib c m n (enlisted {item = i} {w = w} _ rest) (h, t) item (inl e) le =
    Walks-seen c lib m n (identity lib item) rest (rw (← e) (take_row-seen c lib i w))
Walks-checkpoint lib c m n (enlisted _ rest) (h, t) item (inr there) le =
    Walks-checkpoint lib c m n rest t item there le
Walks-checkpoint lib c m n (full {item = i} {items = is} {w = w} _) t item there le =
    absurd (omega (arith, Rises-above w.checkpoint (i ∷ is) item t there))

-- The checkpoint is that of the walk's beginning, or the id of a row.
pub Walks-at :
    (lib : Texts) (cycle max_products handled : ℕ) (P : ℕ → Type 0) {items : List Item}
    {w w' : Walk}
    → Walks lib cycle max_products handled items w w'
    → P w.checkpoint
    → All (λ (i : Item). P i.id) items
    → P w'.checkpoint
unfolding pass_row take_row is_seen
Walks-at lib c m n P over p h = p
Walks-at lib c m n P (passed _ rest) p (h, t) = Walks-at lib c m n P rest h t
Walks-at lib c m n P (enlisted _ rest) p (h, t) = Walks-at lib c m n P rest h t
Walks-at lib c m n P (full _) p h = p
