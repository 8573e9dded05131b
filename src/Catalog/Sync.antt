-- ===== src/Catalog/Sync.antt =====
-- backend/app/services/catalog_sync.py: the tables of the full reconciliation, the walk over one page
-- of sale items and the storage of the client's answers. Instants are seconds. `strip`, `casefold`
-- and the digest of a pair are the library's; the rule for a picture's address is an argument.
use sales_journal.Prelude.{
  Bool, List, Option, String, [], any, false, if◌then◌else◌, is_some, leb, length, none, some,
  str_eq, true, ℕ, ◌++◌, ◌+◌, ◌==◌, ◌||◌, ◌∷◌,
}
use sales_journal.Catalog.Refresh.{LookupStatus, pending, invalid}
use sales_journal.Catalog.Refresh
use sales_journal.Catalog.Client.{
  Request, Attributes, Incoming, MatchedBy, Answer, matched, not_found, ambiguous, validate_input,
  trimmed,
}
pub mod Page
pub mod Loop
pub mod Marks
pub mod Runs
pub mod Bounds
pub mod Saved
pub mod Covers
pub mod Complete
mod Tests
pub mod Laws

-- The columns of SaleItem that the reconciliation reads; the table is in the order of ids.
pub record Item : Type 0 where
  pub id : ℕ
  pub code : Option String
  pub article : Option String

-- CatalogLookup
pub record LookupRow : Type 0 where
  pub identity : String
  pub code : Option String
  pub article : Option String
  pub product_id : Option ℕ
  pub status : LookupStatus
  pub matched_by : Option MatchedBy
  pub checked_at : Option ℕ
  pub synced_at : Option ℕ
  pub cycle : ℕ

-- CatalogProduct
pub record Product : Type 0 where
  pub product_id : ℕ
  pub attributes : Attributes
  pub image_url : Option String
  pub source_updated_at : ℕ
  pub synced_at : ℕ

pub record Tables : Type 0 where
  pub items : List Item
  pub lookups : List LookupRow
  pub products : List Product

-- The operations of the libraries that the reconciliation uses.
pub record Texts : Type 0 where
  pub strip : String → String
  pub casefold : String → String
  pub digest : Option String → Option String → String
  pub image_url : Option String → Option String

-- `normalize(value)` of catalog_attributes.py
pub normalize : Texts → Option String → Option String
normalize lib none = none
normalize lib (some s) = if str_eq (lib.strip s) "" then none else some (lib.casefold (lib.strip s))

-- `identity(code, article)` of catalog_attributes.py
pub identity : Texts → Item → String
unfolding normalize
identity lib item = lib.digest (normalize lib item.code) (normalize lib item.article)

pub find_lookup : String → List LookupRow → Option LookupRow
find_lookup key [] = none
find_lookup key (l ∷ ls) =
    let rest = find_lookup key ls in if str_eq key l.identity then some l else rest

-- `lookup in pending or lookup in invalid`, by the identity, the primary key.
pub is_listed : String → List String → Bool
is_listed key keys = any (str_eq key) keys

-- A page as far as it is walked; `keys` and `requests` are the lists `pending` and `inputs`.
pub record Walk : Type 0 where
  pub lookups : List LookupRow
  pub keys : List String
  pub requests : List Request
  pub bad : List String
  pub checkpoint : ℕ
  pub visited : ℕ

pub new_lookup : Texts → Item → LookupRow
unfolding identity normalize
new_lookup lib item = record {
  identity = identity lib item;
  code = normalize lib item.code;
  article = normalize lib item.article;
  product_id = none;
  status = pending;
  matched_by = none;
  checked_at = none;
  synced_at = none;
  cycle = 0;
}

-- A row that needs nothing.
pub pass_row : Item → Walk → Walk
pass_row item w = record w { checkpoint = item.id; visited = w.visited + 1 }

-- Whether the row's lookup is of this cycle or already on one of the page's lists.
pub is_seen : ℕ → String → Walk → Bool
unfolding find_lookup is_listed
is_seen cycle key w = elim (find_lookup key w.lookups) [
  | none ↦ false
  | some l ↦ l.cycle == cycle || is_listed key w.keys || is_listed key w.bad
]

-- `if lookup is None: db.add(...)`
pub add_lookup : Texts → Item → Walk → Walk
unfolding find_lookup new_lookup identity
add_lookup lib item w =
    if is_some (find_lookup (identity lib item) w.lookups)
    then w
    else record w { lookups = w.lookups ++ new_lookup lib item ∷ [] }

-- Onto the list `pending` with the request, or onto `invalid` if the fields do not validate.
pub enlist : String → Option Request → Walk → Walk
enlist key none w = record w { bad = w.bad ++ key ∷ [] }
enlist key (some request) w = record w {
  keys = w.keys ++ key ∷ [];
  requests = w.requests ++ request ∷ [];
}

-- `LookupInput.model_validate(raw)`, where `raw` holds the fields that are not blank.
pub request_of : Texts → Item → Option Request
request_of lib item =
    validate_input lib.strip (trimmed lib.strip item.code) (trimmed lib.strip item.article)

-- A row whose identity is to be sent, or is invalid.
pub take_row : Texts → Item → Walk → Walk
unfolding identity request_of
take_row lib item w =
    pass_row item (enlist (identity lib item) (request_of lib item) (add_lookup lib item w))

-- `for row in rows`; `handled` is the number of identities that the earlier pages have used.
pub walk_rows : Texts → ℕ → ℕ → ℕ → List Item → Walk → Walk
walk_rows lib cycle max_products handled [] w = w
walk_rows lib cycle max_products handled (item ∷ items) w =
    elim (is_seen cycle (identity lib item) w) [
      | true ↦ walk_rows lib cycle max_products handled items (pass_row item w)
      | false ↦ elim (leb max_products (handled + length w.keys + length w.bad)) [
        | true ↦ w
        | false ↦ walk_rows lib cycle max_products handled items (take_row lib item w)
      ]
    ]

-- The columns that a match gives to its product.
pub fill_product : Texts → ℕ → Incoming → Product → Product
fill_product lib now incoming p =
    let image = lib.image_url incoming.image_url in
    record p {
      attributes = incoming.attributes;
      image_url = if is_some image then image else p.image_url;
      source_updated_at = incoming.updated_at;
      synced_at = now;
    }

-- `products.get(id)`, or a new row.
pub store_product : Texts → ℕ → Incoming → List Product → List Product
unfolding fill_product
store_product lib now incoming [] =
    fill_product lib now incoming (record {
      product_id = incoming.product_id;
      attributes = incoming.attributes;
      image_url = none;
      source_updated_at = incoming.updated_at;
      synced_at = now;
    })
    ∷ []
store_product lib now incoming (p ∷ ps) =
    let rest = store_product lib now incoming ps in
    if p.product_id == incoming.product_id then fill_product lib now incoming p ∷ ps else p ∷ rest

pub store_products : Texts → ℕ → List Answer → List Product → List Product
store_products lib now [] ps = ps
store_products lib now (matched _ incoming ∷ answers) ps =
    store_products lib now answers (store_product lib now incoming ps)
store_products lib now (_ ∷ answers) ps = store_products lib now answers ps

-- What an answer does to its lookup: what an earlier match stored stays for inspection.
pub record_answer : ℕ → ℕ → Answer → LookupRow → LookupRow
record_answer now cycle (matched by incoming) l = record l {
  product_id = some incoming.product_id;
  synced_at = some now;
  matched_by = some by;
  status = Refresh.matched;
  checked_at = some now;
  cycle = cycle;
}
record_answer now cycle not_found l = record l {
  matched_by = none;
  status = Refresh.not_found;
  checked_at = some now;
  cycle = cycle;
}
record_answer now cycle ambiguous l = record l {
  matched_by = none;
  status = Refresh.ambiguous;
  checked_at = some now;
  cycle = cycle;
}

pub record_invalid : ℕ → ℕ → LookupRow → LookupRow
record_invalid now cycle l = record l {
  status = invalid;
  matched_by = none;
  cycle = cycle;
  checked_at = some now;
}

-- A write to the lookup of this identity.
pub change_lookup : String → (LookupRow → LookupRow) → List LookupRow → List LookupRow
change_lookup key f [] = []
change_lookup key f (l ∷ ls) = (if str_eq key l.identity then f l else l) ∷ change_lookup key f ls

-- `for lookup, result in zip(pending, results)`
pub save_answers : ℕ → ℕ → List String → List Answer → List LookupRow → List LookupRow
save_answers now cycle (k ∷ ks) (a ∷ answers) ls =
    save_answers now cycle ks answers (change_lookup k (record_answer now cycle a) ls)
save_answers now cycle _ _ ls = ls

-- `for lookup in invalid`
pub save_invalid : ℕ → ℕ → List String → List LookupRow → List LookupRow
save_invalid now cycle [] ls = ls
save_invalid now cycle (k ∷ ks) ls =
    save_invalid now cycle ks (change_lookup k (record_invalid now cycle) ls)
