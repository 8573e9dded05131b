-- ===== src/Import.antt =====
-- backend/app/importer/parser.py: the search for the header of a sheet and the rows below it. What
-- the program reads in a single cell, by regular expressions, numbers and dates, is in `Cells`.
use sales_journal.Prelude.{
  Bool, List, Option, String, [], all, any, false, holds, if◌then◌else◌, is_some, leb, length, ltb,
  none, not, some, str_eq, suc, tally, true, zero, ℕ, ◌&&◌, ◌++◌, ◌+◌, ◌∷◌,
}
pub mod Laws
mod Tests

-- What is asked of a cell: the column that it names, whether it is None or an empty text, whether it
-- is blank after normalisation or after `strip`, and whether it reads as a date or as an amount.
pub record Cells (Cell : Type 0) : Type 0 where
  pub identify_column : Cell → Option String
  pub is_absent : Cell → Bool
  pub is_blank : Cell → Bool
  pub is_stripped_empty : Cell → Bool
  pub is_date : Cell → Bool
  pub is_amount : Cell → Bool

abbrev pub required : List String
required = "sale_date" ∷ "document_number" ∷ "department" ∷ "total_amount" ∷ []

abbrev pub legacy_columns : List String
legacy_columns =
    "row_number" ∷ "sale_date" ∷ "document_number" ∷ "client" ∷ "department" ∷ "total_amount"
    ∷ "base_amount" ∷ "discount_percent" ∷ "reason" ∷ "author" ∷ "price_type"
    ∷ "discount_card_percent" ∷ "discount_card_number" ∷ "social" ∷ "certificate_amount"
    ∷ "promotion" ∷ "phone" ∷ "products" ∷ []

-- A mapping from columns to positions, each column once.
abbrev pub Mapping : Type 0
Mapping = List (String × ℕ)

pub put : String → ℕ → Mapping → Mapping
put key i [] = (key, i) ∷ []
put key i ((k, j) ∷ m) =
    let rest = put key i m in if str_eq key k then (k, i) ∷ m else (k, j) ∷ rest

pub position : String → Mapping → Option ℕ
position key [] = none
position key ((k, i) ∷ m) = let rest = position key m in if str_eq key k then some i else rest

-- `merged.update(mapping)`
pub update : Mapping → Mapping → Mapping
unfolding put
update merged [] = merged
update merged ((k, i) ∷ m) = update (put k i merged) m

pub merge : List Mapping → Mapping → Mapping
unfolding update
merge [] merged = merged
merge (m ∷ ms) merged = merge ms (update merged m)

-- `recent[-3:]`
pub last_three : List Mapping → List Mapping
last_three (a ∷ b ∷ c ∷ d ∷ ms) = last_three (b ∷ c ∷ d ∷ ms)
last_three ms = ms

pub keys_of : Mapping → List String
keys_of [] = []
keys_of ((k, i) ∷ m) = k ∷ keys_of m

-- `REQUIRED.issubset(merged)`
pub has_required : Mapping → Bool
unfolding position
has_required m = all (λ k. is_some (position k m)) required

pub number_from : ℕ → List String → Mapping
number_from i [] = []
number_from i (k ∷ ks) = (k, i) ∷ number_from (i + 1) ks

pub data Header : Type 0 where
  -- the index of the header, its mapping, and the best set of columns
  found : ℕ → Mapping → List String → Header
  partly_found : List String → Header
  not_found : Header

pub get_elem? {ℓ} : {A : Type ℓ} → List A → ℕ → Option A
get_elem? [] i = none
get_elem? (x ∷ xs) zero = some x
get_elem? (x ∷ xs) (suc i) = get_elem? xs i

pub drop {ℓ} : {A : Type ℓ} → ℕ → List A → List A
drop zero xs = xs
drop (suc n) [] = []
drop (suc n) (x ∷ xs) = drop n xs

pub take {ℓ} : {A : Type ℓ} → ℕ → List A → List A
take zero xs = []
take (suc n) [] = []
take (suc n) (x ∷ xs) = x ∷ take n xs

module _ {Cell : Type 0} (cells : Cells Cell) where
  -- `{key: i for i, value in enumerate(row) if (key := identify_column(value))}`
  pub columns_from : ℕ → List Cell → Mapping → Mapping
  unfolding put
  columns_from i [] m = m
  columns_from i (v ∷ vs) m =
      columns_from (i + 1) vs (elim (cells.identify_column v) [ none ↦ m | some k ↦ put k i m ])

  pub better : Mapping → List String → List String
  unfolding keys_of
  better current best = if ltb (length best) (length current) then keys_of current else best

  -- The first loop; without a header it gives back the best set.
  pub scan_rows : ℕ → List (List Cell) → List Mapping → List String → Header
  unfolding columns_from last_three merge has_required better
  scan_rows i [] recent best = partly_found best
  scan_rows i (row ∷ rows) recent best =
      let current = columns_from 0 row [] in
      let window = last_three (recent ++ current ∷ []) in
      let merged = merge window [] in
      elim (has_required merged) [
        | true ↦ found i merged (better current best)
        | false ↦ scan_rows (i + 1) rows window (better current best)
      ]

  pub at_least : (Cell → Bool) → ℕ → List Cell → Bool
  unfolding get_elem?
  at_least p i row = holds p (get_elem? row i)

  -- `looks_like_legacy_sale(row)`
  pub looks_like_legacy_sale : List Cell → Bool
  unfolding at_least
  looks_like_legacy_sale row =
      leb (length legacy_columns) (length row)
      && at_least cells.is_date 1 row
      && at_least cells.is_amount 5 row
      && at_least (λ c. not (cells.is_stripped_empty c)) 2 row
      && at_least (λ c. not (cells.is_stripped_empty c)) 4 row

  pub is_legacy_header : List Cell → Bool
  unfolding take
  is_legacy_header row =
      leb (length legacy_columns) (length row)
      && leb 14 (tally (λ c. not (cells.is_blank c)) (take (length legacy_columns) row))

  -- The second loop, over at most `left` rows; a row needs one below it.
  pub scan_legacy : ℕ → ℕ → List (List Cell) → List String → Header
  unfolding is_legacy_header looks_like_legacy_sale number_from
  scan_legacy i (suc left) (row ∷ below ∷ rows) best =
      elim (is_legacy_header row && looks_like_legacy_sale below) [
        | true ↦ found i (number_from 0 legacy_columns) best
        | false ↦ scan_legacy (i + 1) left (below ∷ rows) best
      ]
  scan_legacy i left rows [] = not_found
  scan_legacy i left rows best = partly_found best

  -- `find_header(rows, scan_limit)`
  pub find_header : ℕ → List (List Cell) → Header
  unfolding scan_rows scan_legacy take
  find_header limit rows = elim (scan_rows 0 (take limit rows) [] []) [
    | found i m best ↦ found i m best
    | partly_found best ↦ scan_legacy 0 limit rows best
    | not_found ↦ not_found
  ]

  -- `{key: (values[i] if i < len(values) else None) for key, i in mapping.items()}`

  pub raw_row : Mapping → List Cell → List (String × Option Cell)
  unfolding get_elem?
  raw_row [] values = []
  raw_row ((k, i) ∷ m) values = (k, get_elem? values i) ∷ raw_row m values

  -- `mapped_rows()`, with the numbers of the rows in the sheet.
  pub mapped_rows : Mapping → ℕ → List (List Cell) → List (ℕ × List (String × Option Cell))
  unfolding raw_row
  mapped_rows m n [] = []
  mapped_rows m n (values ∷ rest) =
      let below = mapped_rows m (n + 1) rest in
      if any (λ v. not (cells.is_absent v)) values then (n, raw_row m values) ∷ below else below

  -- `read_sales(path)` over the sheets of a book: the first one with a header, and its rows; `none`
  -- is the error that no sheet has one. The header is searched among the first 1000 of 1001 rows.
  pub read_sales :
      List (String × List (List Cell)) → Option (String × List (ℕ × List (String × Option Cell)))
  unfolding find_header mapped_rows drop take
  read_sales [] = none
  read_sales ((name, rows) ∷ sheets) = elim (find_header 1000 (take 1001 rows)) [
    | found i m best ↦ some (name, mapped_rows m (i + 2) (drop (i + 1) rows))
    | _ ↦ read_sales sheets
  ]
