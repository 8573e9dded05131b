-- ===== src/Import/Laws.antt =====
-- parser.py: the header that is found has the required columns, and each row that is read is the row
-- of its number in its sheet.
use sales_journal.Prelude.{
  All, Any, Bool-cases, List, Option, String, [], any, ap, arith, inl, inr, length, not, refl, some,
  suc, tally, true, zero, ℕ, ◌&&◌, ◌++◌, ◌+◌, ◌<◌, ◌∷◌, ◌≡◌, ◌≤◌, ◌⊎◌,
}
use sales_journal.Import.{
  Cells, Header, Mapping, better, columns_from, drop, find_header, found, get_elem?, has_required,
  is_legacy_header, last_three, legacy_columns, looks_like_legacy_sale, mapped_rows, merge,
  not_found, number_from, partly_found, position, raw_row, read_sales, scan_legacy, scan_rows, take,
}

Header-cases :
    (h : Header)
    → ((i : ℕ) × (m : Mapping) × (best : List String) × (h ≡ found i m best))
      ⊎ (((best : List String) × (h ≡ partly_found best)) ⊎ (h ≡ not_found))
Header-cases (found i m best) = inl (i, m, best, refl)
Header-cases (partly_found best) = inr (inl (best, refl))
Header-cases not_found = inr (inr refl)

add_one_suc : (k : ℕ) → k + 1 ≡ suc k
add_one_suc k = omega arith

add_two : (i : ℕ) → i + 2 ≡ i + 1 + 1
add_two i = omega arith

legacy-has_required : has_required (number_from 0 legacy_columns) ≡ true
unfolding has_required number_from position
legacy-has_required = refl

length-take {ℓ} :
    {A : Type ℓ} (n : ℕ) (xs : List A) → (length (take n xs) ≤ n) × (length (take n xs) ≤ length xs)
unfolding take
length-take zero xs = (omega arith, omega arith)
length-take (suc n) [] = (omega arith, omega arith)
length-take (suc n) (x ∷ xs) =
    (omega (arith, (length-take n xs).0), omega (arith, (length-take n xs).1))

module _ {Cell : Type 0} (cells : Cells Cell) where
  scan_rows-found :
      (i : ℕ) (rows : List (List Cell)) (recent : List Mapping) (best : List String) (j : ℕ)
      (m : Mapping) (set : List String)
      → scan_rows cells i rows recent best ≡ found j m set
      → (has_required m ≡ true) × (j < i + length rows)
  unfolding scan_rows
  scan_rows-found i [] recent best j m set h = absurd (ground arith)
  scan_rows-found i (row ∷ rows) recent best j m set h =
      let current = columns_from cells 0 row [] in
      let window = last_three (recent ++ current ∷ []) in
      let merged = merge window [] in
      elim (Bool-cases (has_required merged)) [
        | inl all_there ↦ (ground arith, ground arith)
        | inr missing ↦
            let (a, b) =
              scan_rows-found (i + 1) rows window (better cells current best) j m set
                (ground arith) in
            (a, omega arith)
      ]

  scan_legacy-found :
      (i left : ℕ) (rows : List (List Cell)) (best : List String) (j : ℕ) (m : Mapping)
      (set : List String)
      → scan_legacy cells i left rows best ≡ found j m set
      → (has_required m ≡ true) × (j < i + length rows) × (j < i + left)
  unfolding scan_legacy
  scan_legacy-found i zero rows [] j m set h = absurd (ground arith)
  scan_legacy-found i zero rows (b ∷ bs) j m set h = absurd (ground arith)
  scan_legacy-found i (suc left) [] [] j m set h = absurd (ground arith)
  scan_legacy-found i (suc left) [] (b ∷ bs) j m set h = absurd (ground arith)
  scan_legacy-found i (suc left) (row ∷ []) [] j m set h = absurd (ground arith)
  scan_legacy-found i (suc left) (row ∷ []) (b ∷ bs) j m set h = absurd (ground arith)
  scan_legacy-found i (suc left) (row ∷ below ∷ rows) best j m set h =
      elim (Bool-cases (is_legacy_header cells row && looks_like_legacy_sale cells below)) [
        | inl legacy ↦
            let same : number_from 0 legacy_columns ≡ m = ground arith in
            (rw (← same) legacy-has_required, ground arith, ground arith)
        | inr other ↦
            let (a, b, c) =
              scan_legacy-found (i + 1) left (below ∷ rows) best j m set (ground arith) in
            (a, omega arith, omega arith)
      ]

  -- A header that is found, in the new layout or in the old one, has each of the four required
  -- columns, and is one of the rows that are searched.
  pub find_header-required :
      (limit : ℕ) (rows : List (List Cell)) (i : ℕ) (m : Mapping) (best : List String)
      → find_header cells limit rows ≡ found i m best
      → (has_required m ≡ true) × (i < length rows) × (i < limit)
  unfolding find_header
  find_header-required limit rows i m best h =
      elim (Header-cases (scan_rows cells 0 (take limit rows) [] [])) [
        | inl (j, n, set, e) ↦
            let (a, b) = scan_rows-found 0 (take limit rows) [] [] i m best (ground arith) in
            let (c, d) = length-take limit rows in (a, omega arith, omega arith)
        | inr (inl (set, e)) ↦
            let (a, b, c) = scan_legacy-found 0 limit rows set i m best (ground arith) in
            (a, omega arith, omega arith)
        | inr (inr e) ↦ absurd (ground arith)
      ]

  drop-next :
      (k : ℕ) (rows : List (List Cell)) (values : List Cell) (rest : List (List Cell))
      → drop k rows ≡ values ∷ rest
      → (get_elem? rows k ≡ some values) × (drop (suc k) rows ≡ rest)
  unfolding drop get_elem?
  drop-next zero [] values rest h = absurd (ground arith)
  drop-next zero (x ∷ xs) values rest h = (ground arith, ground arith)
  drop-next (suc k) [] values rest h = absurd (ground arith)
  drop-next (suc k) (x ∷ xs) values rest h = drop-next k xs values rest h

  -- A row that is read lies below row i, and is the row of its number, counted from one, with the
  -- columns of the mapping.
  abbrev pub IsRowOf : Mapping → ℕ → List (List Cell) → ℕ × List (String × Option Cell) → Type 0
  IsRowOf m i rows (n, raw) =
      (k : ℕ) × (n ≡ k + 1)
      × (i < k)
      × (values : List Cell) × (get_elem? rows k ≡ some values)
      × (raw ≡ raw_row cells m values)

  mapped_rows-IsRowOf :
      (m : Mapping) (i k : ℕ) (rows rest : List (List Cell))
      → i < k
      → drop k rows ≡ rest
      → All (IsRowOf m i rows) (mapped_rows cells m (k + 1) rest)
  unfolding mapped_rows
  mapped_rows-IsRowOf m i k rows [] lt h = tt
  mapped_rows-IsRowOf m i k rows (values ∷ rest) lt h =
      let (here, next) = drop-next k rows values rest h in
      let tail : All (IsRowOf m i rows) (mapped_rows cells m (k + 1 + 1) rest) =
        rw (add_one_suc k) (mapped_rows-IsRowOf m i (suc k) rows rest (omega arith) next) in
      elim (Bool-cases (any (λ v. not (cells.is_absent v)) values)) [
        | inl kept ↦ rw kept ((k, refl, lt, values, here, refl), tail)
        | inr blank ↦ rw blank tail
      ]

  mapped_rows-length :
      (m : Mapping) (n : ℕ) (rest : List (List Cell))
      → length (mapped_rows cells m n rest) ≡ tally (any (λ v. not (cells.is_absent v))) rest
  unfolding mapped_rows
  mapped_rows-length m n [] = refl
  mapped_rows-length m n (values ∷ rest) =
      elim (Bool-cases (any (λ v. not (cells.is_absent v)) values)) [
        | inl kept ↦ simp kept (ap suc (mapped_rows-length m (n + 1) rest))
        | inr blank ↦ simp blank (mapped_rows-length m (n + 1) rest)
      ]

  -- What is read from a sheet: its rows below a header with the required columns.
  abbrev pub IsReadFrom :
      String × List (List Cell) → String → List (ℕ × List (String × Option Cell)) → Type 0
  IsReadFrom (sheet, rows) name out =
      (sheet ≡ name)
      × (m : Mapping) × (has_required m ≡ true)
      × (i : ℕ) × (i < 1000)
      × (best : List String) × (find_header cells 1000 (take 1001 rows) ≡ found i m best)
      × All (IsRowOf m i rows) out
      × (length out ≡ tally (any (λ v. not (cells.is_absent v))) (drop (i + 1) rows))

  -- The rows that are read belong to one sheet of the book, and there to the header that is found
  -- among its first 1000 rows and has the four required columns. Each lies below the header and is the
  -- row of its number in that sheet, with the columns of the header, and there are as many as the sheet
  -- has rows with a value below it.
  pub read_sales-rows :
      (sheets : List (String × List (List Cell))) (name : String)
      (out : List (ℕ × List (String × Option Cell)))
      → read_sales cells sheets ≡ some (name, out)
      → Any (λ sheet. IsReadFrom sheet name out) sheets
  unfolding read_sales
  read_sales-rows [] name out h = absurd (ground arith)
  read_sales-rows ((sheet, rows) ∷ sheets) name out h =
      elim (Header-cases (find_header cells 1000 (take 1001 rows))) [
        | inl (i, m, best, e) ↦
            let (a, b, c) = find_header-required 1000 (take 1001 rows) i m best e in
            let out_is : mapped_rows cells m (i + 2) (drop (i + 1) rows) ≡ out = ground arith in
            inl (
              (ground arith),
              m,
              a,
              i,
              c,
              best,
              e,
              rw (← out_is) (
                  rw (add_two i)
                    (mapped_rows-IsRowOf m i (i + 1) rows (drop (i + 1) rows) (omega arith) refl)),
              rw (← out_is) (mapped_rows-length m (i + 2) (drop (i + 1) rows)),
            )
        | inr (inl (set, e)) ↦ inr (read_sales-rows sheets name out (ground arith))
        | inr (inr e) ↦ inr (read_sales-rows sheets name out (ground arith))
      ]
