-- ===== src/Import/Tests.antt =====
-- A small book, and an instance of the theorem.
use sales_journal.Prelude.{
  Any, List, Option, String, [], any, false, if◌then◌else◌, none, refl, some, str_eq, ℕ, ◌∷◌,
}
use sales_journal.Import.{
  Cells, better, columns_from, drop, find_header, get_elem?, has_required, is_legacy_header,
  keys_of, last_three, mapped_rows, merge, position, put, raw_row, read_sales, scan_legacy,
  scan_rows, take, update,
}
use sales_journal.Import.Laws.{IsReadFrom, read_sales-rows}

-- A cell is a text, which names the column of its own name.
abbrev cells : Cells String
cells = record {
  identify_column = λ c.
      if any (str_eq c) ("sale_date" ∷ "document_number" ∷ "department" ∷ "total_amount" ∷ [])
      then some c
      else none;
  is_absent = λ c. str_eq c "";
  is_blank = λ c. str_eq c "";
  is_stripped_empty = λ c. str_eq c "";
  is_date = λ c. false;
  is_amount = λ c. false;
}

-- A header over two rows, an empty row and a sale.
abbrev sales : List (List String)
sales =
    ("journal" ∷ [])
    ∷ ("sale_date" ∷ "document_number" ∷ [])
    ∷ ("" ∷ "" ∷ "department" ∷ "total_amount" ∷ [])
    ∷ ("" ∷ "" ∷ [])
    ∷ ("1" ∷ "N7" ∷ "A" ∷ "90" ∷ [])
    ∷ []

abbrev book : List (String × List (List String))
book = ("notes", ("text" ∷ []) ∷ []) ∷ ("sales", sales) ∷ []

abbrev out : List (ℕ × List (String × Option String))
out =
    (
      5,
      ("sale_date", some "1")
          ∷ ("document_number", some "N7")
          ∷ ("department", some "A")
          ∷ ("total_amount", some "90")
          ∷ [],
    )
    ∷ []

read_sales-rows_example : Any (λ sheet. IsReadFrom cells sheet "sales" out) book
unfolding read_sales find_header scan_rows take columns_from put last_three merge update
    has_required position better keys_of mapped_rows raw_row drop get_elem? scan_legacy
    is_legacy_header
read_sales-rows_example = read_sales-rows cells book "sales" out refl
