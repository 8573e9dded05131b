-- ===== src/Markup/Tables.antt =====
-- parser.py: `_HtmlTables`, which keeps whole tables and lets a cell be closed by its own tag only.
use sales_journal.Prelude.{
  Bool, List, Option, String, [], false, holds, if◌then◌else◌, is_none, is_some, none, not, some,
  true, ◌&&◌, ◌++◌, ◌∷◌,
}
use sales_journal.Markup.{
  Texts, Event, start_tag, text, end_tag, Tag, table_tag, row_tag, cell_tag, data_tag, break_tag,
  other_tag, tag_of, Row, add_piece, add_row, close_cell,
}

-- The tables that are complete, and what is open.
pub record Tables : Type 0 where
  pub tables : List (List Row)
  pub table : Option (List Row)
  pub row : Option Row
  pub cell : Option (List String)

abbrev pub no_tables : Tables
no_tables = record { tables = []; table = none; row = none; cell = none }

-- `if self.table: self.tables.append(self.table)`
pub add_table : Option (List Row) → List (List Row) → List (List Row)
add_table none tables = tables
add_table (some []) tables = tables
add_table (some (r ∷ rs)) tables = tables ++ (r ∷ rs) ∷ []

-- `if self.row: self.table.append(self.row)`; both are open.
unfoldable pub keep_row : Option Row → Option (List Row) → Option (List Row)
unfolding add_row
keep_row row none = none
keep_row row (some rows) = some (add_row row rows)

pub is_empty : Row → Bool
is_empty [] = true
is_empty (c ∷ cs) = false

-- `if self.table: self.tables.append(self.table)`, and the table is closed.
pub close_table : Tables → Tables
unfolding add_table
close_table s = record s { tables = add_table s.table s.tables; table = none }

-- `handle_starttag`
unfoldable pub start : Texts → Tag → Tables → Tables
unfolding add_piece
start lib table_tag s = record s { table = some [] }
start lib row_tag s = if is_some s.table then record s { row = some [] } else s
start lib cell_tag s = if is_some s.row && is_none s.cell then record s { cell = some [] } else s
start lib data_tag s = if is_some s.row && is_none s.cell then record s { cell = some [] } else s
start lib break_tag s = record s { cell = add_piece "\n" s.cell }
start lib other_tag s = s

-- `handle_endtag`; `none` is the exception on a row or a table that is not open. A row without cells
-- is dropped before its table is looked at.
unfoldable pub end : Texts → Tag → Tables → Option Tables
unfolding close_cell keep_row close_table
end lib cell_tag s =
    if is_some s.cell && is_none s.row
    then none
    else let (row, cell) = close_cell lib s.row s.cell in some (record s { row = row; cell = cell })
end lib row_tag s =
    if is_none s.table && holds (λ (r : Row). not (is_empty r)) s.row
    then none
    else some (record s { table = keep_row s.row s.table; row = none })
end lib table_tag s = some (close_table s)
end lib _ s = some s

unfoldable pub handle : Texts → Event → Tables → Option Tables
unfolding start end tag_of add_piece
handle lib (start_tag name) s = some (start lib (tag_of (lib.local_name name)) s)
handle lib (text t) s = some (record s { cell = add_piece t s.cell })
handle lib (end_tag name) s = end lib (tag_of (lib.local_name name)) s

unfoldable pub feed : Texts → List Event → Tables → Option Tables
unfolding handle
feed lib [] s = some s
feed lib (e ∷ es) s = elim (handle lib e s) [ none ↦ none | some t ↦ feed lib es t ]

-- `if self.cell is not None and self.row is not None`
pub finish_cell : Texts → Tables → Tables
unfolding close_cell
finish_cell lib s =
    let (row, cell) = close_cell lib s.row s.cell in record s { row = row; cell = cell }

pub finish_row : Tables → Tables
unfolding keep_row
finish_row s =
    if is_some s.row && is_some s.table
    then record s { table = keep_row s.row s.table; row = none }
    else s

-- `finish()`
pub finish : Texts → Tables → Tables
unfolding finish_cell finish_row close_table
finish lib s = close_table (finish_row (finish_cell lib s))
