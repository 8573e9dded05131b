-- ===== src/Markup/Stream.antt =====
-- parser.py: `_StreamingHtmlRows`, which holds the open row only.
use sales_journal.Prelude.{
  List, Option, String, [], if◌then◌else◌, is_none, is_some, none, some, ◌&&◌, ◌∷◌,
}
use sales_journal.Markup.{
  Texts, Event, start_tag, text, end_tag, Tag, row_tag, cell_tag, data_tag, break_tag, tag_of, Row,
  add_piece, add_row, close_cell,
}

-- `_StreamingHtmlRows`: the rows that are ready, the row and the cell that are open.
pub record Stream : Type 0 where
  pub rows : List Row
  pub row : Option Row
  pub cell : Option (List String)

abbrev pub empty_stream : Stream
empty_stream = record { rows = []; row = none; cell = none }

unfoldable pub finish_cell : Texts → Stream → Stream
unfolding close_cell
finish_cell lib s =
    let (row, cell) = close_cell lib s.row s.cell in record s { row = row; cell = cell }

unfoldable pub finish_row : Texts → Stream → Stream
unfolding finish_cell add_row
finish_row lib s =
    let closed = finish_cell lib s in
    record closed { rows = add_row closed.row closed.rows; row = none }

-- `handle_starttag`
unfoldable pub start : Texts → Tag → Stream → Stream
unfolding finish_cell finish_row add_piece
start lib row_tag s = record (if is_some s.row then finish_row lib s else s) { row = some [] }
start lib cell_tag s = if is_some s.row then record (finish_cell lib s) { cell = some [] } else s
start lib data_tag s = if is_some s.row && is_none s.cell then record s { cell = some [] } else s
start lib break_tag s = record s { cell = add_piece "\n" s.cell }
start lib _ s = s

-- `handle_endtag`
unfoldable pub end : Texts → Tag → Stream → Stream
unfolding finish_cell finish_row
end lib cell_tag s = finish_cell lib s
end lib data_tag s = finish_cell lib s
end lib row_tag s = finish_row lib s
end lib _ s = s

unfoldable pub handle : Texts → Event → Stream → Stream
unfolding start end tag_of add_piece
handle lib (start_tag name) s = start lib (tag_of (lib.local_name name)) s
handle lib (text t) s = record s { cell = add_piece t s.cell }
handle lib (end_tag name) s = end lib (tag_of (lib.local_name name)) s

unfoldable pub feed : Texts → List Event → Stream → Stream
unfolding handle
feed lib [] s = s
feed lib (e ∷ es) s = feed lib es (handle lib e s)

-- `finish()`: the last row of an export that breaks off.
unfoldable pub finish : Texts → Stream → Stream
unfolding finish_row
finish lib s = if is_some s.row then finish_row lib s else s
