-- ===== src/Markup.antt =====
-- backend/app/importer/parser.py: `_StreamingHtmlRows` and `_HtmlTables`, the two readers of an HTML
-- export, over the events of the library's parser. `local_name` is the tag in lower case without
-- its prefix, and `text_of` joins the pieces of a cell and strips the result.
use sales_journal.Prelude.{
  List, Option, String, [], if◌then◌else◌, none, some, str_eq, ◌++◌, ◌||◌, ◌∷◌,
}
pub mod Stream
pub mod Tables
pub mod RoundTrip
pub mod Misnested
mod Tests

pub record Texts : Type 0 where
  pub local_name : String → String
  pub text_of : List String → String

pub data Event : Type 0 where
  start_tag : String → Event
  text : String → Event
  end_tag : String → Event

pub data Tag : Type 0 where
  table_tag row_tag cell_tag data_tag break_tag other_tag : Tag

-- The sets of names that the handlers test for.
pub tag_of : String → Tag
tag_of name =
    if str_eq name "table"
    then table_tag
    else if str_eq name "tr" || str_eq name "row"
    then row_tag
    else if str_eq name "td" || str_eq name "th" || str_eq name "cell"
    then cell_tag
    else if str_eq name "data"
    then data_tag
    else if str_eq name "br"
    then break_tag
    else other_tag

abbrev pub Row : Type 0
Row = List String

-- A piece of text, if a cell is open.
pub add_piece : String → Option (List String) → Option (List String)
add_piece t none = none
add_piece t (some pieces) = some (pieces ++ t ∷ [])

-- `self.rows.append(row)`, unless there is none or it is empty.
pub add_row : Option Row → List Row → List Row
add_row none rows = rows
add_row (some []) rows = rows
add_row (some (c ∷ cs)) rows = rows ++ (c ∷ cs) ∷ []

-- The cell goes to the row, if both are open.
pub close_cell : Texts → Option Row → Option (List String) → Option Row × Option (List String)
close_cell lib (some row) (some pieces) = (some (row ++ lib.text_of pieces ∷ []), none)
close_cell lib row cell = (row, cell)
