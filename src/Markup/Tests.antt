-- ===== src/Markup/Tests.antt =====
-- Small exports for the two readers, and instances of their theorems.
use sales_journal.Prelude.{Bool, List, String, [], false, none, refl, some, true, ◌∷◌, ◌≡◌}
use sales_journal.Markup.{Texts, start_tag, text, end_tag}
use sales_journal.Markup.Stream.{empty_stream, feed, finish}
use sales_journal.Markup.Tables.{no_tables, Tables}
use sales_journal.Markup.Tables
use sales_journal.Markup.Misnested.{feed_misnested}
use sales_journal.Markup.RoundTrip.{
  CellMarkup, RowMarkup, words, line_break, row_events, row_events-roundtrip,
}

-- A cell is its first piece here.
abbrev lib : Texts
lib = record { local_name = λ s. s; text_of = λ ps. elim ps [ [] ↦ "" | p ∷ rest ↦ p ] }

abbrev cell : String → Bool → CellMarkup
cell t c = record { pieces = words t ∷ line_break ∷ []; is_closed = c }

-- An unclosed row, a row without cells, and a last row that breaks off.
abbrev export : List RowMarkup
export =
    record { cells = cell "a" false ∷ cell "b" true ∷ []; is_closed = false }
    ∷ record { cells = []; is_closed = true }
    ∷ record { cells = cell "c" false ∷ []; is_closed = false }
    ∷ []

row_events-roundtrip_example :
    (finish lib (feed lib (row_events export) empty_stream)).rows
    ≡ ("a" ∷ "b" ∷ []) ∷ ("c" ∷ []) ∷ []
row_events-roundtrip_example = row_events-roundtrip lib refl refl refl export

abbrev open_table : Tables
open_table = record no_tables { table = some [] }

feed_misnested_example :
    Tables.feed lib
      (start_tag "tr" ∷ start_tag "td" ∷ text "a" ∷ end_tag "tr" ∷ end_tag "td" ∷ [])
      open_table
    ≡ none
feed_misnested_example = feed_misnested lib refl refl open_table "a" refl refl
