-- ===== src/Markup/RoundTrip.antt =====
-- parser.py: a table written as HTML, with or without its closing tags, is read back row by row.
use sales_journal.Prelude.{
  Bool, Bool-cases, List, Option, String, [], ap, false, if◌then◌else◌, inl, inr, map, none, refl,
  some, sym, true, ◌++◌, ◌∙◌, ◌∷◌, ◌≡◌,
}
use mathlib.Core.List.{append_assoc, append-nil}
use sales_journal.Markup.{
  Texts, Event, start_tag, text, end_tag, row_tag, cell_tag, break_tag, tag_of, Row, add_piece,
  add_row, close_cell,
}
use sales_journal.Markup.Stream.{
  Stream, empty_stream, start, end, handle, feed, finish, finish_cell, finish_row,
}

-- What a cell may hold, and whether its closing tag is there.
pub data Piece : Type 0 where
  words : String → Piece
  line_break : Piece

pub record CellMarkup : Type 0 where
  pub pieces : List Piece
  pub is_closed : Bool

pub record RowMarkup : Type 0 where
  pub cells : List CellMarkup
  pub is_closed : Bool

-- The events of a table, before those that follow.
abbrev pub piece_events : List Piece → List Event → List Event
piece_events [] rest = rest
piece_events (words t ∷ ps) rest = text t ∷ piece_events ps rest
piece_events (line_break ∷ ps) rest = start_tag "br" ∷ piece_events ps rest

abbrev pub closing : Bool → String → List Event → List Event
closing true name rest = end_tag name ∷ rest
closing false name rest = rest

abbrev pub cell_events : List CellMarkup → List Event → List Event
cell_events [] rest = rest
cell_events (c ∷ cs) rest =
    start_tag "td" ∷ piece_events c.pieces (closing c.is_closed "td" (cell_events cs rest))

abbrev pub row_events : List RowMarkup → List Event
row_events [] = []
row_events (r ∷ rs) =
    start_tag "tr" ∷ cell_events r.cells (closing r.is_closed "tr" (row_events rs))

abbrev pub piece_text : Piece → String
piece_text (words t) = t
piece_text line_break = "\n"

-- The rows that the table means: its cells' texts, rows without cells left out.
abbrev pub cell_texts : Texts → List CellMarkup → Row
cell_texts lib [] = []
cell_texts lib (c ∷ cs) = lib.text_of (map piece_text c.pieces) ∷ cell_texts lib cs

abbrev pub add_first : Row → List Row → List Row
add_first [] rows = rows
add_first (c ∷ cs) rows = (c ∷ cs) ∷ rows

abbrev pub row_texts : Texts → List RowMarkup → List Row
row_texts lib [] = []
row_texts lib (r ∷ rs) = add_first (cell_texts lib r.cells) (row_texts lib rs)

module _ (lib : Texts) (td : lib.local_name "td" ≡ "td") (tr : lib.local_name "tr" ≡ "tr")
    (br : lib.local_name "br" ≡ "br") where
  abbrev opened : List Row → Row → Option (List String) → Stream
  opened rows row cell = record { rows = rows; row = some row; cell = cell }

  handle_words :
      (t : String) (rows : List Row) (row : Row) (c : List String)
      → handle lib (text t) (opened rows row (some c)) ≡ opened rows row (some (c ++ t ∷ []))
  unfolding handle add_piece
  handle_words t rows row c = refl

  handle-br : (s : Stream) → handle lib (start_tag "br") s ≡ start lib break_tag s
  unfolding handle tag_of
  handle-br s = rw br (refl)

  handle-td : (s : Stream) → handle lib (start_tag "td") s ≡ start lib cell_tag s
  unfolding handle tag_of
  handle-td s = rw td (refl)

  handle-tr : (s : Stream) → handle lib (start_tag "tr") s ≡ start lib row_tag s
  unfolding handle tag_of
  handle-tr s = rw tr (refl)

  handle-end_td : (s : Stream) → handle lib (end_tag "td") s ≡ finish_cell lib s
  unfolding handle tag_of end
  handle-end_td s = rw td (refl)

  handle-end_tr : (s : Stream) → handle lib (end_tag "tr") s ≡ finish_row lib s
  unfolding handle tag_of end
  handle-end_tr s = rw tr (refl)

  feed-pieces :
      (ps : List Piece) (rest : List Event) (rows : List Row) (row : Row) (c : List String)
      → feed lib (piece_events ps rest) (opened rows row (some c))
        ≡ feed lib rest (opened rows row (some (c ++ map piece_text ps)))
  unfolding feed start add_piece
  feed-pieces [] rest rows row c = simp append-nil
  feed-pieces (words t ∷ ps) rest rows row c =
      ap (feed lib (piece_events ps rest)) (handle_words t rows row c)
      ∙ feed-pieces ps rest rows row (c ++ t ∷ [])
      ∙ simp append_assoc
  feed-pieces (line_break ∷ ps) rest rows row c =
      ap (feed lib (piece_events ps rest)) (handle-br (opened rows row (some c)))
      ∙ feed-pieces ps rest rows row (c ++ "\n" ∷ [])
      ∙ simp append_assoc

  -- The row as it is when its open cell is closed.
  abbrev shut : Row → Option (List String) → Row
  shut row none = row
  shut row (some c) = row ++ lib.text_of c ∷ []

  -- What the cells leave: the row, and the cell that is still open.
  abbrev after : Row → Option (List String) → List CellMarkup → Row × Option (List String)
  after row cell [] = (row, cell)
  after row cell (c ∷ cs) =
      after
        (if c.is_closed
          then shut row cell ++ lib.text_of (map piece_text c.pieces) ∷ []
          else shut row cell)
        (if c.is_closed then none else some (map piece_text c.pieces)) cs

  shut-after :
      (row : Row) (cell : Option (List String)) (cs : List CellMarkup)
      → shut (after row cell cs).0 (after row cell cs).1 ≡ shut row cell ++ cell_texts lib cs
  shut-after row cell [] = simp append-nil
  shut-after row cell (c ∷ cs) = elim (Bool-cases c.is_closed) [
    | inl e ↦ simp e (
        shut-after (shut row cell ++ lib.text_of (map piece_text c.pieces) ∷ []) none cs
        ∙ simp append_assoc)
    | inr e ↦
        simp e (shut-after (shut row cell) (some (map piece_text c.pieces)) cs ∙ simp append_assoc)
  ]

  start_cell :
      (rows : List Row) (row : Row) (cell : Option (List String))
      → start lib cell_tag (opened rows row cell) ≡ opened rows (shut row cell) (some [])
  unfolding start finish_cell close_cell
  start_cell rows row none = refl
  start_cell rows row (some c) = refl

  finish_open :
      (rows : List Row) (row : Row) (c : List String)
      → finish_cell lib (opened rows row (some c)) ≡ opened rows (row ++ lib.text_of c ∷ []) none
  unfolding finish_cell close_cell
  finish_open rows row c = refl

  feed-closing :
      (is_closed : Bool) (rest : List Event) (rows : List Row) (row : Row) (c : List String)
      → feed lib (closing is_closed "td" rest) (opened rows row (some c))
        ≡ feed lib rest (
            opened rows
              (if is_closed then row ++ lib.text_of c ∷ [] else row)
              (if is_closed then none else some c))
  unfolding feed
  feed-closing true rest rows row c =
      ap (feed lib rest) (handle-end_td (opened rows row (some c)) ∙ finish_open rows row c)
  feed-closing false rest rows row c = refl

  feed-cells :
      (cs : List CellMarkup) (rest : List Event) (rows : List Row) (row : Row)
      (cell : Option (List String))
      → feed lib (cell_events cs rest) (opened rows row cell)
        ≡ feed lib rest (opened rows (after row cell cs).0 (after row cell cs).1)
  unfolding feed
  feed-cells [] rest rows row cell = refl
  feed-cells (c ∷ cs) rest rows row cell =
      let tail = closing c.is_closed "td" (cell_events cs rest) in
      let kept = map piece_text c.pieces in
      ap (feed lib (piece_events c.pieces tail))
        (handle-td (opened rows row cell) ∙ start_cell rows row cell)
      ∙ feed-pieces c.pieces tail rows (shut row cell) []
      ∙ feed-closing c.is_closed (cell_events cs rest) rows (shut row cell) kept
      ∙ feed-cells cs rest rows
          (if c.is_closed then shut row cell ++ lib.text_of kept ∷ [] else shut row cell)
          (if c.is_closed then none else some kept)

  -- The rows when the open row is closed too.
  abbrev rows_with : List Row → Row → List Row
  rows_with rows [] = rows
  rows_with rows (c ∷ cs) = rows ++ (c ∷ cs) ∷ []

  add_row-rows : (row : Row) (rows : List Row) → add_row (some row) rows ≡ rows_with rows row
  unfolding add_row
  add_row-rows [] rows = refl
  add_row-rows (c ∷ cs) rows = refl

  abbrev closed : List Row → Stream
  closed rows = record { rows = rows; row = none; cell = none }

  finish_row-opened :
      (rows : List Row) (row : Row) (cell : Option (List String))
      → finish_row lib (opened rows row cell) ≡ closed (rows_with rows (shut row cell))
  unfolding finish_row finish_cell close_cell
  finish_row-opened rows row none = ap closed (add_row-rows row rows)
  finish_row-opened rows row (some c) = ap closed (add_row-rows (row ++ lib.text_of c ∷ []) rows)

  -- Between two rows the stream is closed, or the last row is still open.
  data Between : List Row → Stream → Type 0 where
    no_row : {rows : List Row} → Between rows (closed rows)
    open_row :
        (rows : List Row) (row : Row) (cell : Option (List String)) {all_rows : List Row}
        → all_rows ≡ rows_with rows (shut row cell)
        → Between all_rows (opened rows row cell)

  start_row :
      {rows : List Row} {s : Stream} → Between rows s → start lib row_tag s ≡ opened rows [] none
  unfolding start
  start_row no_row = refl
  start_row (open_row rows row cell e) =
      ap (λ (t : Stream). record t { row = some [] })
        (finish_row-opened rows row cell ∙ ap closed (sym e))

  finish-Between : {rows : List Row} {s : Stream} → Between rows s → (finish lib s).rows ≡ rows
  unfolding finish
  finish-Between no_row = refl
  finish-Between (open_row rows row cell e) =
      ap (λ (t : Stream). t.rows) (finish_row-opened rows row cell) ∙ sym e

  rows_with-add_first :
      (rows : List Row) (row : Row) (more : List Row)
      → rows_with rows row ++ more ≡ rows ++ add_first row more
  rows_with-add_first rows [] more = refl
  rows_with-add_first rows (c ∷ cs) more = simp append_assoc

  -- After the cells of a row, with or without its closing tag.
  feed-row_end :
      (is_closed : Bool) (rest : List Event) (rows : List Row) (row : Row)
      (cell : Option (List String))
      → (s : Stream) × (feed lib (closing is_closed "tr" rest) (opened rows row cell)
          ≡ feed lib rest s)
        × Between (rows_with rows (shut row cell)) s
  unfolding feed
  feed-row_end true rest rows row cell = (
    closed (rows_with rows (shut row cell)),
    ap (feed lib rest) (handle-end_tr (opened rows row cell) ∙ finish_row-opened rows row cell),
    no_row,
  )
  feed-row_end false rest rows row cell = (opened rows row cell, refl, open_row rows row cell refl)

  feed-rows :
      (rs : List RowMarkup) (rows : List Row) (s : Stream)
      → Between rows s
      → (finish lib (feed lib (row_events rs) s)).rows ≡ rows ++ row_texts lib rs
  unfolding feed
  feed-rows [] rows s b = finish-Between b ∙ simp append-nil
  feed-rows (r ∷ rs) rows s b =
      let tail = closing r.is_closed "tr" (row_events rs) in
      let left = after [] none r.cells in
      let (next, path, between) = feed-row_end r.is_closed (row_events rs) rows left.0 left.1 in
      ap (λ (t : Stream). (finish lib (feed lib (cell_events r.cells tail) t)).rows)
        (handle-tr s ∙ start_row b)
      ∙ ap (λ (t : Stream). (finish lib t).rows) (feed-cells r.cells tail rows [] none ∙ path)
      ∙ feed-rows rs (rows_with rows (shut left.0 left.1)) next between
      ∙ ap (λ (row : Row). rows_with rows row ++ row_texts lib rs) (shut-after [] none r.cells)
      ∙ rows_with-add_first rows (cell_texts lib r.cells) (row_texts lib rs)

  -- A table that is written with the tags TR, TD and BR, each closing tag of a cell or a row being
  -- there or left out, the last ones too, is read back as its rows: the text of each cell, and no
  -- row for one without cells.
  pub row_events-roundtrip :
      (rs : List RowMarkup)
      → (finish lib (feed lib (row_events rs) empty_stream)).rows ≡ row_texts lib rs
  row_events-roundtrip rs = feed-rows rs [] empty_stream no_row
