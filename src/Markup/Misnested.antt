-- ===== src/Markup/Misnested.antt =====
-- parser.py: `_HtmlTables` on a row that is closed before its cell.
use sales_journal.Prelude.{String, [], arith, is_some, none, refl, some, true, ◌∷◌, ◌≡◌}
use sales_journal.Markup.{
  Texts, start_tag, text, end_tag, add_piece, cell_tag, close_cell, row_tag, tag_of,
}
use sales_journal.Markup.Tables.{Tables, end, feed, handle, keep_row, start}

module _ (lib : Texts) (td : lib.local_name "td" ≡ "td") (tr : lib.local_name "tr" ≡ "tr") where
  start_tr : (s : Tables) → handle lib (start_tag "tr") s ≡ some (start lib row_tag s)
  unfolding handle tag_of
  start_tr s = rw tr (refl)

  start_td : (s : Tables) → handle lib (start_tag "td") s ≡ some (start lib cell_tag s)
  unfolding handle tag_of
  start_td s = rw td (refl)

  end_tr : (s : Tables) → handle lib (end_tag "tr") s ≡ end lib row_tag s
  unfolding handle tag_of
  end_tr s = rw tr (refl)

  end_td : (s : Tables) → handle lib (end_tag "td") s ≡ end lib cell_tag s
  unfolding handle tag_of
  end_td s = rw td (refl)

  some_text :
      (t : String) (s : Tables)
      → handle lib (text t) s ≡ some (record s { cell = add_piece t s.cell })
  unfolding handle
  some_text t s = refl

  -- In a table that is open, with no open cell, the row `<tr><td>t</tr></td>`, which is closed before
  -- its cell, is an exception, whatever the text and the rows before it are.
  pub feed_misnested :
      (s : Tables) (t : String)
      → is_some s.table ≡ true
      → s.cell ≡ none
      → feed lib (start_tag "tr" ∷ start_tag "td" ∷ text t ∷ end_tag "tr" ∷ end_tag "td" ∷ []) s
        ≡ none
  unfolding feed start end add_piece keep_row close_cell
  feed_misnested s t there idle =
      let a = start lib row_tag s in
      let b = start lib cell_tag a in
      let c : Tables = record b { cell = add_piece t b.cell } in
      let d : Tables = record c { table = keep_row c.row c.table; row = none } in
      ground (arith, start_tr s, start_td a, some_text t b, end_tr c, end_td d)
