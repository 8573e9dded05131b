-- ===== src/Source/Tests.antt =====
-- analytics_source.py: two imports with overlapping periods.
use sales_journal.Prelude.{
  All, List, String, [], all, arith, none, refl, some, true, ℕ, ◌↔◌, ◌∷◌, ◌≡◌, ◌≤◌,
}
use sales_journal.Source.{
  ImportEvidence, sorted, place, earlier, later, earliest_end, latest_start, is_method, is_failed,
  method_failed, undeclared, precedes, is_reversed, is_outside, when, check_import, check_imports,
  objections, accept, refused, resolve_source,
}
use sales_journal.Source.Bounds.{IsSound, covers, at_most, at_least}
use sales_journal.Source.Laws.{resolve_source-allowed_iff, resolve_source-latest}

abbrev january : ImportEvidence
january = record {
  id = 2;
  filename = "january.html";
  status = "completed";
  error_rows = 0;
  imported_at = some 50;
  declared_start = some 1;
  declared_end = some 31;
  observed_start = some 3;
  observed_end = some 30;
  method = some "DECLARED_REPORT_PERIOD";
}

abbrev fortnight : ImportEvidence
fortnight = record january {
  id = 1;
  declared_start = some 10;
  declared_end = some 24;
  observed_start = some 10;
  observed_end = none;
}

abbrev print : List ImportEvidence → String
print es = "f"

abbrev stored_print : ℕ → ℕ → String
stored_print a b = "s"

is_allowed :
    (resolve_source print stored_print 28
      (january ∷ fortnight ∷ [])
      40
      1
      "Europe/Moscow").shadow_allowed
    ≡ true
unfolding resolve_source refused objections sorted place check_imports check_import is_failed
    method_failed undeclared is_method is_reversed precedes is_outside when accept latest_start
    earliest_end later earlier
is_allowed = refl

is_covered : all (covers 20) (january ∷ fortnight ∷ []) ≡ true
unfolding covers at_least at_most
is_covered = refl

resolve_source-allowed_iff_example :
    ((resolve_source print stored_print 28
        (january ∷ fortnight ∷ [])
        40
        1
        "Europe/Moscow").shadow_allowed
      ≡ true)
    ↔ ((1 ≤ 2)
        × (2 ≤ 1000)
        × All IsSound (january ∷ fortnight ∷ [])
        × ((day : ℕ) × (day ≤ 28)
            × (day ≤ 40)
            × (all (covers day) (january ∷ fortnight ∷ []) ≡ true)))
resolve_source-allowed_iff_example =
    resolve_source-allowed_iff print stored_print 28 40 1 "Europe/Moscow" (january ∷ fortnight ∷ [])

resolve_source-latest_example :
    (last : ℕ) × ((resolve_source print stored_print 28
        (january ∷ fortnight ∷ [])
        40
        1
        "Europe/Moscow").effective_as_of
      ≡ some last)
    × (last ≤ 28)
    × (last ≤ 40)
    × (all (covers last) (january ∷ fortnight ∷ []) ≡ true)
    × (20 ≤ last)
resolve_source-latest_example =
    resolve_source-latest print stored_print 28 40 1 "Europe/Moscow" (january ∷ fortnight ∷ []) 20
      is_allowed (omega arith) (omega arith) is_covered
