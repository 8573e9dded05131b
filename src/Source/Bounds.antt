-- ===== src/Source/Bounds.antt =====
-- analytics_source.py: the bounds that the imports declare, one by one and together.
use sales_journal.Prelude.{
  All, Bool, Bool-cases, List, Option, String, [], all, ap, arith, eq_iff, false, inl, inr, is_some,
  leb, length, none, refl, some, str_eq, suc, sym, true, ℕ, ◌&&◌, ◌++◌, ◌↔◌, ◌∙◌, ◌∷◌, ◌≡◌,
}
use sales_journal.Source.{
  ImportEvidence, place, sorted, earlier, later, earliest_end, latest_start, is_method, is_failed,
  method_failed, undeclared, precedes, is_reversed, is_outside, when, check_import, check_imports,
  report_period,
}

-- A day is not after a bound, or not before one; a missing bound excludes nothing.
unfoldable pub at_most : ℕ → Option ℕ → Bool
at_most day none = true
at_most day (some bound) = leb day bound

unfoldable pub at_least : ℕ → Option ℕ → Bool
at_least day none = true
at_least day (some bound) = leb bound day

-- The day lies in the period that the import declares.
unfoldable pub covers : ℕ → ImportEvidence → Bool
covers day e = at_least day e.declared_start && at_most day e.declared_end

-- A finished import without errors that declares a period and has observed nothing outside of it.
pub record IsSound (e : ImportEvidence) : Type 0 where
  pub finished : str_eq e.status "completed" ≡ true
  pub no_errors : e.error_rows ≡ 0
  pub imported : is_some e.imported_at ≡ true
  pub by_report : is_method report_period e.method ≡ true
  pub has_start : is_some e.declared_start ≡ true
  pub has_end : is_some e.declared_end ≡ true
  pub in_order : precedes e.declared_end e.declared_start ≡ false
  pub observed_after : precedes e.observed_start e.declared_start ≡ false
  pub observed_before : precedes e.declared_end e.observed_end ≡ false

pub check_import-IsSound : (e : ImportEvidence) → check_import e ≡ [] → IsSound e
unfolding check_import is_failed method_failed undeclared is_reversed is_outside when
check_import-IsSound e h = record {
  finished = ground arith;
  no_errors = ground arith;
  imported = ground arith;
  by_report = ground arith;
  has_start = ground arith;
  has_end = ground arith;
  in_order = ground arith;
  observed_after = ground arith;
  observed_before = ground arith;
}

-- No import is both declared and failed: the three methods are different texts.
other_method :
    (method : Option String)
    → is_method report_period method ≡ true
    → (is_method "INVALID_REPORT_PERIOD" method ≡ false)
      × (is_method "METADATA_EXTRACTION_FAILED" method ≡ false)
unfolding is_method
other_method none h = cc
other_method (some m) h = rw (← eq_of m h) (refl, refl)
  where
    eq_of : (m : String) → str_eq m report_period ≡ true → report_period ≡ m
    eq_of m h = sym ((eq_iff m report_period).0 h)

pub IsSound-check_import : (e : ImportEvidence) → IsSound e → check_import e ≡ []
unfolding check_import is_failed method_failed undeclared is_reversed is_outside when
IsSound-check_import e s = ground (
  arith,
  other_method e.method s.by_report,
  s.finished,
  s.no_errors,
  s.imported,
  s.by_report,
  s.has_start,
  s.has_end,
  s.in_order,
  s.observed_after,
  s.observed_before,
)

pub check_imports-IsSound : (es : List ImportEvidence) → check_imports es ≡ [] → All IsSound es
unfolding check_imports
check_imports-IsSound [] h = tt
check_imports-IsSound (e ∷ es) h = (
  check_import-IsSound e (front (check_import e) (check_imports es) h),
  check_imports-IsSound es (back (check_import e) (check_imports es) h),
)
  where
    front : {A : Type 0} (xs ys : List A) → xs ++ ys ≡ [] → xs ≡ []
    front [] ys h = refl
    front (x ∷ xs) ys h = cc

    back : {A : Type 0} (xs ys : List A) → xs ++ ys ≡ [] → ys ≡ []
    back [] ys h = h
    back (x ∷ xs) ys h = cc

pub IsSound-check_imports : (es : List ImportEvidence) → All IsSound es → check_imports es ≡ []
unfolding check_imports
IsSound-check_imports [] s = refl
IsSound-check_imports (e ∷ es) s =
    rw (IsSound-check_import e s.0, IsSound-check_imports es s.1) refl

at_most-earlier :
    (day : ℕ) (a b : Option ℕ) → at_most day (earlier a b) ≡ at_most day a && at_most day b
unfolding at_most earlier
at_most-earlier day a b = ground arith

at_least-later :
    (day : ℕ) (a b : Option ℕ) → at_least day (later a b) ≡ at_least day a && at_least day b
unfolding at_least later
at_least-later day a b = ground arith

-- A day is in all declared periods if it is between the latest start and the earliest end.
pub all-covers :
    (day : ℕ) (es : List ImportEvidence)
    → all (covers day) es ≡ at_least day (latest_start es) && at_most day (earliest_end es)
unfolding covers latest_start earliest_end at_most at_least
all-covers day [] = refl
all-covers day (e ∷ es) = ground (
  arith,
  all-covers day es,
  at_most-earlier day e.declared_end (earliest_end es),
  at_least-later day e.declared_start (latest_start es),
)

All-place :
    (P : ImportEvidence → Type 0) (e : ImportEvidence) (es : List ImportEvidence)
    → (P e × All P es) ↔ All P (place e es)
unfolding place
All-place P e [] = (λ p. p, λ p. p)
All-place P e (f ∷ fs) = elim (Bool-cases (leb e.id f.id)) [
  | inl low ↦ rw (low, place) (λ p. p, λ p. p)
  | inr high ↦
      rw (high, place)
        (
          λ p. (p.1.0, (All-place P e fs).0 (p.0, p.1.1)),
          λ p. let q = (All-place P e fs).1 p.1 in (q.0, (p.0, q.1)),
        )
]

-- Sorting keeps what holds of each import.
pub All-sorted :
    (P : ImportEvidence → Type 0) (es : List ImportEvidence) → All P es ↔ All P (sorted es)
unfolding sorted
All-sorted P [] = (λ p. p, λ p. p)
All-sorted P (e ∷ es) = (
  λ p. (All-place P e (sorted es)).0 (p.0, (All-sorted P es).0 p.1),
  λ p. let q = (All-place P e (sorted es)).1 p in (q.0, (All-sorted P es).1 q.1),
)

length-place :
    (e : ImportEvidence) (es : List ImportEvidence) → length (place e es) ≡ suc (length es)
unfolding place
length-place e [] = refl
length-place e (f ∷ fs) = ground (arith, length-place e fs)

pub length-sorted : (es : List ImportEvidence) → length (sorted es) ≡ length es
unfolding sorted
length-sorted [] = refl
length-sorted (e ∷ es) = length-place e (sorted es) ∙ ap suc (length-sorted es)

all-place :
    (p : ImportEvidence → Bool) (e : ImportEvidence) (es : List ImportEvidence)
    → all p (place e es) ≡ p e && all p es
unfolding place
all-place p e [] = ground arith
all-place p e (f ∷ fs) = ground (arith, all-place p e fs)

pub all-sorted :
    (p : ImportEvidence → Bool) (es : List ImportEvidence) → all p (sorted es) ≡ all p es
unfolding sorted
all-sorted p [] = refl
all-sorted p (e ∷ es) = ground (arith, all-place p e (sorted es), all-sorted p es)
