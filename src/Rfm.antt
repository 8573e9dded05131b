-- ===== src/Rfm.antt =====
-- backend/app/services/rfm.py: quintile scores and client segments.
use sales_journal.Prelude.{
  Bool, List, Option, [], eqb_ℤ, false, if◌then◌else◌, leb, leb_ℤ, length, ltb, ltb_ℤ, map, max,
  min, none, not, pos, some, sub_ℕ, tally, true, ℕ, ℤ, ◌&&◌, ◌*◌, ◌++◌, ◌+◌, ◌-◌, ◌/◌, ◌==◌, ◌||◌,
  ◌∷◌,
}
mod Order
pub mod Laws
pub mod Segments
mod Tests

-- `sorted(set(values))`: ascending, each value once.
pub place : ℤ → List ℤ → List ℤ
place v [] = v ∷ []
place v (w ∷ ws) =
    let rest = place v ws in
    if ltb_ℤ v w then v ∷ w ∷ ws else if eqb_ℤ v w then w ∷ ws else w ∷ rest

pub ordered : List ℤ → List ℤ
ordered [] = []
ordered (v ∷ vs) = place v (ordered vs)

-- `values.count(value)`
abbrev pub count : ℤ → List ℤ → ℕ
count v = tally (λ w. eqb_ℤ w v)

-- `int(midpoint * 5 / n) + 1` clamped to 1..5, where `midpoint = passed + count / 2`: twice the
-- midpoint is a whole number, and the quotient is rounded down.
pub band : ℕ → ℕ → ℕ → ℕ
band passed times n = min 5 (max 1 ((2 * passed + times) * 5 / (2 * n) + 1))

pub oriented : Bool → ℕ → ℕ
oriented high_is_good score = if high_is_good then score else 6 - score

-- The loop over the ordered values: a score for each, with the number of values passed so far.
pub score_from : Bool → List ℤ → ℕ → List ℤ → List (ℤ × ℕ)
score_from high values passed [] = []
score_from high values passed (v ∷ vs) =
    (v, oriented high (band passed (count v values) (length values)))
    ∷ score_from high values (passed + count v values) vs

pub scores : Bool → List ℤ → List (ℤ × ℕ)
scores high values = score_from high values 0 (ordered values)

-- `scores[value]`; every value asked for is a key, and 0 stands for a missing one.
pub score_of : List (ℤ × ℕ) → ℤ → ℕ
score_of [] v = 0
score_of ((w, s) ∷ rest) v = let other = score_of rest v in if eqb_ℤ w v then s else other

-- The first result of `tied_quintiles`.
pub tied_quintiles : Bool → List ℤ → List ℕ
tied_quintiles high values = map (score_of (scores high values)) values

-- `min(...)` and `max(...)` of a list that is not empty.
pub least : ℤ → List ℤ → ℤ
least v [] = v
least v (w ∷ ws) = least (if ltb_ℤ w v then w else v) ws

pub greatest : ℤ → List ℤ → ℤ
greatest v [] = v
greatest v (w ∷ ws) = greatest (if ltb_ℤ v w then w else v) ws

pub record Boundary : Type 0 where
  pub score : ℕ
  pub lowest : ℤ
  pub highest : ℤ

-- `sorted(set(scores.values()), reverse=True)`
pub place_descending : ℕ → List ℕ → List ℕ
place_descending s [] = s ∷ []
place_descending s (t ∷ ts) =
    let rest = place_descending s ts in
    if ltb t s then s ∷ t ∷ ts else if s == t then t ∷ ts else t ∷ rest

pub descending : List (ℤ × ℕ) → List ℕ
descending [] = []
descending ((v, s) ∷ table) = place_descending s (descending table)

-- The values with a score, `v for v, s in scores.items() if s == score`.
pub values_of : ℕ → List (ℤ × ℕ) → List ℤ
values_of s [] = []
values_of s ((v, t) ∷ table) = let rest = values_of s table in if t == s then v ∷ rest else rest

pub boundary : List (ℤ × ℕ) → ℕ → Boundary
boundary table s = elim (values_of s table) [
  | [] ↦ record { score = s; lowest = pos 0; highest = pos 0 }
  | v ∷ vs ↦ record { score = s; lowest = least v vs; highest = greatest v vs }
]

-- The second result of `tied_quintiles`.
pub boundaries : Bool → List ℤ → List Boundary
boundaries high values = map (boundary (scores high values)) (descending (scores high values))

-- Cycles are compared and nothing else, so they are given in any common unit.
pub record SegmentSettings : Type 0 where
  pub new_days : ℤ
  pub lost_days : ℤ
  pub sleeping_cycle : ℕ
  pub lost_cycle : ℕ

pub data Segment : Type 0 where
  regular_active large fresh promising sleeping lost rare inactive : Segment

pub data Tag : Type 0 where
  large_client high_frequency recent_purchase : Tag

pub record Row : Type 0 where
  pub recency_days : ℤ
  pub frequency : ℕ
  pub monetary : ℤ
  pub first_purchase : ℕ
  pub cycle_overdue : Option ℕ
  pub r_score : ℕ
  pub f_score : ℕ
  pub m_score : ℕ
  pub rfm_code : List ℕ
  pub first_purchase_days : ℤ
  pub segment : Segment
  pub tags : List Tag

-- `overdue is not None and overdue >= limit`
pub overdue_from : ℕ → Option ℕ → Bool
overdue_from limit none = false
overdue_from limit (some overdue) = leb limit overdue

pub tags_of : Row → List Tag
tags_of row =
    (if leb 4 row.m_score then large_client ∷ [] else [])
    ++ (if leb 4 row.f_score then high_frequency ∷ [] else [])
    ++ (if leb 4 row.r_score then recent_purchase ∷ [] else [])

pub is_lost : SegmentSettings → Row → Bool
is_lost settings row =
    leb_ℤ settings.lost_days row.recency_days || overdue_from settings.lost_cycle row.cycle_overdue

pub is_sleeping : SegmentSettings → Row → Bool
is_sleeping settings row =
    not (is_lost settings row)
    && (overdue_from settings.sleeping_cycle row.cycle_overdue || leb row.r_score 2)
    && (leb 3 row.f_score || leb 3 row.m_score)

pub is_new : SegmentSettings → Row → Bool
is_new settings row = leb_ℤ row.first_purchase_days settings.new_days && leb row.frequency 2

pub segment_client : SegmentSettings → Row → Segment × List Tag
segment_client settings row =
    let segment : Segment =
      if is_lost settings row
      then (if leb row.f_score 2 && leb row.m_score 2 then inactive else lost)
      else if is_sleeping settings row
      then sleeping
      else if is_new settings row
      then fresh
      else if leb 4 row.r_score && leb 4 row.f_score
      then regular_active
      else if leb 4 row.r_score && leb 2 row.frequency
      then promising
      else if leb 5 row.m_score
      then large
      else if leb row.f_score 2
      then rare
      else inactive in
    (segment, tags_of row)

-- The loop body of `enrich` for one row with its three scores.
pub enrich_row : ℕ → SegmentSettings → Row → ℕ → ℕ → ℕ → Row
enrich_row end settings row r f m =
    let scored : Row = record row {
      r_score = r;
      f_score = f;
      m_score = m;
      rfm_code = r ∷ f ∷ m ∷ [];
      first_purchase_days = sub_ℕ end row.first_purchase;
    } in
    let (segment, tags) = segment_client settings scored in
    record scored { segment = segment; tags = tags }

-- `zip(rows, rs, fs, ms)` ends with the shortest list.
pub enrich_rows : ℕ → SegmentSettings → List Row → List ℕ → List ℕ → List ℕ → List Row
enrich_rows end settings (row ∷ rows) (r ∷ rs) (f ∷ fs) (m ∷ ms) =
    enrich_row end settings row r f m ∷ enrich_rows end settings rows rs fs ms
enrich_rows end settings _ _ _ _ = []

-- The published boundaries, `{"r": rb, "f": fb, "m": mb}`.
pub record Boundaries : Type 0 where
  pub r : List Boundary
  pub f : List Boundary
  pub m : List Boundary

pub enrich : List Row → ℕ → SegmentSettings → List Row × Boundaries
enrich rows end settings =
    let rs = map (λ (row : Row). row.recency_days) rows in
    let fs = map (λ (row : Row). pos row.frequency) rows in
    let ms = map (λ (row : Row). row.monetary) rows in
    (
      enrich_rows end settings rows (tied_quintiles false rs) (tied_quintiles true fs)
          (tied_quintiles true ms),
      record { r = boundaries false rs; f = boundaries true fs; m = boundaries true ms },
    )
