-- ===== src/Rfm/Segments.antt =====
-- rfm.py: which clients `segment_client` calls asleep or active, and what `enrich` keeps.
use sales_journal.Prelude.{
  Bool, List, [], ap, arith, false, length, map, pos, refl, suc, true, ℕ, ℤ, ◌<ℤ◌, ◌↔◌, ◌∙◌, ◌∷◌,
  ◌≡◌, ◌≤ℤ◌, ◌≤◌, ◌⊎◌,
}
use sales_journal.Rfm.Laws.{rank_score, tied_quintiles-eq}
use sales_journal.Rfm.{
  regular_active, sleeping, Row, SegmentSettings, is_lost, is_sleeping, is_new, overdue_from,
  segment_client, enrich_row, enrich_rows, enrich, tied_quintiles,
}

-- A client that has been away, by days or by its own cycle.
abbrev pub Away : SegmentSettings → Row → Type 0
Away settings row =
    (settings.lost_days ≤ℤ row.recency_days)
    ⊎ (overdue_from settings.lost_cycle row.cycle_overdue ≡ true)

-- A client that is not away is asleep exactly if its own cycle or a low recency score says so and it
-- bought often or for much.
pub segment_sleeping_iff :
    (settings : SegmentSettings) (row : Row)
    → ((segment_client settings row).0 ≡ sleeping) ↔ (
        ¬ Away settings row
        × ((overdue_from settings.sleeping_cycle row.cycle_overdue ≡ true) ⊎ (row.r_score ≤ 2))
        × ((3 ≤ row.f_score) ⊎ (3 ≤ row.m_score)))
unfolding segment_client is_lost is_sleeping is_new
segment_sleeping_iff settings row = (ground arith, ground arith)

-- A client with both scores at least 4, three purchases or more, and no sign of absence by days or
-- by its own cycle is a regular active one, if the cycle for sleeping is at most that for lost.
pub segment_active :
    (settings : SegmentSettings) (row : Row)
    → 4 ≤ row.r_score
    → 4 ≤ row.f_score
    → overdue_from settings.sleeping_cycle row.cycle_overdue ≡ false
    → (settings.sleeping_cycle ≤ settings.lost_cycle)
    → row.recency_days <ℤ settings.lost_days
    → 3 ≤ row.frequency
    → (segment_client settings row).0 ≡ regular_active
unfolding segment_client is_lost is_sleeping is_new overdue_from
segment_active settings row r f o c d n = ground arith

length-map {ℓ κ} :
    {A : Type ℓ} {B : Type κ} (f : A → B) (xs : List A) → length (map f xs) ≡ length xs
length-map f [] = refl
length-map f (x ∷ xs) = ap suc (length-map f xs)

length-tied_quintiles :
    (high : Bool) (values : List ℤ) → length (tied_quintiles high values) ≡ length values
unfolding tied_quintiles
length-tied_quintiles high values = length-map _ values

-- With a score of each kind for every row, no row is dropped and each gets its own scores.
enrich_rows_lem :
    (end : ℕ) (settings : SegmentSettings) (rows : List Row) (rs fs ms : List ℕ)
    → length rs ≡ length rows
    → length fs ≡ length rows
    → length ms ≡ length rows
    → let done = enrich_rows end settings rows rs fs ms in
      (map (λ (row : Row). row.r_score) done ≡ rs)
      × (map (λ (row : Row). row.f_score) done ≡ fs)
      × (map (λ (row : Row). row.m_score) done ≡ ms)
      × (map (λ (row : Row). row.monetary) done ≡ map (λ (row : Row). row.monetary) rows)
unfolding enrich_rows enrich_row segment_client
enrich_rows_lem end settings [] [] [] [] a b c = (refl, refl, refl, refl)
enrich_rows_lem end settings (row ∷ rows) (r ∷ rs) (f ∷ fs) (m ∷ ms) a b c =
    let ih = enrich_rows_lem end settings rows rs fs ms (omega arith) (omega arith) (omega arith) in
    (
      ap (λ l. r ∷ l) ih.0,
      ap (λ l. f ∷ l) ih.1,
      ap (λ l. m ∷ l) ih.2,
      ap (λ l. row.monetary ∷ l) ih.3,
    )
enrich_rows_lem end settings [] (r ∷ rs) fs ms a b c = absurd (omega arith)
enrich_rows_lem end settings [] [] (f ∷ fs) ms a b c = absurd (omega arith)
enrich_rows_lem end settings [] [] [] (m ∷ ms) a b c = absurd (omega arith)
enrich_rows_lem end settings (row ∷ rows) [] fs ms a b c = absurd (omega arith)
enrich_rows_lem end settings (row ∷ rows) (r ∷ rs) [] ms a b c = absurd (omega arith)
enrich_rows_lem end settings (row ∷ rows) (r ∷ rs) (f ∷ fs) [] a b c = absurd (omega arith)

-- `enrich` drops no row and mixes up no scores: each of the three score columns is the column of
-- quintiles of its own measure, recency counting downwards.
pub enrich-columns :
    (rows : List Row) (end : ℕ) (settings : SegmentSettings)
    → let done = (enrich rows end settings).0 in
      (map (λ (row : Row). row.r_score) done
        ≡ map
            (rank_score false (map (λ (row : Row). row.recency_days) rows))
            (map (λ (row : Row). row.recency_days) rows))
      × (map (λ (row : Row). row.f_score) done
          ≡ map
              (rank_score true (map (λ (row : Row). pos row.frequency) rows))
              (map (λ (row : Row). pos row.frequency) rows))
      × (map (λ (row : Row). row.m_score) done
          ≡ map
              (rank_score true (map (λ (row : Row). row.monetary) rows))
              (map (λ (row : Row). row.monetary) rows))
      × (map (λ (row : Row). row.monetary) done ≡ map (λ (row : Row). row.monetary) rows)
unfolding enrich
enrich-columns rows end settings =
    let lem =
      enrich_rows_lem end settings rows
        (tied_quintiles false (map (λ (row : Row). row.recency_days) rows))
        (tied_quintiles true (map (λ (row : Row). pos row.frequency) rows))
        (tied_quintiles true (map (λ (row : Row). row.monetary) rows))
        (length-tied_quintiles false _ ∙ length-map _ rows)
        (length-tied_quintiles true _ ∙ length-map _ rows)
        (length-tied_quintiles true _ ∙ length-map _ rows) in
    (
      lem.0 ∙ tied_quintiles-eq false _,
      lem.1 ∙ tied_quintiles-eq true _,
      lem.2 ∙ tied_quintiles-eq true _,
      lem.3,
    )
