-- ===== src/Rfm/Tests.antt =====
-- rfm.py: five clients, and one row.
use sales_journal.Prelude.{
  List, [], arith, false, map, negsuc, pos, refl, some, true, ℤ, ◌∷◌, ◌≡◌, ◌≤◌,
}
use sales_journal.Rfm.{Row, SegmentSettings, rare, scores, score_of, overdue_from, enrich}
use sales_journal.Rfm.Laws.{rank_score, tied_quintiles-order}
use sales_journal.Rfm.Segments.{enrich-columns}

abbrev amounts : List ℤ
amounts = pos 10 ∷ pos 30 ∷ pos 10 ∷ negsuc 4 ∷ pos 50 ∷ []

abbrev settings : SegmentSettings
settings = record { new_days = pos 30; lost_days = pos 180; sleeping_cycle = 15; lost_cycle = 30 }

abbrev good_row : Row
good_row = record {
  recency_days = pos 3;
  frequency = 9;
  monetary = pos 5000;
  first_purchase = 100;
  cycle_overdue = some 4;
  r_score = 5;
  f_score = 5;
  m_score = 4;
  rfm_code = [];
  first_purchase_days = pos 300;
  segment = rare;
  tags = [];
}

tied_quintiles-order_example :
    let sv = score_of (scores true amounts) (pos 10) in
    let sw = score_of (scores true amounts) (pos 30) in (1 ≤ sv) × (sv ≤ 5) × (sv ≤ sw)
tied_quintiles-order_example =
    tied_quintiles-order true amounts (pos 10) (pos 30) refl refl (omega arith)

not_overdue : overdue_from settings.sleeping_cycle good_row.cycle_overdue ≡ false
unfolding overdue_from
not_overdue = refl

enrich-columns_example :
    let rows = good_row ∷ [] in
    let done = (enrich rows 400 settings).0 in
    (map (λ (row : Row). row.r_score) done
      ≡ map
          (rank_score false (map (λ (row : Row). row.recency_days) rows))
          (map (λ (row : Row). row.recency_days) rows))
    × (map (λ (row : Row). row.f_score) done
        ≡ map
            (rank_score true (map (λ (row : Row). pos row.frequency) rows))
            (map (λ (row : Row). pos row.frequency) rows))
    × (map (λ (row : Row). row.m_score) done
        ≡ map
            (rank_score true (map (λ (row : Row). row.monetary) rows))
            (map (λ (row : Row). row.monetary) rows))
    × (map (λ (row : Row). row.monetary) done ≡ map (λ (row : Row). row.monetary) rows)
enrich-columns_example = enrich-columns (good_row ∷ []) 400 settings
