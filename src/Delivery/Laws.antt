-- ===== src/Delivery/Laws.antt =====
-- analytics_delivery.py: the numbers run without a gap, and a run keeps its own.
use sales_journal.Prelude.{
  Bool-cases, List, Option, Option-cases, String, [], arith, eq_iff, eq_refl, inl, inr, none, ok,
  or_else, refl, some, str_eq, sym, true, ℕ, ◌+◌, ◌-◌, ◌∷◌, ◌≡◌, ◌≤◌, ◌⊎◌,
}
use sales_journal.Delivery.{
  Algorithm, Delivery, Publication, Run, find_publication, is_publishable, publish_delivery,
}

-- The publications are numbered from the head down to one, and no run stands twice.
abbrev pub IsNumbered : ℕ → List Publication → Type 0
IsNumbered head [] = head ≡ 0
IsNumbered head (p ∷ ps) =
    (p.sequence ≡ head)
    × (1 ≤ head)
    × (find_publication p.run_id ps ≡ none)
    × IsNumbered (head - 1) ps

-- The two ways a publication goes, and that it is one of them.
publish_delivery-cases :
    (a : Algorithm) (run : Run) (d e : Delivery) (n : ℕ)
    → publish_delivery a run d ≡ ok (n, e)
    → ((p : Publication) × (find_publication run.id d.publications ≡ some p)
        × (n ≡ p.sequence)
        × (e ≡ record d { head = some (or_else 0 d.head) }))
      ⊎ ((find_publication run.id d.publications ≡ none)
          × (n ≡ or_else 0 d.head + 1)
          × (e ≡ record {
            head = some (or_else 0 d.head + 1);
            publications =
                record { sequence = or_else 0 d.head + 1; run_id = run.id } ∷ d.publications;
          }))
unfolding publish_delivery
publish_delivery-cases a run d e n h =
    elim (Option-cases (find_publication run.id d.publications)) [
      | inr (p, found) ↦ inl (p, found, ground arith, ground arith)
      | inl fresh ↦ inr (fresh, ground arith, ground arith)
    ]

sub_one : (k : ℕ) → k + 1 - 1 ≡ k
sub_one k = omega arith

-- A publication keeps the numbers of the publications consecutive from one up to the head, one for
-- each run.
pub publish_delivery-IsNumbered :
    (a : Algorithm) (run : Run) (d e : Delivery) (n : ℕ)
    → IsNumbered (or_else 0 d.head) d.publications
    → publish_delivery a run d ≡ ok (n, e)
    → IsNumbered (or_else 0 e.head) e.publications
publish_delivery-IsNumbered a run d e n numbered h = elim (publish_delivery-cases a run d e n h) [
  | inl (p, found, _, same) ↦ rw same numbered
  | inr (fresh, _, same) ↦
      rw same (refl, omega arith, fresh, rw (sub_one (or_else 0 d.head)) numbered)
]

found_not_none : (o : Option Publication) (p : Publication) → o ≡ some p → o ≡ none → ⊥
found_not_none o p h k = ground arith

-- A publication that is there is found again after any other publication.
find_publication-kept :
    (a : Algorithm) (run : Run) (d e : Delivery) (n : ℕ) (id : String) (p : Publication)
    → publish_delivery a run d ≡ ok (n, e)
    → find_publication id d.publications ≡ some p
    → find_publication id e.publications ≡ some p
unfolding find_publication
find_publication-kept a run d e n id p h found = elim (publish_delivery-cases a run d e n h) [
  | inl (q, _, _, same) ↦ rw same found
  | inr (fresh, _, same) ↦ elim (Bool-cases (str_eq id run.id)) [
    | inl eq ↦
        let same_id : id ≡ run.id = (eq_iff id run.id).0 eq in
        absurd
          (found_not_none (find_publication run.id d.publications) p (rw same_id at found) fresh)
    | inr other ↦ rw (same, find_publication) (rw other found)
  ]
]

published-found :
    (a : Algorithm) (run : Run) (d e : Delivery) (n : ℕ)
    → publish_delivery a run d ≡ ok (n, e)
    → (p : Publication) × (find_publication run.id e.publications ≡ some p) × (p.sequence ≡ n)
unfolding find_publication
published-found a run d e n h = elim (publish_delivery-cases a run d e n h) [
  | inl (p, found, at, same) ↦ (p, rw same found, sym at)
  | inr (fresh, at, same) ↦ (
    record { sequence = or_else 0 d.head + 1; run_id = run.id },
    rw same (ground (arith, eq_refl run.id)),
    sym at,
  )
]

-- A run that was published gets the same number when it is published again, with any other
-- publication in between, and the publications stay as they are.
pub publish_delivery_again :
    (a b : Algorithm) (run other : Run) (d e f : Delivery) (n m : ℕ)
    → publish_delivery a run d ≡ ok (n, e)
    → publish_delivery b other e ≡ ok (m, f)
    → publish_delivery a run f ≡ ok (n, record f { head = some (or_else 0 f.head) })
unfolding publish_delivery
publish_delivery_again a b run other d e f n m first second =
    let (p, found, at) = published-found a run d e n first in
    let still = find_publication-kept b other e f m run.id p second found in
    let allowed : is_publishable a run ≡ true = ground arith in ground arith
