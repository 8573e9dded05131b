-- ===== src/Rfm/Order.antt =====
-- rfm.py: the ordered distinct values, and how many values lie below one of them.
use sales_journal.Prelude.{
  All, Bool-cases, List, [], any, arith, eq_of_parts, eqb_ℤ, inl, inr, true, ℤ, ◌<ℤ◌, ◌∷◌, ◌≡◌,
}
use sales_journal.Rfm.{place, ordered}

-- Strictly ascending.
abbrev pub Ascending : List ℤ → Type 0
Ascending [] = Unit
Ascending (w ∷ ws) = All (λ u. w <ℤ u) ws × Ascending ws

abbrev pub Has : ℤ → List ℤ → Type 0
Has v ws = any (λ w. eqb_ℤ w v) ws ≡ true

All-place : (u v : ℤ) (ws : List ℤ) → u <ℤ v → All (λ w. u <ℤ w) ws → All (λ w. u <ℤ w) (place v ws)
unfolding place
All-place u v [] h a = (h, tt)
All-place u v (w ∷ ws) h a = ground (arith, All-place u v ws h a.1)

All-weaken : (u v : ℤ) (ws : List ℤ) → u <ℤ v → All (λ w. v <ℤ w) ws → All (λ w. u <ℤ w) ws
All-weaken u v [] h a = tt
All-weaken u v (w ∷ ws) h a = (omega arith, All-weaken u v ws h a.1)

place-Ascending : (v : ℤ) (ws : List ℤ) → Ascending ws → Ascending (place v ws)
unfolding place
place-Ascending v [] h = (tt, tt)
place-Ascending v (w ∷ ws) h =
    ground (arith, place-Ascending v ws h.1, All-place w v ws, All-weaken v w ws)

pub ordered-Ascending : (vs : List ℤ) → Ascending (ordered vs)
unfolding ordered
ordered-Ascending [] = tt
ordered-Ascending (v ∷ vs) = place-Ascending v (ordered vs) (ordered-Ascending vs)

Has-place_self : (v : ℤ) (ws : List ℤ) → Has v (place v ws)
unfolding place
Has-place_self v [] = ground arith
Has-place_self v (w ∷ ws) = ground (arith, Has-place_self v ws)

Has-place : (u v : ℤ) (ws : List ℤ) → Has u ws → Has u (place v ws)
unfolding place
Has-place u v [] h = cc
Has-place u v (w ∷ ws) h = ground (arith, Has-place u v ws)

pub Has-ordered : (v : ℤ) (vs : List ℤ) → Has v vs → Has v (ordered vs)
unfolding ordered
Has-ordered v [] h = cc
Has-ordered v (u ∷ vs) h = elim (Bool-cases (eqb_ℤ u v)) [
  | inl same ↦
      let e : u ≡ v = eq_of_parts u v (ground arith) in rw (← e) (Has-place_self u (ordered vs))
  | inr other ↦ Has-place v u (ordered vs) (Has-ordered v vs (ground arith))
]
