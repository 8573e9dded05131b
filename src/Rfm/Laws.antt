-- ===== src/Rfm/Laws.antt =====
-- rfm.py: the loop of `tied_quintiles` against the closed form of a score, and the segment rules.
use sales_journal.Prelude.{
  All, Bool, Bool-cases, List, [], ap, arith, eq_of_parts, eqb_ℤ, false, if◌then◌else◌, inl, inr,
  length, ltb_ℤ, map, refl, suc, tally, true, zero, ℕ, ℤ, ◌*◌, ◌+◌, ◌/◌, ◌<ℤ◌, ◌∙◌, ◌∷◌, ◌≡◌, ◌≤ℤ◌,
  ◌≤◌,
}
use native.Mathlib.Nat.{le-div_iff_mul-le, div-mul-le_self, le_trans, div-zero}
use sales_journal.Rfm.{ordered, count, band, oriented, score_from, scores, score_of, tied_quintiles}
use sales_journal.Rfm.Order.{Ascending, Has, ordered-Ascending, Has-ordered}

-- How many values are smaller than `v`.
abbrev pub below : ℤ → List ℤ → ℕ
below v = tally (λ w. ltb_ℤ w v)

-- The values counted at the keys that are smaller than `v`.
mass : List ℤ → List ℤ → ℤ → ℕ
mass [] values v = 0
mass (u ∷ us) values v =
    let rest = mass us values v in if ltb_ℤ u v then count u values + rest else rest

mass_above : (us values : List ℤ) (w v : ℤ) → All (λ u. w <ℤ u) us → v ≤ℤ w → mass us values v ≡ 0
unfolding mass
mass_above [] values w v a h = refl
mass_above (u ∷ us) values w v a h = ground (arith, mass_above us values w v a.1)

-- A key that is no value at all adds nothing.
mass_empty : (us : List ℤ) (v : ℤ) → mass us [] v ≡ 0
unfolding mass
mass_empty [] v = refl
mass_empty (u ∷ us) v = ground (arith, mass_empty us v)

-- One more value is counted once, at its own key, if that key is smaller than `v`.
mass_absent :
    (us values : List ℤ) (x v : ℤ)
    → All (λ u. x <ℤ u) us
    → mass us (x ∷ values) v ≡ mass us values v
unfolding mass
mass_absent [] values x v a = refl
mass_absent (u ∷ us) values x v a = ground (arith, mass_absent us values x v a.1)

All-move : (us : List ℤ) (x u : ℤ) → All (λ w. u <ℤ w) us → eqb_ℤ u x ≡ true → All (λ w. x <ℤ w) us
All-move [] x u a e = tt
All-move (w ∷ us) x u a e = (ground arith, All-move us x u a.1 e)

Has-above : (us : List ℤ) (x u : ℤ) → All (λ w. u <ℤ w) us → Has x us → u <ℤ x
Has-above [] x u a h = cc
Has-above (w ∷ us) x u a h = ground (arith, Has-above us x u a.1)

mass_one :
    (us values : List ℤ) (x v : ℤ)
    → Ascending us
    → Has x us
    → mass us (x ∷ values) v ≡ mass us values v + (if ltb_ℤ x v then 1 else 0)
unfolding mass
mass_one [] values x v a h = cc
mass_one (u ∷ us) values x v a h = elim (Bool-cases (eqb_ℤ u x)) [
  | inl same ↦ ground (arith, mass_absent us values x v (All-move us x u a.0 same))
  | inr other ↦ ground (arith, mass_one us values x v a.1, Has-above us x u a.0)
]

Includes : List ℤ → List ℤ → Type 0
Includes us values = All (λ v. Has v us) values

mass-eq-below :
    (us values : List ℤ) (v : ℤ)
    → Ascending us
    → All (λ x. Has x us) values
    → mass us values v ≡ below v values
mass-eq-below us [] v a h = mass_empty us v
mass-eq-below us (x ∷ values) v a h =
    ground (arith, mass_one us values x v a h.0, mass-eq-below us values v a h.1)

-- The loop from any number of values passed.
score_from_lem :
    (high : Bool) (values : List ℤ) (passed : ℕ) (us : List ℤ) (v : ℤ)
    → Ascending us
    → Has v us
    → score_of (score_from high values passed us) v
      ≡ oriented high (band (passed + mass us values v) (count v values) (length values))
unfolding score_from score_of mass
score_from_lem high values passed [] v a h = cc
score_from_lem high values passed (u ∷ us) v a h = elim (Bool-cases (eqb_ℤ u v)) [
  | inl same ↦
      let e : u ≡ v = eq_of_parts u v (ground arith) in
      ground (arith, mass_above us values u v a.0, ap (λ t. count t values) e)
  | inr other ↦
      ground
        (arith, Has-above us v u a.0, score_from_lem high values (passed + count u values) us v a.1)
]

All-Has-ordered :
    (vs values : List ℤ) → All (λ v. Has v values) vs → All (λ v. Has v (ordered values)) vs
All-Has-ordered [] values h = tt
All-Has-ordered (v ∷ vs) values h = (Has-ordered v values h.0, All-Has-ordered vs values h.1)

All-Has_more :
    (vs values : List ℤ) (x : ℤ) → All (λ v. Has v values) vs → All (λ v. Has v (x ∷ values)) vs
All-Has_more [] values x h = tt
All-Has_more (v ∷ vs) values x h = (ground arith, All-Has_more vs values x h.1)

All-Has_self : (values : List ℤ) → All (λ v. Has v values) values
All-Has_self [] = tt
All-Has_self (x ∷ values) = (ground arith, All-Has_more values values x (All-Has_self values))

-- The score of a value in closed form: from how many values are smaller and how many are equal.
pub rank_score : Bool → List ℤ → ℤ → ℕ
rank_score high values v = oriented high (band (below v values) (count v values) (length values))

-- The score that the loop over the ordered values gives to a value of the sample is the closed form.
pub score_of-scores :
    (high : Bool) (values : List ℤ) (v : ℤ)
    → Has v values
    → score_of (scores high values) v ≡ rank_score high values v
unfolding scores rank_score
score_of-scores high values v h =
    score_from_lem high values 0 (ordered values) v (ordered-Ascending values)
      (Has-ordered v values h)
    ∙ ap (λ k. oriented high (band k (count v values) (length values)))
        (omega (
          arith,
          mass-eq-below (ordered values) values v (ordered-Ascending values)
              (All-Has-ordered values values (All-Has_self values)),
        ))

div_mono : (a b n : ℕ) → a ≤ b → a / n ≤ b / n
div_mono a b zero h = rw (div-zero, div-zero) (omega arith)
div_mono a b (suc n) h =
    (le-div_iff_mul-le (omega arith)).1 (le_trans (div-mul-le_self a (suc n)) h)

band_mono : (p q s t n : ℕ) → 2 * p + s ≤ 2 * q + t → band p s n ≤ band q t n
unfolding band
band_mono p q s t n h =
    omega (arith, div_mono ((2 * p + s) * 5) ((2 * q + t) * 5) (2 * n) (omega arith))

band_bounds : (p s n : ℕ) → (1 ≤ band p s n) × (band p s n ≤ 5)
unfolding band
band_bounds p s n = omega arith

below_split :
    (values : List ℤ) (v w : ℤ) → v <ℤ w → below v values + count v values ≤ below w values
below_split [] v w h = omega arith
below_split (x ∷ values) v w h = ground (arith, below_split values v w h)

-- Equal values are equal.
same_value : (v w : ℤ) → eqb_ℤ v w ≡ true → v ≡ w
same_value v w h = eq_of_parts v w (ground arith)

band_order :
    (values : List ℤ) (v w : ℤ)
    → v ≤ℤ w
    → band (below v values) (count v values) (length values)
      ≤ band (below w values) (count w values) (length values)
band_order values v w h = elim (Bool-cases (eqb_ℤ v w)) [
  | inl same ↦ rw (same_value v w same) (omega arith)
  | inr other ↦
      let less : v <ℤ w = ground arith in
      band_mono (below v values) (below w values) (count v values) (count w values) (length values)
        (omega (arith, below_split values v w less))
]

-- Each member's score is the closed form, in the order of the values.
pub tied_quintiles-eq :
    (high : Bool) (values : List ℤ)
    → tied_quintiles high values ≡ map (rank_score high values) values
unfolding tied_quintiles
tied_quintiles-eq high values = go values (All-Has_self values)
  where
    go :
        (vs : List ℤ)
        → All (λ v. Has v values) vs
        → map (score_of (scores high values)) vs ≡ map (rank_score high values) vs
    go [] h = refl
    go (v ∷ vs) h = cc (score_of-scores high values v h.0, go vs h.1)

-- Scores of members are from 1 to 5 and follow the order of the values: up where high is good, down where low
-- is good.
pub tied_quintiles-order :
    (high : Bool) (values : List ℤ) (v w : ℤ)
    → Has v values
    → Has w values
    → v ≤ℤ w
    → let sv = score_of (scores high values) v in
      let sw = score_of (scores high values) w in
      (1 ≤ sv) × (sv ≤ 5) × (if high then sv ≤ sw else sw ≤ sv)
unfolding rank_score oriented
tied_quintiles-order high values v w hv hw h =
    rw (score_of-scores high values v hv, score_of-scores high values w hw) (order high)
  where
    bv : ℕ
    bv = band (below v values) (count v values) (length values)

    bw : ℕ
    bw = band (below w values) (count w values) (length values)

    order :
        (b : Bool)
        → (1 ≤ oriented b bv)
          × (oriented b bv ≤ 5)
          × (if b then oriented b bv ≤ oriented b bw else oriented b bw ≤ oriented b bv)
    order true = (
      (band_bounds (below v values) (count v values) (length values)).0,
      (band_bounds (below v values) (count v values) (length values)).1,
      band_order values v w h,
    )
    order false = (
      omega (arith, band_bounds (below v values) (count v values) (length values)),
      omega (arith, band_bounds (below v values) (count v values) (length values)),
      omega (arith, band_order values v w h),
    )
