-- ===== src/Automation/Reviews.antt =====
-- analytics_automation.py and analytics_release_guard.py: what the reviews of identities keep, and
-- that each of them takes back the releases that stand on the identity.
use sales_journal.Prelude.{
  All, Any, Bool, Bool-cases, List, Option, Result-cases, String, [], all, ap, arith, eq_refl,
  false, inl, inr, length, length-append, none, not, ok, or_else, pos, some, str_eq, true, ℕ, ℤ,
  ◌&&◌, ◌++◌, ◌+◌, ◌∙◌, ◌∷◌, ◌≡◌, ◌≢◌, ◌≤◌,
}
use sales_journal.Automation.{
  Decision, identity_reviewed, review_identity, reviewed_by, reviewed_row, Texts, Identity, Review,
  all_confirmed, find_identity, is_positive, is_unambiguous, is_verified, known_text, put_identity,
  next_identities, reviewed_by, stored_revision,
}
use sales_journal.Automation.Guard.{Now, Release, BindingGuard, current_release, stands}
use sales_journal.Automation.Laws.{current_release-parts}

-- A verified identity is one that the release's own check accepts: a known client, a manager, the
-- six confirmations, and a known reviewer with a reason.
abbrev pub IsConfirmed : Texts → Identity → Type 0
IsConfirmed lib i =
    is_verified i.status ≡ true
    → (known_text lib (some i.client_id) ≡ true)
      × (is_positive (some i.manager_id) ≡ true)
      × (all_confirmed i.evidence ≡ true)
      × (known_text lib i.evidence.reviewer ≡ true)
      × (known_text lib i.evidence.reason ≡ true)
      × (1 ≤ i.revision)

All-put_identity :
    (P : Identity → Type 0) (row : Identity) (is : List Identity)
    → P row
    → All P is
    → All P (put_identity row is)
unfolding put_identity
All-put_identity P row [] p h = (p, tt)
All-put_identity P row (i ∷ is) p (a, h) =
    elim (Bool-cases (str_eq row.subject_key i.subject_key)) [
      | inl same ↦ rw same (p, h)
      | inr other ↦ rw other (a, All-put_identity P row is p h)
    ]

find_identity-put :
    (row : Identity) (is : List Identity)
    → find_identity row.subject_key (put_identity row is) ≡ some row
unfolding find_identity put_identity
find_identity-put row [] = ground (arith, eq_refl row.subject_key)
find_identity-put row (i ∷ is) = ground (arith, find_identity-put row is, eq_refl row.subject_key)

-- What a review that succeeds has checked.
next_identities-parts :
    (lib : Texts) (r : Review) (actor : Option String) (expected : ℕ) (is js : List Identity)
    → next_identities lib r actor (some expected) is ≡ ok js
    → (known_text lib actor ≡ true)
      × ((is_verified r.status && not (is_unambiguous lib r)) ≡ false)
      × (stored_revision r.subject_key is ≡ expected)
      × (js ≡ put_identity (reviewed_row actor expected r) is)
unfolding next_identities
next_identities-parts lib r actor expected is js h =
    (ground arith, ground arith, ground arith, ground arith)

known_text-some :
    (lib : Texts) (o : Option String)
    → known_text lib o ≡ true
    → known_text lib (some (or_else "" o)) ≡ true
unfolding known_text
known_text-some lib none h = absurd (ground arith)
known_text-some lib (some s) h = h

is_positive-some :
    (o : Option ℤ) → is_positive o ≡ true → is_positive (some (or_else (pos 0) o)) ≡ true
unfolding is_positive
is_positive-some none h = absurd (ground arith)
is_positive-some (some z) h = h

next_identities-IsConfirmed :
    (lib : Texts) (r : Review) (actor : Option String) (expected : ℕ) (is js : List Identity)
    → All (IsConfirmed lib) is
    → next_identities lib r actor (some expected) is ≡ ok js
    → All (IsConfirmed lib) js
unfolding is_unambiguous reviewed_row reviewed_by all_confirmed
next_identities-IsConfirmed lib r actor expected is js before h =
    let (known, checked, _, same) = next_identities-parts lib r actor expected is js h in
    rw same (
      All-put_identity (IsConfirmed lib) (reviewed_row actor expected r) is
        (λ v. (
          known_text-some lib r.client_id (ground arith),
          is_positive-some r.manager_id (ground arith),
          ground arith,
          known,
          ground arith,
          omega arith,
        ))
        before)

all-Any :
    {A : Type 0} (p : A → Bool) (a : A) (xs : List A)
    → all p xs ≡ true
    → Any (λ x. x ≡ a) xs
    → p a ≡ true
all-Any p a [] h there = absurd there
all-Any p a (x ∷ xs) h (inl e) = rw (← e) (ground arith)
all-Any p a (x ∷ xs) h (inr there) = all-Any p a xs (ground arith) there

next_identities-withdraws :
    (lib : Texts) (review : Review) (actor : Option String) (expected : ℕ) (is js : List Identity)
    (g : BindingGuard) (now : Now) (r x : Release)
    → stands is g ≡ true
    → review.subject_key ≡ g.key
    → next_identities lib review actor (some expected) is ≡ ok js
    → Any (λ k. k ≡ g) r.guards
    → now.identities ≡ js
    → current_release now (some r) ≢ ok x
unfolding stands stored_revision reviewed_row
next_identities-withdraws lib review actor expected is js g now r x stood key h guarded found e =
    let (_, _, at, same) = next_identities-parts lib review actor expected is js h in
    let row = reviewed_row actor expected review in
    let (_, _, _, standing) = current_release-parts now r x e in
    let still : stands js g ≡ true =
      all-Any (stands js) g r.guards (rw (← found) standing) guarded in
    let there : find_identity g.key js ≡ some row =
      rw same (rw (← key) (find_identity-put row is)) in
    absurd (ground arith)

review_identity-next :
    (lib : Texts) (r : Review) (actor : Option String) (expected : ℕ) (is js : List Identity)
    (log log' : List Decision)
    → review_identity lib r actor (some expected) is log ≡ ok (js, log')
    → (next_identities lib r actor (some expected) is ≡ ok js)
      × (d : Decision) × (log' ≡ log ++ d ∷ [])
unfolding review_identity
review_identity-next lib r actor expected is js log log' h =
    elim (Result-cases (next_identities lib r actor (some expected) is)) [
      | inl (e, refused) ↦ absurd (ground arith)
      | inr (found, p) ↦ (
        ground arith,
        identity_reviewed actor r.subject_key (expected + 1) r.status
            (reviewed_by actor r.evidence),
        ground arith,
      )
    ]

-- A review that succeeds keeps every verified identity confirmed: a known client, a manager, the six
-- confirmations, a known reviewer with a reason, and a revision from one, which is what a release
-- asks of its identities. The log gets one decision.
pub review_identity-IsConfirmed :
    (lib : Texts) (r : Review) (actor : Option String) (expected : ℕ) (is js : List Identity)
    (log log' : List Decision)
    → All (IsConfirmed lib) is
    → review_identity lib r actor (some expected) is log ≡ ok (js, log')
    → All (IsConfirmed lib) js × (length log' ≡ length log + 1)
review_identity-IsConfirmed lib r actor expected is js log log' before h =
    let (step, d, logged) = review_identity-next lib r actor expected is js log log' h in
    (
      next_identities-IsConfirmed lib r actor expected is js before step,
      ap length logged ∙ length-append log (d ∷ []),
    )

-- A release whose guard stands is refused after any review of that guard's identity, also one that
-- confirms the same client and manager.
pub review_identity-withdraws :
    (lib : Texts) (review : Review) (actor : Option String) (expected : ℕ) (is js : List Identity)
    (log log' : List Decision) (g : BindingGuard) (now : Now) (r x : Release)
    → stands is g ≡ true
    → review.subject_key ≡ g.key
    → review_identity lib review actor (some expected) is log ≡ ok (js, log')
    → Any (λ k. k ≡ g) r.guards
    → now.identities ≡ js
    → current_release now (some r) ≢ ok x
review_identity-withdraws lib review actor expected is js log log' g now r x stood key h =
    next_identities-withdraws lib review actor expected is js g now r x stood key
      (review_identity-next lib review actor expected is js log log' h).0
