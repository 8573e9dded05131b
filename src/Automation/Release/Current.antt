-- ===== src/Automation/Release/Current.antt =====
-- analytics_automation.py and analytics_release_guard.py: a release that has just been made passes the
-- check that stands before its delivery.
use sales_journal.Prelude.{
  Bool-cases, List, List-cases, Option, Option-cases, String, [], all, ap, arith, eq_iff, eq_refl,
  eqb_ℤ, false, inl, inr, ltb, negsuc, none, ok, or_else, pos, refl, some, str_eq, sym, tally, true,
  ℕ, ℤ, ◌++◌, ◌+◌, ◌<◌, ◌∙◌, ◌∷◌, ◌≡◌,
}
use sales_journal.Automation.{
  Identity, Policy, Texts, algorithm_policy_name, find_identity, same_text,
}
use sales_journal.Automation.Guard.{
  BindingGuard, Now, Release, automation_available, current_release, is_aliased, is_fresh,
  is_scheduled, is_verified_as, same_number, stands,
}
use sales_journal.Automation.Release.{
  Candidate, Context, Envelope, Payload, SourceRun, collect, is_current, is_switched,
  manifest_reasons, policy_reasons, reasons, run_reasons, settings_of,
}
use sales_journal.Automation.Release.Issue.{
  guards_of, is_alias, is_ready, new_release, ready_ones, release_churn, released, settle,
}

append-empty {ℓ} : {A : Type ℓ} (xs ys : List A) → xs ++ ys ≡ [] → (xs ≡ []) × (ys ≡ [])
append-empty [] ys h = (refl, h)
append-empty (x ∷ xs) ys h = absurd (ground arith)

-- What the database holds right after the release, at the same instant.
abbrev pub after_release : Context → Policy → Now
after_release c p = record {
  producer_enabled = c.producer_enabled;
  policy = some p;
  schedule = none;
  source_revision = c.source_revision;
  is_import_pending = c.is_import_pending;
  instant = c.instant;
  today = c.today;
  identities = c.identities;
}

policy-allowed :
    (lib : Texts) (c : Context) (p : Policy)
    → c.policy ≡ some p
    → collect (policy_reasons lib c) ≡ []
    → (c.producer_enabled ≡ true)
      × (p.enabled ≡ true)
      × (p.approved ≡ true)
      × (same_text algorithm_policy_name p.settings.algorithm_policy ≡ true)
unfolding policy_reasons collect is_switched settings_of
policy-allowed lib c p there h = (ground arith, ground arith, ground arith, ground arith)

run-allowed :
    (c : Context) (r : SourceRun)
    → collect (run_reasons c (some r)) ≡ []
    → (r.as_of + 1 ≡ c.today)
      × (same_number r.source_revision c.source_revision ≡ true)
      × (c.is_import_pending ≡ false)
unfolding run_reasons collect
run-allowed c r h = (ground arith, ground arith, ground arith)

manifest-allowed :
    (lib : Texts) (c : Context) (e : Envelope)
    → collect (manifest_reasons lib c e) ≡ []
    → is_current (settings_of c.policy).max_manifest_age_seconds c.instant e.payload ≡ true
unfolding manifest_reasons collect
manifest-allowed lib c e h = ground arith

is_current-unexpired :
    (age : Option ℤ) (now : ℕ) (p : Payload)
    → is_current age now p ≡ true
    → now < or_else 0 p.valid_until
unfolding is_current
is_current-unexpired none now p h = absurd (ground arith)
is_current-unexpired (some (pos n)) now p h = ground arith
is_current-unexpired (some (negsuc n)) now p h = absurd (ground arith)

find_identity-key :
    (key : String) (is : List Identity) (i : Identity)
    → find_identity key is ≡ some i
    → i.subject_key ≡ key
unfolding find_identity
find_identity-key key [] i h = absurd (ground arith)
find_identity-key key (x ∷ is) i h = elim (Bool-cases (str_eq key x.subject_key)) [
  | inl same ↦
      let eq : key ≡ x.subject_key = (eq_iff key x.subject_key).0 same in
      let here : x ≡ i = ground arith in ap (λ (t : Identity). t.subject_key) (sym here) ∙ sym eq
  | inr other ↦ find_identity-key key is i (ground arith)
]

eqb_ℤ_refl : (z : ℤ) → eqb_ℤ z z ≡ true
eqb_ℤ_refl (pos n) = ground arith
eqb_ℤ_refl (negsuc n) = ground arith

-- The guard that a release takes from an identity.
abbrev guard_of : Identity → BindingGuard
guard_of i = record {
  key = i.subject_key;
  revision = i.revision;
  client_id = i.client_id;
  manager_id = i.manager_id;
}

ready-stands :
    (lib : Texts) (c : Context) (k : Candidate) (i : Identity)
    → find_identity k.subject_key c.identities ≡ some i
    → is_ready lib c k i ≡ true
    → (stands c.identities (guard_of i) ≡ true)
      × (ltb 1 (tally (is_verified_as i.client_id) c.identities) ≡ false)
unfolding stands is_ready is_alias
ready-stands lib c k i there ready =
    let same = find_identity-key k.subject_key c.identities i there in
    let found : find_identity i.subject_key c.identities ≡ some i =
      ap (λ (t : String). find_identity t c.identities) same ∙ there in
    (ground (arith, found, eq_refl i.client_id, eqb_ℤ_refl i.manager_id), ground arith)

-- Every guard of the ready candidates stands, and none has an alias.
ready_ones-stand :
    (lib : Texts) (c : Context) (ks : List Candidate)
    → (all (stands c.identities) (guards_of (ready_ones lib c ks)) ≡ true)
      × (is_aliased c.identities (guards_of (ready_ones lib c ks)) ≡ false)
unfolding ready_ones guards_of is_aliased
ready_ones-stand lib c [] = (refl, refl)
ready_ones-stand lib c (k ∷ ks) =
    let (stand, free) = ready_ones-stand lib c ks in
    elim (Option-cases (find_identity k.subject_key c.identities)) [
      | inl absent ↦ (rw (absent, ready_ones) stand, rw (absent, ready_ones) free)
      | inr (i, there) ↦ elim (Bool-cases (is_ready lib c k i)) [
        | inr refused ↦
            (rw (there, ready_ones) (rw refused stand), rw (there, ready_ones) (rw refused free))
        | inl ready ↦
            let (here, alone) = ready-stands lib c k i there ready in
            (
              rw (there, ready_ones) (rw ready (rw here stand)),
              rw (there, ready_ones) (rw ready (rw alone free)),
            )
      ]
    ]

settle-released :
    (c : Context) (e : Envelope) (p q : Policy) (r : SourceRun)
    (ready : List (Candidate × Identity)) (x : Release)
    → settle c e p r ready ≡ released q x
    → (q ≡ record p { sequence = p.sequence + 1 }) × (x ≡ new_release c p r e ready)
unfolding settle
settle-released c e p q r [] x h = absurd (ground arith)
settle-released c e p q r (k ∷ ks) x h = (ground arith, ground arith)

-- What a release that is made had before it.
release_churn-parts :
    (lib : Texts) (c : Context) (e : Envelope) (q : Policy) (x : Release)
    → release_churn lib c e ≡ released q x
    → (p : Policy) × (r : SourceRun) × (c.policy ≡ some p)
      × (c.run ≡ some r)
      × (reasons lib c e ≡ [])
      × (settle c e p r (ready_ones lib c c.candidates) ≡ released q x)
unfolding release_churn
release_churn-parts lib c e q x h = elim (List-cases (reasons lib c e)) [
  | inr (w, ws, some_reason) ↦ absurd (ground arith)
  | inl no_reason ↦ elim (Option-cases c.policy) [
    | inl absent ↦ absurd (ground arith)
    | inr (p, policy_is) ↦ elim (Option-cases c.run) [
      | inl absent ↦ absurd (ground arith)
      | inr (r, run_is) ↦ (p, r, policy_is, run_is, no_reason, ground arith)
    ]
  ]
]

-- The release that `release_churn` makes passes the check before its delivery, at the same instant,
-- with the policy that it leaves and all else as the database held it.
pub release_churn-current :
    (lib : Texts) (c : Context) (e : Envelope) (q : Policy) (x : Release)
    → release_churn lib c e ≡ released q x
    → current_release (after_release c q) (some x) ≡ ok x
unfolding current_release automation_available new_release is_scheduled is_fresh reasons
release_churn-current lib c e q x h =
    let (p, r, policy_is, run_is, no_reason, settled) = release_churn-parts lib c e q x h in
    let (q_is, x_is) = settle-released c e p q r (ready_ones lib c c.candidates) x settled in
    let (a, rest) =
      append-empty (collect (policy_reasons lib c))
        (collect (run_reasons c c.run) ++ collect (manifest_reasons lib c e)) no_reason in
    let (b, d) =
      append-empty (collect (run_reasons c c.run)) (collect (manifest_reasons lib c e)) rest in
    let (producer, enabled, approved, algorithm) = policy-allowed lib c p policy_is a in
    let (day, revision, idle) = run-allowed c r (rw run_is at b) in
    let unexpired =
      is_current-unexpired (settings_of c.policy).max_manifest_age_seconds c.instant e.payload
        (manifest-allowed lib c e d) in
    let (stand, free) = ready_ones-stand lib c c.candidates in
    rw (q_is, x_is) (ground (arith, eq_refl algorithm_policy_name))
