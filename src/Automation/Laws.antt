-- ===== src/Automation/Laws.antt =====
-- analytics_automation.py and analytics_release_guard.py: what the commands on the policy keep, and
-- that each of them takes back the releases that were made under it.
use sales_journal.Prelude.{
  List, Option, Option-cases, Result-cases, String, [], all, ap, arith, inl, inr, none, ok, refl,
  some, some_inj, sym, true, ℕ, ◌++◌, ◌+◌, ◌∙◌, ◌∷◌, ◌≡◌, ◌≢◌,
}
use sales_journal.Automation.{
  Decision, policy_changed, manage_policy, Texts, Policy, Action, draft, approve, revoke,
  other_action, algorithm_policy_name, apply_action, current_policy, is_complete, next_policy,
  same_text,
}
use sales_journal.Automation.Guard.{Now, Release, automation_available, current_release, stands}

-- A policy is switched on only if it is approved, and then its settings are complete and name the
-- algorithm that the code runs.
pub record IsSafe (lib : Texts) (p : Policy) : Type 0 where
  pub switched : p.enabled ≡ p.approved
  pub settled :
      p.approved ≡ true
      → (is_complete lib p.settings ≡ true)
        × (same_text algorithm_policy_name p.settings.algorithm_policy ≡ true)

current_policy-IsSafe :
    (lib : Texts) (expected : ℕ) (policy : Option Policy) (p : Policy)
    → ((q : Policy) → policy ≡ some q → IsSafe lib q)
    → current_policy expected policy ≡ ok p
    → IsSafe lib p × (p.revision ≡ expected)
unfolding current_policy
current_policy-IsSafe lib expected none p safe h =
    (record { switched = ground arith; settled = λ a. absurd (ground arith) }, ground arith)
current_policy-IsSafe lib expected (some q) p safe h =
    let same : q ≡ p = ground arith in (rw (← same) (safe q refl), ground arith)

apply_action-IsSafe :
    (lib : Texts) (action : Action) (p q : Policy)
    → IsSafe lib p
    → apply_action lib action p ≡ ok q
    → IsSafe lib q × (q.revision ≡ p.revision) × (q.sequence ≡ p.sequence)
unfolding apply_action
apply_action-IsSafe lib (draft none) p q safe h = absurd (ground arith)
apply_action-IsSafe lib (draft (some s)) p q safe h = (
  record { switched = ground arith; settled = λ a. absurd (ground arith) },
  ground arith,
  ground arith,
)
apply_action-IsSafe lib (approve confirmed) p q safe h = (
  record { switched = ground arith; settled = λ a. (ground arith, ground arith) },
  ground arith,
  ground arith,
)
apply_action-IsSafe lib revoke p q safe h = (
  record { switched = ground arith; settled = λ a. absurd (ground arith) },
  ground arith,
  ground arith,
)
apply_action-IsSafe lib other_action p q safe h = absurd (ground arith)

-- The sequence of a row that may be missing.
abbrev pub sequence_of : Option Policy → ℕ
sequence_of none = 0
sequence_of (some p) = p.sequence

current_policy-sequence :
    (expected : ℕ) (policy : Option Policy) (p : Policy)
    → current_policy expected policy ≡ ok p
    → p.sequence ≡ sequence_of policy
unfolding current_policy
current_policy-sequence expected none p h = ground arith
current_policy-sequence expected (some q) p h = ground arith

-- A command that succeeds found the row that it expected, and its action applied to it.
next_policy-parts :
    (lib : Texts) (action : Action) (actor : Option String) (expected : ℕ) (policy : Option Policy)
    (q : Policy)
    → next_policy lib action actor (some expected) policy ≡ ok q
    → (p : Policy) × (r : Policy) × (current_policy expected policy ≡ ok p)
      × (apply_action lib action p ≡ ok r)
      × (q ≡ record r { revision = r.revision + 1 })
unfolding next_policy
next_policy-parts lib action actor expected policy q h =
    elim (Result-cases (current_policy expected policy)) [
      | inl (e, no_row) ↦ absurd (ground arith)
      | inr (p, row) ↦ elim (Result-cases (apply_action lib action p)) [
        | inl (e, refused) ↦ absurd (ground arith)
        | inr (r, applied) ↦ (p, r, row, applied, ground arith)
      ]
    ]

next_policy-IsSafe :
    (lib : Texts) (action : Action) (actor : Option String) (expected : ℕ) (policy : Option Policy)
    (q : Policy)
    → ((p : Policy) → policy ≡ some p → IsSafe lib p)
    → next_policy lib action actor (some expected) policy ≡ ok q
    → IsSafe lib q × (q.revision ≡ expected + 1) × (q.sequence ≡ sequence_of policy)
next_policy-IsSafe lib action actor expected policy q safe h =
    let (p, r, row, applied, same) = next_policy-parts lib action actor expected policy q h in
    let (p_safe, at) = current_policy-IsSafe lib expected policy p safe row in
    let (r_safe, rev, seq) = apply_action-IsSafe lib action p r p_safe applied in
    rw same (
      record { switched = r_safe.switched; settled = r_safe.settled },
      omega arith,
      seq ∙ current_policy-sequence expected policy p row,
    )

-- What a release that is handed over has passed, as far as the commands here can change it.
pub current_release-parts :
    (now : Now) (r x : Release)
    → current_release now (some r) ≡ ok x
    → (p : Policy) × (now.policy ≡ some p)
      × (r.policy_revision ≡ p.revision)
      × (all (stands now.identities) r.guards ≡ true)
unfolding current_release automation_available
current_release-parts now r x h = elim (Option-cases now.policy) [
  | inl no_policy ↦ absurd (ground arith)
  | inr (p, row) ↦ (p, row, ground arith, ground arith)
]

next_policy-withdraws :
    (lib : Texts) (action : Action) (actor : Option String) (expected : ℕ) (p q : Policy)
    (now : Now) (r x : Release)
    → IsSafe lib p
    → r.policy_revision ≡ p.revision
    → next_policy lib action actor (some expected) (some p) ≡ ok q
    → now.policy ≡ some q
    → current_release now (some r) ≢ ok x
unfolding current_policy
next_policy-withdraws lib action actor expected p q now r x safe made h current e =
    let (_, rev, _) =
      next_policy-IsSafe lib action actor expected (some p) q (λ p' e'. rw (← (some_inj e')) safe)
        h in
    let (p', _, row, _, _) = next_policy-parts lib action actor expected (some p) q h in
    let found : p.revision ≡ expected = ground arith in
    let (p'', row'', same, _) = current_release-parts now r x e in
    let eq : p''.revision ≡ q.revision =
      ap (λ (t : Policy). t.revision) (some_inj (sym row'' ∙ current)) in
    absurd (omega arith)

manage_policy-next :
    (lib : Texts) (action : Action) (actor : Option String) (expected : ℕ) (policy : Option Policy)
    (q : Policy) (log log' : List Decision)
    → manage_policy lib action actor (some expected) policy log ≡ ok (q, log')
    → (next_policy lib action actor (some expected) policy ≡ ok q)
      × (log' ≡ log ++ policy_changed action actor q.revision q.settings ∷ [])
unfolding manage_policy
manage_policy-next lib action actor expected policy q log log' h =
    elim (Result-cases (next_policy lib action actor (some expected) policy)) [
      | inl (e, refused) ↦ absurd (ground arith)
      | inr (p, found) ↦ (ground arith, ground arith)
    ]

-- A command on the policy that succeeds, from a safe row or from none, leaves a safe one: it is
-- switched on exactly if it is approved, and then complete and for the algorithm in use. The
-- revision is the expected one and one more, the sequence of the releases does not move, and the log
-- gets one decision, with the actor and the policy as it is now.
pub manage_policy-IsSafe :
    (lib : Texts) (action : Action) (actor : Option String) (expected : ℕ) (policy : Option Policy)
    (q : Policy) (log log' : List Decision)
    → ((p : Policy) → policy ≡ some p → IsSafe lib p)
    → manage_policy lib action actor (some expected) policy log ≡ ok (q, log')
    → IsSafe lib q
      × (q.revision ≡ expected + 1)
      × (q.sequence ≡ sequence_of policy)
      × (log' ≡ log ++ policy_changed action actor q.revision q.settings ∷ [])
manage_policy-IsSafe lib action actor expected policy q log log' safe h =
    let (step, logged) = manage_policy-next lib action actor expected policy q log log' h in
    let (q_safe, rev, seq) = next_policy-IsSafe lib action actor expected policy q safe step in
    (q_safe, rev, seq, logged)

-- A release that was made under a safe policy is refused as soon as a command on the policy has
-- succeeded, whatever the command, and whatever else has changed.
pub manage_policy-withdraws :
    (lib : Texts) (action : Action) (actor : Option String) (expected : ℕ) (p q : Policy)
    (log log' : List Decision) (now : Now) (r x : Release)
    → IsSafe lib p
    → r.policy_revision ≡ p.revision
    → manage_policy lib action actor (some expected) (some p) log ≡ ok (q, log')
    → now.policy ≡ some q
    → current_release now (some r) ≢ ok x
manage_policy-withdraws lib action actor expected p q log log' now r x safe made h =
    next_policy-withdraws lib action actor expected p q now r x safe made
      (manage_policy-next lib action actor expected (some p) q log log' h).0
