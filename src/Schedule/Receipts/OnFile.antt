-- ===== src/Schedule/Receipts/OnFile.antt =====
-- churn_schedule.py: one round of the loop of `acknowledge` over the receipts on file.
use sales_journal.Prelude.{
  Bool, List, Option, Option-cases, String, [], any, arith, eq_iff, false, inl, inr, none, ok, refl,
  some, true, ℕ, ◌++◌, ◌∷◌, ◌≡◌,
}
use sales_journal.Schedule.Receipts.{
  Verdict, same_verdict, Receipt, for_event, find_receipt, same_task, Claim, receipt_of, same_flag,
  agrees, file_claim,
}

-- The unique constraint on (job_id, event_id).
abbrev pub IsUnique : List Receipt → Type 0
IsUnique [] = Unit
IsUnique (r ∷ rs) = (any (for_event r.job_id r.event_id) rs ≡ false) × IsUnique rs

-- Whatever one list has on file, the other has too.
abbrev pub Extends : List Receipt → List Receipt → Type 0
Extends old new =
    (job : String) (id : ℕ) (r : Receipt)
    → find_receipt job id old ≡ some r
    → find_receipt job id new ≡ some r

pub find_receipt-append :
    (job : String) (id : ℕ) (rs ts : List Receipt) (r : Receipt)
    → find_receipt job id rs ≡ some r
    → find_receipt job id (rs ++ ts) ≡ some r
unfolding find_receipt
find_receipt-append job id [] ts r h = cc
find_receipt-append job id (s ∷ rs) ts r h = ground (arith, find_receipt-append job id rs ts r)

find_receipt-append_new :
    (job : String) (id : ℕ) (rs : List Receipt) (r : Receipt)
    → find_receipt job id rs ≡ none
    → for_event job id r ≡ true
    → find_receipt job id (rs ++ r ∷ []) ≡ some r
unfolding find_receipt
find_receipt-append_new job id [] r h f = ground arith
find_receipt-append_new job id (s ∷ rs) r h f = ground (arith, find_receipt-append_new job id rs r)

same_task_self : (o : Option String) → same_task o o ≡ true
unfolding same_task
same_task_self none = refl
same_task_self (some s) = ground (arith, eq_iff s s)

same_verdict_self : (v : Verdict) → same_verdict v v ≡ true
unfolding same_verdict
same_verdict_self v = ground arith

same_flag_self : (b : Bool) → same_flag b b ≡ true
unfolding same_flag
same_flag_self b = ground arith

agrees_self :
    (job : String) (now : ℕ) (claim : Claim) → agrees (receipt_of job now claim) claim ≡ true
unfolding agrees receipt_of
agrees_self job now claim = ground (
  arith,
  eq_iff claim.event_hash claim.event_hash,
  same_task_self claim.task_id,
  same_flag_self claim.created_for_release,
  same_verdict_self claim.decision,
)

for_event_self :
    (job : String) (now : ℕ) (claim : Claim)
    → for_event job claim.event_id (receipt_of job now claim) ≡ true
unfolding for_event receipt_of
for_event_self job now claim = ground (arith, eq_iff job job)

-- After a round the claim is on file and agreed with, and nothing was lost.
abbrev pub OnFile : String → Claim → List Receipt → Type 0
OnFile job claim records =
    (old : Receipt) × (find_receipt job claim.event_id records ≡ some old)
    × (agrees old claim ≡ true)

pub file_claim-OnFile :
    (job : String) (now : ℕ) (claim : Claim) (records filed : List Receipt)
    → file_claim job now claim records ≡ ok filed
    → OnFile job claim filed × Extends records filed
unfolding file_claim
file_claim-OnFile job now claim records filed h =
    elim (Option-cases (find_receipt job claim.event_id records)) [
      | inl new ↦
          let e : filed ≡ records ++ receipt_of job now claim ∷ [] = ground arith in
          rw e (
            (
              receipt_of job now claim,
              find_receipt-append_new job claim.event_id records _ new
                  (for_event_self job now claim),
              agrees_self job now claim,
            ),
            λ j i r. find_receipt-append j i records _ r,
          )
      | inr (old, there) ↦
          let e : filed ≡ records = ground arith in rw e ((old, there, ground arith), λ j i r f. f)
    ]

pub file_claim_again :
    (job : String) (now : ℕ) (claim : Claim) (records : List Receipt)
    → OnFile job claim records
    → file_claim job now claim records ≡ ok records
unfolding file_claim
file_claim_again job now claim records (old, there, same) = rw (there, same, file_claim) refl

any-for_event :
    (job : String) (id : ℕ) (rs : List Receipt)
    → find_receipt job id rs ≡ none
    → any (for_event job id) rs ≡ false
unfolding find_receipt
any-for_event job id [] h = refl
any-for_event job id (r ∷ rs) h = ground (arith, any-for_event job id rs)

any-append_one :
    (p : Receipt → Bool) (rs : List Receipt) (r : Receipt)
    → any p rs ≡ false
    → p r ≡ false
    → any p (rs ++ r ∷ []) ≡ false
any-append_one p [] r h k = ground arith
any-append_one p (s ∷ rs) r h k = ground (arith, any-append_one p rs r)

for_event_flip :
    (s r : Receipt)
    → for_event r.job_id r.event_id s ≡ false
    → for_event s.job_id s.event_id r ≡ false
unfolding for_event
for_event_flip s r h = ground (arith, eq_iff s.job_id r.job_id, eq_iff r.job_id s.job_id)

IsUnique-append :
    (rs : List Receipt) (r : Receipt)
    → IsUnique rs
    → any (for_event r.job_id r.event_id) rs ≡ false
    → IsUnique (rs ++ r ∷ [])
IsUnique-append [] r u h = (refl, tt)
IsUnique-append (s ∷ rs) r u h = (
  any-append_one (for_event s.job_id s.event_id) rs r u.0 (for_event_flip s r (ground arith)),
  IsUnique-append rs r u.1 (ground arith),
)

pub file_claim-IsUnique :
    (job : String) (now : ℕ) (claim : Claim) (records filed : List Receipt)
    → file_claim job now claim records ≡ ok filed
    → IsUnique records
    → IsUnique filed
unfolding file_claim receipt_of
file_claim-IsUnique job now claim records filed h u =
    elim (Option-cases (find_receipt job claim.event_id records)) [
      | inl new ↦
          let e : filed ≡ records ++ receipt_of job now claim ∷ [] = ground arith in
          rw e (
            IsUnique-append records (receipt_of job now claim) u
              (any-for_event job claim.event_id records new))
      | inr (old, there) ↦ let e : filed ≡ records = ground arith in rw e u
    ]
