-- ===== src/Schedule/Receipts/Laws.antt =====
-- churn_schedule.py: acknowledgements can be repeated, file each event once, and account for it.
use sales_journal.Prelude.{
  All, Bool, Bool-cases, List, Option, Option-cases, Result-cases, String, [], all, ap, arith,
  false, inl, inr, keep, leb, length, not, ok, or_else, refl, some, str_eq, sym, tally, ℕ, ◌&&◌,
  ◌+◌, ◌<◌, ◌↔◌, ◌∷◌, ◌≡◌,
}
use sales_journal.Schedule.Jobs.{Job, succeeded, partial}
use sales_journal.Schedule.Receipts.{
  Event, is_accepted, Receipt, Incoming, is_integer, distinct_ids, Claim, file_claim, of_job,
  settle, read_claim, file_all, acknowledge,
}
use sales_journal.Schedule.Receipts.OnFile.{
  IsUnique, Extends, OnFile, file_claim-OnFile, file_claim_again, file_claim-IsUnique,
}

-- How many receipts on file are of the job, and how many of those are accepted or rejected.
abbrev pub sent_of : String → List Receipt → ℕ
sent_of job rs = tally (λ r. str_eq r.job_id job) rs

abbrev pub accepted_of : String → List Receipt → ℕ
accepted_of job rs = tally (λ r. str_eq r.job_id job && is_accepted r.decision) rs

abbrev pub rejected_of : String → List Receipt → ℕ
rejected_of job rs = tally (λ r. str_eq r.job_id job && not (is_accepted r.decision)) rs

module _ (digest : String → String) where
  -- Every receipt of the list is valid, on file and agreed with.
  abbrev pub Settled : String → Option String → List Event → List Incoming → List Receipt → Type 0
  Settled job release events rs records =
      All
        (λ r.
          (claim : Claim) × (read_claim digest release events r ≡ some claim)
          × OnFile job claim records)
        rs

  file_all_lem :
      (job : String) (release : Option String) (now : ℕ) (events : List Event) (rs : List Incoming)
      (records filed : List Receipt)
      → file_all digest job release now events rs records ≡ ok filed
      → IsUnique records
      → Settled job release events rs filed × Extends records filed × IsUnique filed
  unfolding file_all
  file_all_lem job release now events [] records filed h u =
      let e : records ≡ filed = ground arith in rw (← e) (tt, λ j i r f. f, u)
  file_all_lem job release now events (r ∷ rs) records filed h u =
      elim (Option-cases (read_claim digest release events r)) [
        | inl bad ↦ cc (rw (bad, file_all) at h)
        | inr (claim, good) ↦ elim (Result-cases (file_claim job now claim records)) [
          | inl (e, conflict) ↦ ground (arith, good, conflict)
          | inr (next, done) ↦
              let one = file_claim-OnFile job now claim records next done in
              let rest =
                file_all_lem job release now events rs next filed (ground (arith, good, done))
                  (file_claim-IsUnique job now claim records next done u) in
              (
                (
                  (claim, good, (one.0.0, rest.1 job claim.event_id one.0.0 one.0.1, one.0.2)),
                  rest.0,
                ),
                λ j i x f. rest.1 j i x (one.1 j i x f),
                rest.2,
              )
        ]
      ]

  file_all_again :
      (job : String) (release : Option String) (now : ℕ) (events : List Event) (rs : List Incoming)
      (records : List Receipt)
      → Settled job release events rs records
      → file_all digest job release now events rs records ≡ ok records
  unfolding file_all
  file_all_again job release now events [] records s = refl
  file_all_again job release now events (r ∷ rs) records ((claim, good, there), s) =
      rw (good, file_claim_again job now claim records there, file_all)
        (file_all_again job release now events rs records s)

  abbrev Bounded : List Incoming → Type 0
  Bounded rs =
      (not (leb 1 (length rs) && leb (length rs) 25) ≡ false)
      × (not (all is_integer rs && distinct_ids rs) ≡ false)

  -- An accepted call passed its guards, and its job follows from the receipts on file.
  pub acknowledge_ok :
      (job : Job) (now : ℕ) (events : List Event) (rs : List Incoming)
      (records filed : List Receipt) {job' : Job}
      → acknowledge digest job now events rs records ≡ ok (job', filed)
      → Bounded rs
        × (file_all digest job.id job.release_id now events rs records ≡ ok filed)
        × (job' ≡ settle job now filed)
  unfolding acknowledge
  acknowledge_ok job now events rs records filed {job'} h =
      elim (Bool-cases (not (leb 1 (length rs) && leb (length rs) 25))) [
        | inl many ↦ cc (rw (many, acknowledge) at h)
        | inr fits ↦ elim (Bool-cases (not (all is_integer rs && distinct_ids rs))) [
          | inl odd ↦ cc (rw (fits, odd, acknowledge) at h)
          | inr proper ↦
              elim (Result-cases (file_all digest job.id job.release_id now events rs records)) [
                | inl (e, raised) ↦ cc (rw (fits, proper, raised, acknowledge) at h)
                | inr (all_filed, done) ↦
                    let e : (settle job now all_filed, all_filed) ≡ (job', filed) =
                      ground (arith, rw (fits, proper, done, acknowledge) at h) in
                    let f : all_filed ≡ filed = ap (λ (x : Job × List Receipt). x.1) e in
                    (
                      (fits, proper),
                      rw (← f) done,
                      rw (← f) (sym (ap (λ (x : Job × List Receipt). x.0) e)),
                    )
              ]
        ]
      ]

  settle_again :
      (job : Job) (now later : ℕ) (records : List Receipt)
      → settle (settle job now records) later records
        ≡ record (settle job now records) { updated_at = later }
  unfolding settle
  settle_again job now later records = refl

  -- A list of receipts that was accepted is accepted again at any time: no receipt is added, and the
  -- job differs in nothing but the time of its update. The receipts on file, unique by job and event
  -- before, are so afterwards, and every receipt of the list is valid, on file and agreed with.
  pub acknowledge_again :
      (job : Job) (now later : ℕ) (events : List Event) (rs : List Incoming)
      (records filed : List Receipt) {job' : Job}
      → IsUnique records
      → acknowledge digest job now events rs records ≡ ok (job', filed)
      → (acknowledge digest job' later events rs filed
          ≡ ok (record job' { updated_at = later }, filed))
        × IsUnique filed
        × Settled job.id job.release_id events rs filed
  unfolding acknowledge settle
  acknowledge_again job now later events rs records filed {job'} u h =
      let (bounds, done, made) = acknowledge_ok job now events rs records filed h in
      let (settled, extends, unique) =
        file_all_lem job.id job.release_id now events rs records filed done u in
      (
        rw
            (
              made,
              bounds.0,
              bounds.1,
              file_all_again job.id job.release_id later events rs filed settled,
              acknowledge,
            )
            refl,
        unique,
        settled,
      )

  length-keep : (p : Receipt → Bool) (rs : List Receipt) → length (keep p rs) ≡ tally p rs
  length-keep p [] = refl
  length-keep p (r ∷ rs) = ground (arith, length-keep p rs)

  tally-keep :
      (p q : Receipt → Bool) (rs : List Receipt) → tally q (keep p rs) ≡ tally (λ r. p r && q r) rs
  tally-keep p q [] = refl
  tally-keep p q (r ∷ rs) = ground (arith, tally-keep p q rs)

  tally-split :
      (p q : Receipt → Bool) (rs : List Receipt)
      → tally (λ r. p r && q r) rs + tally (λ r. p r && not (q r)) rs ≡ tally p rs
  tally-split p q [] = refl
  tally-split p q (r ∷ rs) = ground (arith, tally-split p q rs)

  -- The accounts of an accepted call: the job's counters are the numbers of receipts of this job on
  -- file, of those accepted and of those not, which add up. The job has succeeded exactly if as many
  -- of its receipts as allowed events are on file and none is rejected, and partly succeeded exactly
  -- if as many are on file and one is rejected.
  pub acknowledge-accounts :
      (job : Job) (now : ℕ) (events : List Event) (rs : List Incoming)
      (records filed : List Receipt) {job' : Job}
      → acknowledge digest job now events rs records ≡ ok (job', filed)
      → (job'.counters.sent ≡ some (sent_of job.id filed))
        × (job'.counters.accepted ≡ some (accepted_of job.id filed))
        × (job'.counters.rejected ≡ some (rejected_of job.id filed))
        × (accepted_of job.id filed + rejected_of job.id filed ≡ sent_of job.id filed)
        × ((job'.status ≡ succeeded) ↔ (
            (or_else 0 job.counters.allowed ≡ sent_of job.id filed)
            × (rejected_of job.id filed ≡ 0)))
        × ((job'.status ≡ partial) ↔ (
            (or_else 0 job.counters.allowed ≡ sent_of job.id filed)
            × (0 < rejected_of job.id filed)))
  unfolding settle of_job
  acknowledge-accounts job now events rs records filed {job'} h =
      let made = (acknowledge_ok job now events rs records filed h).2 in
      let own : Receipt → Bool = λ r. str_eq r.job_id job.id in
      let good : Receipt → Bool = λ r. is_accepted r.decision in
      let all_mine = length-keep own filed in
      let good_mine = tally-keep own good filed in
      let split = tally-split own good filed in
      rw made (
        ap some all_mine,
        ap some good_mine,
        ap some (omega (arith, all_mine, good_mine, split)),
        split,
        (ground (arith, all_mine, good_mine, split), ground (arith, all_mine, good_mine, split)),
        (ground (arith, all_mine, good_mine, split), ground (arith, all_mine, good_mine, split)),
      )

-- What the accounts leave alone.
pub settle-frame :
    (job : Job) (now : ℕ) (records : List Receipt)
    → ((settle job now records).kind ≡ job.kind)
      × ((settle job now records).release_id ≡ job.release_id)
unfolding settle
settle-frame job now records = (refl, refl)
