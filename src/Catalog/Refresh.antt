-- ===== src/Catalog/Refresh.antt =====
-- catalog_sync_worker.py: `refresh_batch`, one page of the reconciliation of known identities. A
-- client answers each valid lookup with a result; its answers are given in the order of the lookups.
use sales_journal.Prelude.{
  Bool, List, Option, String, [], any, false, if◌then◌else◌, keep, leb, length, none, not, or_else,
  some, str_eq, suc, tally, true, zero, ℕ, ◌&&◌, ◌+◌, ◌∷◌,
}
use sales_journal.Catalog.{Control}

-- CatalogLookup; the table is kept in the order of identities.
pub data LookupStatus : Type 0 where
  pending matched not_found ambiguous invalid : LookupStatus

pub record Lookup : Type 0 where
  pub identity : String
  pub status : LookupStatus
  pub code : String
  pub article : String
  pub checked_at : Option ℕ

-- The counters of CatalogSyncState that a batch moves.
pub record Counts : Type 0 where
  pub revision : ℕ
  pub processed : ℕ
  pub matched_count : ℕ
  pub not_found_count : ℕ
  pub ambiguous_count : ℕ
  pub invalid_count : ℕ
  pub last_success_at : Option ℕ
  pub last_full_success_at : Option ℕ

pub record Batch : Type 0 where
  pub scanned : ℕ
  pub processed : ℕ
  pub is_complete : Bool

pub is_invalid : LookupStatus → Bool
is_invalid invalid = true
is_invalid _ = false

unfoldable pub same_status : LookupStatus → LookupStatus → Bool
same_status pending pending = true
same_status matched matched = true
same_status not_found not_found = true
same_status ambiguous ambiguous = true
same_status invalid invalid = true
same_status _ _ = false

-- `identity <= (refresh_upper or "")` and `identity > refresh_cursor`; texts are compared by `before`.
pub is_pending : (String → String → Bool) → Control → Lookup → Bool
is_pending before control l =
    not (before (or_else "" control.refresh_upper) l.identity)
    && elim control.refresh_cursor [ none ↦ true | some cursor ↦ before cursor l.identity ]

pub first : ℕ → List Lookup → List Lookup
first zero ls = []
first (suc n) [] = []
first (suc n) (l ∷ ls) = l ∷ first n ls

pub last_identity : String → List Lookup → String
last_identity d [] = d
last_identity d (l ∷ ls) = last_identity l.identity ls

-- The lookups that are sent, and those whose fields do not validate; those that are invalid already
-- are in neither list.
pub valid_ones : (Lookup → Bool) → List Lookup → List Lookup
valid_ones validates ls = keep (λ l. not (is_invalid l.status) && validates l) ls

pub invalid_ones : (Lookup → Bool) → List Lookup → List Lookup
invalid_ones validates ls = keep (λ l. not (is_invalid l.status) && not (validates l)) ls

-- The new status of a row: by its answer, or invalid.
pub answer_for : String → List Lookup → List LookupStatus → Option LookupStatus
answer_for identity (l ∷ ls) (s ∷ ss) =
    let rest = answer_for identity ls ss in if str_eq l.identity identity then some s else rest
answer_for identity _ _ = none

-- The status and the time of the check of every row; the products of the answers are not kept.
pub save_results : ℕ → List Lookup → List Lookup → List LookupStatus → List Lookup → List Lookup
save_results now sent bad answers [] = []
save_results now sent bad answers (l ∷ ls) =
    let rest = save_results now sent bad answers ls in
    let saved : Lookup =
      if any (λ b. str_eq b.identity l.identity) bad
      then record l { status = invalid; checked_at = some now }
      else elim (answer_for l.identity sent answers) [
        | none ↦ l
        | some s ↦ record l { status = s; checked_at = some now }
      ] in
    saved ∷ rest

-- The counters after a page.
pub count_results : ℕ → Bool → List LookupStatus → ℕ → Counts → Counts
count_results now full answers bad c =
    let touched = leb 1 (length answers + bad) in
    record c {
      revision = if touched then c.revision + 1 else c.revision;
      processed = c.processed + (length answers + bad);
      matched_count = c.matched_count + tally (same_status matched) answers;
      not_found_count = c.not_found_count + tally (same_status not_found) answers;
      ambiguous_count = c.ambiguous_count + tally (same_status ambiguous) answers;
      invalid_count = c.invalid_count + bad;
      last_success_at = if touched then some now else c.last_success_at;
      last_full_success_at = if full then some now else c.last_full_success_at;
    }

module _ (before : String → String → Bool) (validates : Lookup → Bool)
    (client : List Lookup → List LookupStatus) where
  -- `refresh_batch(factory, batch_size, client)`
  pub refresh_batch :
      ℕ → ℕ → Control → Counts → List Lookup → Batch × Control × Counts × List Lookup
  refresh_batch now size control counts lookups =
      elim (first size (keep (is_pending before control) lookups)) [
        | [] ↦ (
          record { scanned = 0; processed = 0; is_complete = true },
          record control { refresh_completed = true },
          record counts { last_full_success_at = some now },
          lookups,
        )
        | l ∷ ls ↦
            let sent = valid_ones validates (l ∷ ls) in
            let bad = invalid_ones validates (l ∷ ls) in
            let answers : List LookupStatus = elim sent [ [] ↦ [] | v ∷ vs ↦ client (v ∷ vs) ] in
            let cursor = last_identity l.identity ls in
            let full = not (before cursor (or_else "" control.refresh_upper)) in
            (
              record {
                scanned = length (l ∷ ls);
                processed = length answers + length bad;
                is_complete = full;
              },
              record control { refresh_cursor = some cursor; refresh_completed = full },
              count_results now full answers (length bad) counts,
              save_results now sent bad answers lookups,
            )
      ]
