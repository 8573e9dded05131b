-- ===== src/Schedule/Receipts/Release.antt =====
-- churn_schedule.py: only a job with a release can be acknowledged.
use sales_journal.Prelude.{
  List, Option, Option-cases, String, [], arith, inl, inr, is_some, length, none, ok, refl, some,
  true, ℕ, ◌∷◌, ◌≡◌, ◌≤◌,
}
use sales_journal.Schedule.Receipts.{
  fields, event_id_of, Event, Incoming, Receipt, find_event, read_claim, file_all,
}

find_event-none : (id : ℕ) (events : List Event) → find_event none id events ≡ none
unfolding find_event
find_event-none id [] = refl
find_event-none id (e ∷ es) = find_event-none id es

module _ (digest : String → String) where
  none_unread : (events : List Event) (r : Incoming) → read_claim digest none events r ≡ none
  unfolding read_claim
  none_unread events Incoming.other = refl
  none_unread events (fields r) = elim (Option-cases (event_id_of (fields r))) [
    | inl bad ↦ rw (bad, read_claim) refl
    | inr (id, good) ↦ rw (good, find_event-none id events, read_claim) refl
  ]

  -- A list of receipts that is not empty is accepted only for a job with a release.
  pub file_all-released :
      (job : String) (release : Option String) (now : ℕ) (events : List Event) (rs : List Incoming)
      (records filed : List Receipt)
      → 1 ≤ length rs
      → file_all digest job release now events rs records ≡ ok filed
      → is_some release ≡ true
  unfolding file_all
  file_all-released job release now events [] records filed l h = absurd (omega arith)
  file_all-released job none now events (r ∷ rs) records filed l h =
      cc (rw (none_unread events r, file_all) at h)
  file_all-released job (some x) now events (r ∷ rs) records filed l h = refl
