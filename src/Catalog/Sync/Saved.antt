-- ===== src/Catalog/Sync/Saved.antt =====
-- catalog_sync.py: what the storage of a page's answers does to its lookups.
use sales_journal.Prelude.{
  Bool-cases, List, Option-cases, String, [], arith, eq_iff, inl, inr, is_some, length, refl,
  str_eq, true, ℕ, ◌==◌, ◌∷◌, ◌≡◌, ◌⊎◌,
}
use sales_journal.Catalog.Client.{Answer, matched, not_found, ambiguous}
use sales_journal.Catalog.Sync.{
  LookupRow, Walk, change_lookup, find_lookup, is_listed, is_seen, record_answer, record_invalid,
  save_answers, save_invalid,
}
use sales_journal.Catalog.Sync.Marks.{is_current}

module _ (cycle : ℕ) (f : LookupRow → LookupRow)
    (same : (l : LookupRow) → (f l).identity ≡ l.identity) where
  find_lookup-change :
      (k key : String) (ls : List LookupRow)
      → is_some (find_lookup key ls) ≡ true
      → is_some (find_lookup key (change_lookup k f ls)) ≡ true
  unfolding find_lookup change_lookup
  find_lookup-change k key [] h = h
  find_lookup-change k key (l ∷ ls) h = ground (arith, same l, find_lookup-change k key ls)

  module _ (sets : (l : LookupRow) → (f l).cycle ≡ cycle) where
    is_current-change :
        (k key : String) (ls : List LookupRow)
        → is_current cycle key ls ≡ true
        → is_current cycle key (change_lookup k f ls) ≡ true
    unfolding find_lookup change_lookup
    is_current-change k key [] h = h
    is_current-change k key (l ∷ ls) h = ground (arith, same l, sets l, is_current-change k key ls)

    change_lookup-current :
        (key : String) (ls : List LookupRow)
        → is_some (find_lookup key ls) ≡ true
        → is_current cycle key (change_lookup key f ls) ≡ true
    unfolding find_lookup change_lookup
    change_lookup-current key [] h = absurd (ground arith)
    change_lookup-current key (l ∷ ls) h =
        ground (arith, same l, sets l, change_lookup-current key ls)

record_answer-identity :
    (now cycle : ℕ) (a : Answer) (l : LookupRow)
    → (record_answer now cycle a l).identity ≡ l.identity
unfolding record_answer
record_answer-identity now cycle (matched _ _) l = refl
record_answer-identity now cycle not_found l = refl
record_answer-identity now cycle ambiguous l = refl

record_answer-cycle :
    (now cycle : ℕ) (a : Answer) (l : LookupRow) → (record_answer now cycle a l).cycle ≡ cycle
unfolding record_answer
record_answer-cycle now cycle (matched _ _) l = refl
record_answer-cycle now cycle not_found l = refl
record_answer-cycle now cycle ambiguous l = refl

module _ (now cycle : ℕ) where
  is_current-save_answers :
      (key : String) (ks : List String) (as' : List Answer) (ls : List LookupRow)
      → is_current cycle key ls ≡ true
      → is_current cycle key (save_answers now cycle ks as' ls) ≡ true
  unfolding save_answers
  is_current-save_answers key [] as' ls h = h
  is_current-save_answers key (k ∷ ks) [] ls h = h
  is_current-save_answers key (k ∷ ks) (a ∷ as') ls h =
      is_current-save_answers key ks as' (change_lookup k (record_answer now cycle a) ls) (
        is_current-change cycle (record_answer now cycle a) (record_answer-identity now cycle a)
          (record_answer-cycle now cycle a) k key ls h)

  is_current-save_invalid :
      (key : String) (ks : List String) (ls : List LookupRow)
      → is_current cycle key ls ≡ true
      → is_current cycle key (save_invalid now cycle ks ls) ≡ true
  unfolding save_invalid record_invalid
  is_current-save_invalid key [] ls h = h
  is_current-save_invalid key (k ∷ ks) ls h =
      is_current-save_invalid key ks (change_lookup k (record_invalid now cycle) ls)
        (is_current-change cycle (record_invalid now cycle) (λ l. refl) (λ l. refl) k key ls h)

  find_lookup-save_answers :
      (key : String) (ks : List String) (as' : List Answer) (ls : List LookupRow)
      → is_some (find_lookup key ls) ≡ true
      → is_some (find_lookup key (save_answers now cycle ks as' ls)) ≡ true
  unfolding save_answers
  find_lookup-save_answers key [] as' ls h = h
  find_lookup-save_answers key (k ∷ ks) [] ls h = h
  find_lookup-save_answers key (k ∷ ks) (a ∷ as') ls h =
      find_lookup-save_answers key ks as' (change_lookup k (record_answer now cycle a) ls) (
        find_lookup-change cycle (record_answer now cycle a) (record_answer-identity now cycle a) k
          key ls h)

  -- Each identity of the list gets the cycle, if there is an answer for each.
  save_answers-current :
      (key : String) (ks : List String) (as' : List Answer) (ls : List LookupRow)
      → length as' ≡ length ks
      → is_listed key ks ≡ true
      → is_some (find_lookup key ls) ≡ true
      → is_current cycle key (save_answers now cycle ks as' ls) ≡ true
  unfolding save_answers is_listed
  save_answers-current key [] as' ls e h found = absurd (ground arith)
  save_answers-current key (k ∷ ks) [] ls e h found = absurd (omega (arith, e))
  save_answers-current key (k ∷ ks) (a ∷ as') ls e h found =
      let f = record_answer now cycle a in
      elim (Bool-cases (str_eq key k)) [
        | inl eq ↦
            let same : key ≡ k = (eq_iff key k).0 eq in
            is_current-save_answers key ks as' (change_lookup k f ls) (
              rw (← same) (
                change_lookup-current cycle f (record_answer-identity now cycle a)
                  (record_answer-cycle now cycle a) key ls found))
        | inr other ↦
            save_answers-current key ks as' (change_lookup k f ls) (omega arith) (ground arith)
              (find_lookup-change cycle f (record_answer-identity now cycle a) k key ls found)
      ]

  save_invalid-current :
      (key : String) (ks : List String) (ls : List LookupRow)
      → is_listed key ks ≡ true
      → is_some (find_lookup key ls) ≡ true
      → is_current cycle key (save_invalid now cycle ks ls) ≡ true
  unfolding save_invalid is_listed record_invalid
  save_invalid-current key [] ls h found = absurd (ground arith)
  save_invalid-current key (k ∷ ks) ls h found =
      let f = record_invalid now cycle in
      elim (Bool-cases (str_eq key k)) [
        | inl eq ↦
            let same : key ≡ k = (eq_iff key k).0 eq in
            is_current-save_invalid key ks (change_lookup k f ls)
              (rw (← same) (change_lookup-current cycle f (λ l. refl) (λ l. refl) key ls found))
        | inr other ↦
            save_invalid-current key ks (change_lookup k f ls) (ground arith)
              (find_lookup-change cycle f (λ l. refl) k key ls found)
      ]

  is_seen-cases :
      (key : String) (w : Walk)
      → is_seen cycle key w ≡ true
      → (is_current cycle key w.lookups ≡ true)
        ⊎ (((is_listed key w.keys ≡ true) ⊎ (is_listed key w.bad ≡ true))
            × (is_some (find_lookup key w.lookups) ≡ true))
  unfolding is_seen
  is_seen-cases key w h = elim (Option-cases (find_lookup key w.lookups)) [
    | inl p ↦ absurd (ground arith)
    | inr (l, p) ↦ elim (Bool-cases (l.cycle == cycle)) [
      | inl now_current ↦ inl (ground arith)
      | inr old ↦ elim (Bool-cases (is_listed key w.keys)) [
        | inl sent ↦ inr (inl sent, ground arith)
        | inr unsent ↦ inr (inr (ground arith), ground arith)
      ]
    ]
  ]

  -- What a page has seen is current once it is saved.
  pub save-current :
      (key : String) (w : Walk) (as' : List Answer)
      → length as' ≡ length w.keys
      → is_seen cycle key w ≡ true
      → is_current cycle key
          (save_invalid now cycle w.bad (save_answers now cycle w.keys as' w.lookups))
        ≡ true
  save-current key w as' e h = elim (is_seen-cases key w h) [
    | inl there ↦
        is_current-save_invalid key w.bad (save_answers now cycle w.keys as' w.lookups)
          (is_current-save_answers key w.keys as' w.lookups there)
    | inr (inl sent, found) ↦
        is_current-save_invalid key w.bad (save_answers now cycle w.keys as' w.lookups)
          (save_answers-current key w.keys as' w.lookups e sent found)
    | inr (inr bad, found) ↦
        save_invalid-current key w.bad (save_answers now cycle w.keys as' w.lookups) bad
          (find_lookup-save_answers key w.keys as' w.lookups found)
  ]
