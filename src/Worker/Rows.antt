-- ===== src/Worker/Rows.antt =====
-- analytics_signal_worker.py: the table of runs, by id.
use sales_journal.Prelude.{
  Bool-cases, List, String, [], arith, eq_iff, false, inl, inr, none, refl, some, some_inj, str_eq,
  sym, true, ◌++◌, ◌∙◌, ◌∷◌, ◌≡◌,
}
use sales_journal.Worker.{Run, find_run, save, is_open}

pub find_run_id : (id : String) (rs : List Run) {r : Run} → find_run id rs ≡ some r → r.id ≡ id
unfolding find_run
find_run_id id [] h = cc
find_run_id id (x ∷ rs) {r} h = elim (Bool-cases (str_eq x.id id)) [
  | inl same ↦
      let e : x ≡ r = some_inj (rw (same, find_run) at h) in rw (← e) ((eq_iff x.id id).0 same)
  | inr other ↦ find_run_id id rs {r = r} (rw (other, find_run) at h)
]

pub find_run-save_other :
    (id : String) (run : Run) (rs : List Run)
    → str_eq run.id id ≡ false
    → find_run id (save run rs) ≡ find_run id rs
unfolding find_run save
find_run-save_other id run [] h = refl
find_run-save_other id run (x ∷ rs) h = elim (Bool-cases (str_eq x.id run.id)) [
  | inl same ↦
      let e : x.id ≡ run.id = (eq_iff x.id run.id).0 same in
      rw (same, find_run, save) (ground (arith, rw (← e) at h, h))
  | inr other ↦ ground (arith, find_run-save_other id run rs h)
]

pub find_run-save :
    (run : Run) (rs : List Run) {r : Run}
    → find_run run.id rs ≡ some r
    → find_run run.id (save run rs) ≡ some run
unfolding find_run save
find_run-save run [] h = cc
find_run-save run (x ∷ rs) {r} h =
    ground (arith, eq_iff run.id run.id, find_run-save run rs {r = r})

pub find_run-append :
    (id : String) (rs ts : List Run) {r : Run}
    → find_run id rs ≡ some r
    → find_run id (rs ++ ts) ≡ some r
unfolding find_run
find_run-append id [] ts h = cc
find_run-append id (x ∷ rs) ts {r} h = ground (arith, find_run-append id rs ts {r = r})

pub find_run-append_new :
    (run : Run) (rs : List Run)
    → find_run run.id rs ≡ none
    → find_run run.id (rs ++ run ∷ []) ≡ some run
unfolding find_run
find_run-append_new run [] h = ground (arith, eq_iff run.id run.id)
find_run-append_new run (x ∷ rs) h = ground (arith, find_run-append_new run rs)

-- Saving an open run leaves every closed one as it is.
pub save_closed :
    (id k : String) (run a r : Run) (rs : List Run)
    → find_run k rs ≡ some a
    → is_open a.status ≡ true
    → run.id ≡ k
    → find_run id rs ≡ some r
    → is_open r.status ≡ false
    → find_run id (save run rs) ≡ some r
save_closed id k run a r rs found open_run same there closed =
    elim (Bool-cases (str_eq run.id id)) [
      | inl e ↦
          let ids : k ≡ id = sym same ∙ (eq_iff run.id id).0 e in
          let runs : a ≡ r = some_inj (sym found ∙ (rw ids there)) in
          absurd (cc (open_run, rw (← runs) at closed))
      | inr other ↦ find_run-save_other id run rs other ∙ there
    ]
