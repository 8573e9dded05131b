-- ===== src/Source/Laws.antt =====
-- analytics_source.py: when a calculation is allowed, and up to which day.
use sales_journal.Prelude.{
  All, Bool-cases, List, Option, String, [], all, arith, false, inl, inr, is_some, length, ltb, min,
  none, refl, some, true, ℕ, ◌<◌, ◌↔◌, ◌∷◌, ◌≡◌, ◌≤◌, ◌⊎◌,
}
use sales_journal.Source.{
  requested_date_outside_declared_period, no_common_declared_period, ImportEvidence, Code, sorted,
  earlier, later, earliest_end, latest_start, objections, when, Acceptance, objected, accepted,
  accept, refused, resolve_source,
}
use sales_journal.Source.Bounds.{
  at_most, at_least, covers, IsSound, check_imports-IsSound, IsSound-check_imports, all-covers,
  All-sorted, all-sorted, length-sorted,
}

objections_iff :
    (es : List ImportEvidence)
    → (objections es ≡ []) ↔ ((1 ≤ length es) × (length es ≤ 1000) × All IsSound es)
unfolding objections when
objections_iff es = (
  λ h. (ground arith, ground arith, check_imports-IsSound es (ground arith)),
  λ (few, many, sound). ground (arith, IsSound-check_imports es sound),
)

known_later : (a b : Option ℕ) → is_some a ≡ true → is_some (later a b) ≡ true
unfolding later
known_later a b h = ground arith

known_earlier : (a b : Option ℕ) → is_some a ≡ true → is_some (earlier a b) ≡ true
unfolding earlier
known_earlier a b h = ground arith

some_of : (o : Option ℕ) → is_some o ≡ true → (n : ℕ) × (o ≡ some n)
some_of none h = cc
some_of (some n) h = (n, refl)

-- Sound imports declare a common start and a common end.
bounded :
    (es : List ImportEvidence)
    → 1 ≤ length es
    → All IsSound es
    → ((s : ℕ) × (latest_start es ≡ some s)) × ((t : ℕ) × (earliest_end es ≡ some t))
unfolding latest_start earliest_end
bounded [] few sound = absurd (omega arith)
bounded (e ∷ es) few sound = (
  some_of _ (known_later e.declared_start (latest_start es) sound.0.has_start),
  some_of _ (known_earlier e.declared_end (earliest_end es) sound.0.has_end),
)

-- The accepted day, by the common bounds.
accept_lem :
    (requested closed s t : ℕ) (es : List ImportEvidence)
    → latest_start es ≡ some s
    → earliest_end es ≡ some t
    → ((accept requested closed es ≡ accepted t) × (s ≤ t) × (s ≤ requested) × (s ≤ closed))
      ⊎ ((code : Code) × (accept requested closed es ≡ objected code)
          × ((t < s) ⊎ (requested < s) ⊎ (closed < s)))
unfolding accept
accept_lem requested closed s t es hs ht =
    rw (hs, ht, accept)
      (elim (Bool-cases (ltb t s)) [
        | inl apart ↦ inr (no_common_declared_period, rw apart refl, inl (ground arith))
        | inr meet ↦ elim (Bool-cases (ltb (min requested (min closed t)) s)) [
          | inl before ↦
              inr
                (requested_date_outside_declared_period, rw (meet, before) refl, inr (ground arith))
          | inr fine ↦ inl (rw (meet, fine) refl, ground arith, ground arith, ground arith)
        ]
      ])

covered_iff :
    (day s t : ℕ) (es : List ImportEvidence)
    → latest_start es ≡ some s
    → earliest_end es ≡ some t
    → (all (covers day) es ≡ true) ↔ ((s ≤ day) × (day ≤ t))
unfolding at_least at_most
covered_iff day s t es hs ht = rw (all-covers day es, hs, ht) (ground arith, ground arith)

module _ (fingerprint : List ImportEvidence → String) (stored_fingerprint : ℕ → ℕ → String) where
  -- The decision by its two branches.
  resolve_cases :
      (requested closed revision : ℕ) (timezone : String) (given : List ImportEvidence)
      → let d =
          resolve_source fingerprint stored_fingerprint requested given closed revision timezone in
        ((end : ℕ) × (objections (sorted given) ≡ [])
          × (accept requested closed (sorted given) ≡ accepted end)
          × (d.shadow_allowed ≡ true)
          × (d.effective_as_of ≡ some (min requested (min end closed))))
        ⊎ ((d.shadow_allowed ≡ false)
            × (d.effective_as_of ≡ none)
            × ((objections (sorted given) ≡ [])
                → (code : Code) × (accept requested closed (sorted given) ≡ objected code)))
  unfolding resolve_source refused
  resolve_cases requested closed revision timezone given =
      go (objections (sorted given)) refl (accept requested closed (sorted given)) refl
    where
      go :
          (o : List Code)
          → objections (sorted given) ≡ o
          → (a : Acceptance) → accept requested closed (sorted given) ≡ a
          → let d =
              resolve_source fingerprint stored_fingerprint requested given closed revision
                timezone in
            ((end : ℕ) × (objections (sorted given) ≡ [])
              × (accept requested closed (sorted given) ≡ accepted end)
              × (d.shadow_allowed ≡ true)
              × (d.effective_as_of ≡ some (min requested (min end closed))))
            ⊎ ((d.shadow_allowed ≡ false)
                × (d.effective_as_of ≡ none)
                × ((objections (sorted given) ≡ [])
                    → (code : Code) × (accept requested closed (sorted given) ≡ objected code)))
      go (c ∷ cs) o a e =
          inr (rw (o, resolve_source) refl, rw (o, resolve_source) refl, λ h. cc (o, h))
      go [] o (objected code) e =
          inr (rw (o, e, resolve_source) refl, rw (o, e, resolve_source) refl, λ h. (code, e))
      go [] o (accepted end) e =
          inl (end, o, e, rw (o, e, resolve_source) refl, rw (o, e, resolve_source) refl)

  sorted-IsSound :
      (given : List ImportEvidence)
      → objections (sorted given) ≡ []
      → (1 ≤ length (sorted given))
        × (length given ≤ 1000)
        × (1 ≤ length given)
        × All IsSound (sorted given)
        × All IsSound given
  sorted-IsSound given h =
      let clean = (objections_iff (sorted given)).0 h in
      (
        clean.0,
        rw (length-sorted given) at clean.1,
        rw (length-sorted given) at clean.0,
        clean.2,
        (All-sorted IsSound given).1 clean.2,
      )

  -- A calculation is allowed exactly if there are imports, no more than a thousand, each of them sound,
  -- and some closed day up to the requested one lies in every period that they declare.
  pub resolve_source-allowed_iff :
      (requested closed revision : ℕ) (timezone : String) (given : List ImportEvidence)
      → ((resolve_source fingerprint stored_fingerprint requested given closed revision
            timezone).shadow_allowed
          ≡ true)
        ↔ ((1 ≤ length given)
            × (length given ≤ 1000)
            × All IsSound given
            × ((day : ℕ) × (day ≤ requested) × (day ≤ closed) × (all (covers day) given ≡ true)))
  resolve_source-allowed_iff requested closed revision timezone given =
      elim (resolve_cases requested closed revision timezone given) [
        | inl (end, clean, fine, allowed, effective) ↦
            let (some_there, few, some_given, sound, given_sound) = sorted-IsSound given clean in
            let ((s, hs), (t, ht)) = bounded (sorted given) some_there sound in
            elim (accept_lem requested closed s t (sorted given) hs ht) [
              | inl (same, st, sr, sc) ↦ (
                λ _. (
                  some_given,
                  few,
                  given_sound,
                  (
                    s,
                    sr,
                    sc,
                    rw (← all-sorted (covers s) given)
                        ((covered_iff s s t (sorted given) hs ht).1 (omega arith, st)),
                  ),
                ),
                λ _. allowed,
              )
              | inr (code, objected_here, _) ↦ absurd (cc (fine, objected_here))
            ]
        | inr (refused_here, nothing, why) ↦ (
          λ h. cc,
          λ (some_given, few, given_sound, (day, dr, dc, covered)).
              absurd
                (refuse requested closed given day some_given few given_sound dr dc covered why),
        )
      ]
    where
      refuse :
          (requested closed : ℕ) (given : List ImportEvidence) (day : ℕ)
          → 1 ≤ length given
          → length given ≤ 1000
          → All IsSound given
          → day ≤ requested
          → day ≤ closed
          → all (covers day) given ≡ true
          → ((objections (sorted given) ≡ [])
              → (code : Code) × (accept requested closed (sorted given) ≡ objected code))
          → ⊥
      refuse requested closed given day some_given few given_sound dr dc covered why =
          let sound = (All-sorted IsSound given).0 given_sound in
          let there : 1 ≤ length (sorted given) = rw (length-sorted given) some_given in
          let ((s, hs), (t, ht)) = bounded (sorted given) there sound in
          let inside =
            (covered_iff day s t (sorted given) hs ht).0
              (rw (all-sorted (covers day) given) covered) in
          let (code, objected_here) =
            why ((objections_iff (sorted given)).1 (there, rw (length-sorted given) few, sound)) in
          elim (accept_lem requested closed s t (sorted given) hs ht) [
            | inl (same, st, sr, sc) ↦ cc (same, objected_here)
            | inr (c, e, before) ↦ ground (arith, inside.0, inside.1)
          ]

  -- Where a calculation is allowed, its day is the last one that it may be: it is closed, not after
  -- the requested day and in every declared period, and no other such day is later.
  pub resolve_source-latest :
      (requested closed revision : ℕ) (timezone : String) (given : List ImportEvidence) (day : ℕ)
      → (resolve_source fingerprint stored_fingerprint requested given closed revision
          timezone).shadow_allowed
        ≡ true
      → day ≤ requested
      → day ≤ closed
      → all (covers day) given ≡ true
      → (last : ℕ) × ((resolve_source fingerprint stored_fingerprint requested given closed revision
            timezone).effective_as_of
          ≡ some last)
        × (last ≤ requested)
        × (last ≤ closed)
        × (all (covers last) given ≡ true)
        × (day ≤ last)
  resolve_source-latest requested closed revision timezone given day allowed dr dc covered =
      elim (resolve_cases requested closed revision timezone given) [
        | inl (end, clean, fine, _, effective) ↦
            let (some_there, few, some_given, sound, given_sound) = sorted-IsSound given clean in
            let ((s, hs), (t, ht)) = bounded (sorted given) some_there sound in
            elim (accept_lem requested closed s t (sorted given) hs ht) [
              | inl (same, st, sr, sc) ↦
                  let e : end ≡ t = cc (fine, same) in
                  let inside =
                    (covered_iff day s t (sorted given) hs ht).0
                      (rw (all-sorted (covers day) given) covered) in
                  (
                    min requested (min t closed),
                    rw (← e) effective,
                    omega arith,
                    omega arith,
                    rw (← all-sorted (covers (min requested (min t closed))) given) (
                        (covered_iff (min requested (min t closed)) s t (sorted given) hs ht).1
                          (omega arith, omega arith)),
                    omega (arith, inside),
                  )
              | inr (code, objected_here, _) ↦ absurd (cc (fine, objected_here))
            ]
        | inr (refused_here, nothing, why) ↦ cc (allowed, refused_here)
      ]
