-- ===== src/Db/Listing/Scanning.antt =====
-- The loop over one batch: what it emits, and with what it ends.
use cloodsy_s.Prelude.{
  take_nil, ℕ, suc, ◌+◌, ◌-◌, ◌≡◌, refl, sym, ap, ◌∙◌, true, false, List, [], ◌∷◌, ◌++◌, take,
  length, All, arith, Bytes, leb, Bool-cases, inl, inr,
}
use mathlib.Core.List.{append_assoc}
use cloodsy_s.Db.Objects.{ObjectMeta}
use cloodsy_s.Db.Listing.{Entry, entry_of, skip_of, skips, Progress, add_entry, Scan, scan_batch}
use cloodsy_s.Db.Listing.Entries.{last_of, roll_up, add_entries, count-add_entry, Ascending}
use cloodsy_s.Db.Listing.Resume.{
  behind, rows_from, IsListed, roll_up-skip, roll_up-emit, roll_up-behind,
}

module _ (prefix delimiter : Bytes) where
  abbrev entries : Bytes → List ObjectMeta → List Entry
  entries skipping rows = roll_up prefix delimiter skipping rows

  ne-append_cons : (es : List Entry) (e : Entry) (fs : List Entry) → [] ≡ es ++ e ∷ fs → ⊥
  ne-append_cons [] e fs h = cc
  ne-append_cons (x ∷ es) e fs h = cc

  -- The entries of the rows behind `e`, where the table is `all`.
  abbrev pub Follows : Entry → List Entry → List ObjectMeta → Type 0
  Follows e fs all = entries [] (rows_from (behind e) all) ≡ fs

  resume_here :
      (before : List ObjectMeta) (o : ObjectMeta) (rows : List ObjectMeta) (e : Entry)
      (fs : List Entry)
      → Ascending (before ++ o ∷ rows)
      → All (IsListed prefix) (before ++ o ∷ rows)
      → entry_of prefix delimiter o ∷ entries (skip_of (entry_of prefix delimiter o)) rows ≡ e ∷ fs
      → Follows e fs (before ++ o ∷ rows)
  resume_here before o rows e fs asc listed h =
      let same : entry_of prefix delimiter o ≡ e = cc in
      let rest : entries (skip_of (entry_of prefix delimiter o)) rows ≡ fs = cc in
      rw (← same) (roll_up-behind prefix delimiter before o rows asc listed ∙ rest)

  -- Behind any entry of a listing the table's rows roll up to the entries that follow it.
  pub roll_up-resume :
      (rows before : List ObjectMeta) (skipping : Bytes) (es : List Entry) (e : Entry)
      (fs : List Entry)
      → Ascending (before ++ rows)
      → All (IsListed prefix) (before ++ rows)
      → entries skipping rows ≡ es ++ e ∷ fs
      → Follows e fs (before ++ rows)
  roll_up-resume [] before skipping es e fs asc listed h =
      absurd (ne-append_cons es e fs (unfold roll_up in h))
  roll_up-resume (o ∷ rows) before skipping [] e fs asc listed h =
      elim (Bool-cases (skips skipping o)) [
        | inl skipped ↦ rw append_assoc at (
            roll_up-resume rows (before ++ o ∷ []) skipping [] e fs (rw append_assoc asc)
              (rw append_assoc listed)
              (sym (roll_up-skip prefix delimiter skipping o rows skipped) ∙ h))
        | inr emitted ↦
            resume_here before o rows e fs asc listed
              (sym (roll_up-emit prefix delimiter skipping o rows emitted) ∙ h)
      ]
  roll_up-resume (o ∷ rows) before skipping (x ∷ es) e fs asc listed h =
      elim (Bool-cases (skips skipping o)) [
        | inl skipped ↦ rw append_assoc at (
            roll_up-resume rows (before ++ o ∷ []) skipping (x ∷ es) e fs (rw append_assoc asc)
              (rw append_assoc listed)
              (sym (roll_up-skip prefix delimiter skipping o rows skipped) ∙ h))
        | inr emitted ↦ rw append_assoc at (
            roll_up-resume rows (before ++ o ∷ []) (skip_of (entry_of prefix delimiter o)) es e fs
              (rw append_assoc asc) (rw append_assoc listed)
              (let g = sym (roll_up-emit prefix delimiter skipping o rows emitted) ∙ h in cc))
      ]

  -- More rows add entries at the end, and no rows add none.
  pub roll_up-append :
      (xs ys : List ObjectMeta) (skipping : Bytes)
      → (fs : List Entry) × (entries skipping (xs ++ ys) ≡ entries skipping xs ++ fs)
        × (ys ≡ [] → fs ≡ [])
  roll_up-append [] ys skipping =
      (entries skipping ys, unfold roll_up in refl, λ h. rw h (unfold roll_up in refl))
  roll_up-append (x ∷ xs) ys skipping = elim (Bool-cases (skips skipping x)) [
    | inl skipped ↦
        let (fs, h, k) = roll_up-append xs ys skipping in
        (
          fs,
          rw
              (
                roll_up-skip prefix delimiter skipping x xs skipped,
                roll_up-skip prefix delimiter skipping x (xs ++ ys) skipped,
              )
              h,
          k,
        )
    | inr emitted ↦
        let (fs, h, k) = roll_up-append xs ys (skip_of (entry_of prefix delimiter x)) in
        (
          fs,
          rw
              (
                roll_up-emit prefix delimiter skipping x xs emitted,
                roll_up-emit prefix delimiter skipping x (xs ++ ys) emitted,
              )
              (ap (λ r. entry_of prefix delimiter x ∷ r) h),
          k,
        )
  ]

  module _ (max_keys : ℕ) where
    abbrev scan : Bytes → List ObjectMeta → Progress → Scan
    scan skipping batch st = scan_batch prefix delimiter max_keys skipping batch st

    scan-skip :
        (skipping : Bytes) (o : ObjectMeta) (batch : List ObjectMeta) (st : Progress)
        → skips skipping o ≡ true
        → scan skipping (o ∷ batch) st ≡ scan skipping batch st
    unfolding scan_batch
    scan-skip skipping o batch st h = rw h

    scan-full :
        (skipping : Bytes) (o : ObjectMeta) (batch : List ObjectMeta) (st : Progress)
        → skips skipping o ≡ false
        → leb max_keys st.count ≡ true
        → scan skipping (o ∷ batch) st
          ≡ record { progress = st; skipping = []; consumed_all = false }
    unfolding scan_batch
    scan-full skipping o batch st h k = rw (h, k)

    pub scan-emit :
        (skipping : Bytes) (o : ObjectMeta) (batch : List ObjectMeta) (st : Progress)
        → skips skipping o ≡ false
        → leb max_keys st.count ≡ false
        → scan skipping (o ∷ batch) st
          ≡ scan
              (skip_of (entry_of prefix delimiter o))
              batch
              (add_entry (entry_of prefix delimiter o) st)
    unfolding scan_batch
    scan-emit skipping o batch st h k = rw (h, k)

    take-room :
        (e : Entry) (es : List Entry) (st : Progress)
        → leb max_keys st.count ≡ false
        → take (max_keys - st.count) (e ∷ es) ≡ e ∷ take (max_keys - (add_entry e st).count) es
    take-room e es st h =
        let room : max_keys - st.count ≡ suc (max_keys - (st.count + 1)) = ground arith in
        rw (count-add_entry, room)

    -- A batch adds its entries as far as there is room.
    pub scan_batch-progress :
        (skipping : Bytes) (batch : List ObjectMeta) (st : Progress)
        → (scan skipping batch st).progress
          ≡ add_entries (take (max_keys - st.count) (entries skipping batch)) st
    scan_batch-progress skipping [] st =
        unfold scan_batch roll_up in
        rw (take_nil (max_keys - st.count)) (unfold add_entries in refl)
    scan_batch-progress skipping (o ∷ batch) st = elim (Bool-cases (skips skipping o)) [
      | inl skipped ↦
          rw
            (
              scan-skip skipping o batch st skipped,
              roll_up-skip prefix delimiter skipping o batch skipped,
            )
            (scan_batch-progress skipping batch st)
      | inr passed ↦
          rw (roll_up-emit prefix delimiter skipping o batch passed)
            (elim (Bool-cases (leb max_keys st.count)) [
              | inl full ↦
                  let none_left : max_keys - st.count ≡ 0 = ground arith in
                  rw (scan-full skipping o batch st passed full, none_left)
                    (unfold add_entries in refl)
              | inr room ↦
                  rw (scan-emit skipping o batch st passed room, take-room _ _ st room)
                    (scan_batch-progress (skip_of (entry_of prefix delimiter o)) batch
                        (add_entry (entry_of prefix delimiter o) st)
                      ∙ unfold add_entries in refl)
            ])
    ]

    -- A batch is consumed if there is room for all its entries.
    pub scan_batch-consumed :
        (skipping : Bytes) (batch : List ObjectMeta) (st : Progress)
        → (scan skipping batch st).consumed_all
          ≡ leb (length (entries skipping batch)) (max_keys - st.count)
    scan_batch-consumed skipping [] st = unfold scan_batch roll_up in ground arith
    scan_batch-consumed skipping (o ∷ batch) st = elim (Bool-cases (skips skipping o)) [
      | inl skipped ↦
          rw
            (
              scan-skip skipping o batch st skipped,
              roll_up-skip prefix delimiter skipping o batch skipped,
            )
            (scan_batch-consumed skipping batch st)
      | inr passed ↦
          rw (roll_up-emit prefix delimiter skipping o batch passed)
            (elim (Bool-cases (leb max_keys st.count)) [
              | inl full ↦ rw (scan-full skipping o batch st passed full) (ground arith)
              | inr room ↦
                  let e : Entry = entry_of prefix delimiter o in
                  rw (scan-emit skipping o batch st passed room) (
                    scan_batch-consumed (skip_of e) batch (add_entry e st)
                    ∙ ground (arith, count-add_entry e st))
            ])
    ]

    -- A consumed batch leaves the prefix that its last entry skips.
    pub scan_batch-skipping :
        (e : Entry) (batch : List ObjectMeta) (st : Progress)
        → (scan (skip_of e) batch st).consumed_all ≡ true
        → (scan (skip_of e) batch st).skipping ≡ skip_of (last_of e (entries (skip_of e) batch))
    scan_batch-skipping e [] st h = unfold scan_batch roll_up in refl
    scan_batch-skipping e (o ∷ batch) st h = elim (Bool-cases (skips (skip_of e) o)) [
      | inl skipped ↦
          rw
            (
              scan-skip (skip_of e) o batch st skipped,
              roll_up-skip prefix delimiter (skip_of e) o batch skipped,
            )
            (scan_batch-skipping e batch st (rw (scan-skip (skip_of e) o batch st skipped) at h))
      | inr passed ↦
          rw (roll_up-emit prefix delimiter (skip_of e) o batch passed)
            (elim (Bool-cases (leb max_keys st.count)) [
              | inl full ↦
                  absurd (let g = scan-full (skip_of e) o batch st passed full in ground arith)
              | inr room ↦ rw (scan-emit (skip_of e) o batch st passed room) (
                  scan_batch-skipping (entry_of prefix delimiter o) batch
                    (add_entry (entry_of prefix delimiter o) st)
                    (rw (scan-emit (skip_of e) o batch st passed room) at h))
            ])
    ]
