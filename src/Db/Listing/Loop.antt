-- ===== src/Db/Listing/Loop.antt =====
-- The outer loop of `ListObjectsMeta`, round by round.
use mathlib.Core.Path.{subst}
use mathlib.Core.List.{append_assoc}
use cloodsy_s.Prelude.{
  ℕ, zero, suc, ◌+◌, ◌-◌, ◌≤◌, ◌<◌, ◌≡◌, refl, sym, ap, ◌∙◌, true, false, not, none, some, List, [],
  ◌∷◌, ◌++◌, take, drop, length, keep, All, arith, Bytes, leb, ltb, Bool-cases, Option-cases, inl,
  inr, ◌⊎◌, take-append-drop, take-append_le, take-append_ge, take_all, take_nil, bytes_lt,
  bytes_lt_trans, All-map, keep-All, keep_none,
}
use cloodsy_s.Db.Objects.{ObjectMeta, Table}
use cloodsy_s.Db.Listing.{
  Entry, entry_of, skip_of, Progress, Scan, scan_batch, next_cursor, Cursor, from_cursor,
  list_batch, list_loop, selected,
}
use cloodsy_s.Db.Listing.Entries.{
  last_of, roll_up, add_entries, add_entries-append, count-add_entries, Ascending,
}
use cloodsy_s.Db.Listing.Resume.{behind, rows_from, IsListed, roll_up-emit}
use cloodsy_s.Db.Listing.Scanning.{
  roll_up-resume, roll_up-append, scan-emit, scan_batch-progress, scan_batch-consumed,
  scan_batch-skipping,
}
use cloodsy_s.Db.Listing.Cursors.{
  init_last, entry-EndsAt, entry-IsProper, last_of-EndsAt, last_of-IsProper, next_cursor-behind,
}

pub List-cases {ℓ} :
    {A : Type ℓ} (xs : List A) → (xs ≡ []) ⊎ ((x : A) × (ys : List A) × (xs ≡ x ∷ ys))
List-cases [] = inl refl
List-cases (x ∷ xs) = inr (x, xs, refl)

drop_short : (l : ℕ) (rs : List ObjectMeta) → length (take l rs) < l → drop l rs ≡ []
drop_short zero rs h = absurd (omega arith)
drop_short (suc l) [] h = refl
drop_short (suc l) (x ∷ rs) h = drop_short l rs (omega arith)

module _ (t : Table) (b : ℕ) (prefix delimiter : Bytes) (max_keys l : ℕ)
    (asc : Ascending (selected t b prefix))
    (listed : All (IsListed prefix) (selected t b prefix)) where
  abbrev rows : List ObjectMeta
  rows = selected t b prefix

  abbrev rolled : List ObjectMeta → List Entry
  rolled rs = roll_up prefix delimiter [] rs

  -- The rows from a cursor on stand at the end of the table.
  cursor_mono :
      (c : Cursor) (x r : ObjectMeta)
      → from_cursor c x ≡ true
      → bytes_lt x.key r.key ≡ true
      → from_cursor c r ≡ true
  unfolding from_cursor
  cursor_mono c x r h lt =
      ground (arith, bytes_lt_trans x.key r.key c.lower, bytes_lt_trans c.lower x.key r.key)

  pub split_at :
      (c : Cursor) (rs : List ObjectMeta)
      → Ascending rs
      → rs ≡ keep (λ r. not (from_cursor c r)) rs ++ keep (from_cursor c) rs
  split_at c [] a = refl
  split_at c (x ∷ rs) (h, a) = elim (Bool-cases (from_cursor c x)) [
    | inl at ↦ rw (
      at,
      keep-All (from_cursor c) rs (All-map _ _ rs (λ r. cursor_mono c x r at) h),
      keep_none _ rs (All-map _ _ rs (λ r lt. ap not (cursor_mono c x r at lt)) h),
    )
    | inr early ↦ rw early (ap (λ r. x ∷ r) (split_at c rs a))
  ]

  abbrev result : ℕ → Cursor → Progress → Progress
  result fuel c st = list_loop t b prefix delimiter max_keys (suc l) fuel c st

  -- All that the rows from a cursor on still give.
  abbrev remaining : Cursor → Progress → Progress
  remaining c st = add_entries (take (max_keys - st.count) (rolled (keep (from_cursor c) rows))) st

  leb-suc_zero : (n : ℕ) → leb (suc n) 0 ≡ false
  leb-suc_zero n = ground arith

  module _ (c : Cursor) (st : Progress) (fuel : ℕ) where
    step-full : ltb st.count max_keys ≡ false → result (suc fuel) c st ≡ st
    unfolding list_loop
    step-full h = rw h

    step-empty : list_batch t b prefix c (suc l) ≡ [] → result (suc fuel) c st ≡ st
    unfolding list_loop
    step-empty h = rw h (ground arith)

    module _ (o : ObjectMeta) (batch : List ObjectMeta)
        (hb : list_batch t b prefix c (suc l) ≡ o ∷ batch)
        (room : ltb st.count max_keys ≡ true) where
      abbrev scanned : Scan
      scanned = scan_batch prefix delimiter max_keys [] (o ∷ batch) st

      step-done :
          next_cursor (suc l) (o ∷ batch) scanned ≡ none → result (suc fuel) c st ≡ scanned.progress
      unfolding list_loop
      step-done h = rw (hb, room, leb-suc_zero (length batch), h, hb)

      step-next :
          (c' : Cursor)
          → next_cursor (suc l) (o ∷ batch) scanned ≡ some c'
          → result (suc fuel) c st ≡ result fuel c' scanned.progress
      unfolding list_loop
      step-next c' h = rw (hb, room, leb-suc_zero (length batch), h, hb)

      -- One round, where the rows from the cursor are the batch and `tail`.
      module _ (tail : List ObjectMeta) (split : keep (from_cursor c) rows ≡ o ∷ (batch ++ tail))
          (short : length (o ∷ batch) < suc l → tail ≡ [])
          (ih : (c' : Cursor) (st' : Progress)
            → max_keys ≤ fuel + st'.count
            → st'.count ≤ max_keys
            → result fuel c' st' ≡ remaining c' st')
          (fits : st.count ≤ max_keys) (fueled : max_keys ≤ suc fuel + st.count) where
        abbrev emitted : List Entry
        emitted = rolled (o ∷ batch)

        -- The entries of the tail.
        abbrev later : List Entry
        later = (roll_up-append prefix delimiter (o ∷ batch) tail []).0

        rolled-split : rolled (o ∷ (batch ++ tail)) ≡ emitted ++ later
        rolled-split = (roll_up-append prefix delimiter (o ∷ batch) tail []).1

        remaining-split :
            remaining c st ≡ add_entries (take (max_keys - st.count) (emitted ++ later)) st
        remaining-split = rw (split, rolled-split)

        round_full :
            leb (length emitted) (max_keys - st.count) ≡ false
            → result (suc fuel) c st ≡ remaining c st
        round_full h =
            let stuck = scan_batch-consumed prefix delimiter max_keys [] (o ∷ batch) st ∙ h in
            rw
              (
                step-done (rw stuck),
                remaining-split,
                take-append_le (max_keys - st.count) emitted later (ground arith),
              )
              (scan_batch-progress prefix delimiter max_keys [] (o ∷ batch) st)

        module _ (enough : leb (length emitted) (max_keys - st.count) ≡ true) where
          abbrev grown : Progress
          grown = add_entries emitted st

          progress-grown : scanned.progress ≡ grown
          progress-grown =
              scan_batch-progress prefix delimiter max_keys [] (o ∷ batch) st
              ∙ ap (λ es. add_entries es st) (take_all (max_keys - st.count) emitted (ground arith))

          remaining-grown : remaining c st ≡ add_entries (take (max_keys - grown.count) later) grown
          remaining-grown =
              let room_left : max_keys - grown.count ≡ max_keys - st.count - length emitted =
                omega (arith, count-add_entries emitted st) in
              rw (
                remaining-split,
                take-append_ge (max_keys - st.count) emitted later (ground arith),
                add_entries-append,
                room_left,
              )

          -- The last entry of the batch.
          abbrev final : Entry
          final =
              last_of (entry_of prefix delimiter o)
                (roll_up prefix delimiter (skip_of (entry_of prefix delimiter o)) batch)

          consumed : scanned.consumed_all ≡ true
          consumed = scan_batch-consumed prefix delimiter max_keys [] (o ∷ batch) st ∙ enough

          skipping-final : scanned.skipping ≡ skip_of final
          skipping-final =
              let first = scan-emit prefix delimiter max_keys [] o batch st refl (ground arith) in
              rw first (
                scan_batch-skipping prefix delimiter max_keys (entry_of prefix delimiter o) batch _
                  (rw first at consumed))

          abbrev before : List ObjectMeta
          before = keep (λ r. not (from_cursor c r)) rows

          abbrev first_ones : List Entry
          first_ones =
              (init_last (entry_of prefix delimiter o)
                (roll_up prefix delimiter (skip_of (entry_of prefix delimiter o)) batch)).0

          emitted-final : emitted ≡ first_ones ++ final ∷ []
          emitted-final =
              roll_up-emit prefix delimiter [] o batch refl
              ∙ (init_last (entry_of prefix delimiter o)
                  (roll_up prefix delimiter (skip_of (entry_of prefix delimiter o)) batch)).1

          rolled-behind : rolled (rows_from (behind final) rows) ≡ later
          rolled-behind =
              let e = split_at c rows asc ∙ ap (λ rs. before ++ rs) split in
              subst (λ rs. rolled (rows_from (behind final) rs) ≡ later) (sym e)
                (roll_up-resume prefix delimiter (o ∷ (batch ++ tail)) before [] first_ones final
                  later (subst Ascending e asc) (subst (All (IsListed prefix)) e listed)
                  (rolled-split
                    ∙ ap (λ es. es ++ later) emitted-final
                    ∙ append_assoc first_ones (final ∷ []) later))

          no_more :
              later ≡ [] → result (suc fuel) c st ≡ grown → result (suc fuel) c st ≡ remaining c st
          no_more e h =
              rw (h, remaining-grown, e, take_nil (max_keys - grown.count))
                (unfold add_entries in refl)

          go_on : (c' : Cursor) → behind final ≡ some c' → result fuel c' grown ≡ remaining c st
          go_on c' e =
              let counted = count-add_entries emitted st in
              let some_emitted : 0 < length emitted =
                rw (roll_up-emit prefix delimiter [] o batch refl) (omega arith) in
              ih c' grown (ground arith) (ground arith)
              ∙ ap (λ es. add_entries (take (max_keys - grown.count) es) grown)
                  (sym (ap (λ k. rolled (rows_from k rows)) e) ∙ rolled-behind)
              ∙ sym remaining-grown

          round_room : result (suc fuel) c st ≡ remaining c st
          round_room =
              elim (next_cursor-behind (suc l) (o ∷ batch) scanned final consumed skipping-final
                (last_of-EndsAt prefix delimiter (entry_of prefix delimiter o) o batch
                  (entry-EndsAt prefix delimiter o))
                (last_of-IsProper prefix delimiter (entry_of prefix delimiter o) batch
                  (entry-IsProper prefix delimiter o))) [
                    | inr (stop, few) ↦
                        no_more
                          ((roll_up-append prefix delimiter (o ∷ batch) tail []).2 (short few))
                          (step-done stop ∙ progress-grown)
                    | inl same ↦ elim (Option-cases (behind final)) [
                      | inl e ↦
                          no_more (sym rolled-behind ∙ rw e (unfold roll_up in refl))
                            (step-done (same ∙ e) ∙ progress-grown)
                      | inr (c', e) ↦
                          step-next c' (same ∙ e) ∙ ap (result fuel c') progress-grown ∙ go_on c' e
                    ]
                  ]

        round : result (suc fuel) c st ≡ remaining c st
        round = elim (Bool-cases (leb (length emitted) (max_keys - st.count))) [
          | inl enough ↦ round_room enough
          | inr few ↦ round_full few
        ]

  no_room : (c : Cursor) (st : Progress) → max_keys - st.count ≡ 0 → remaining c st ≡ st
  unfolding add_entries
  no_room c st h = rw h

  no_rows : (c : Cursor) (st : Progress) → keep (from_cursor c) rows ≡ [] → remaining c st ≡ st
  unfolding add_entries roll_up
  no_rows c st h = rw (h, take_nil (max_keys - st.count))

  batch_of :
      (c : Cursor) (rs : List ObjectMeta)
      → keep (from_cursor c) rows ≡ rs
      → list_batch t b prefix c (suc l) ≡ take (suc l) rs
  unfolding list_batch
  batch_of c rs e = ap (take (suc l)) e

  -- With fuel for the entries still to come the loop adds all of them, up to the limit.
  pub list_loop-remaining :
      (fuel : ℕ) (c : Cursor) (st : Progress)
      → max_keys ≤ fuel + st.count
      → st.count ≤ max_keys
      → result fuel c st ≡ remaining c st
  list_loop-remaining zero c st fueled fits = unfold list_loop in rw (no_room c st (omega arith))
  list_loop-remaining (suc fuel) c st fueled fits = elim (Bool-cases (ltb st.count max_keys)) [
    | inr full ↦ step-full c st fuel full ∙ sym (no_room c st (ground arith))
    | inl room ↦ elim (List-cases (keep (from_cursor c) rows)) [
      | inl e ↦ step-empty c st fuel (batch_of c [] e) ∙ sym (no_rows c st e)
      | inr (o, rs, e) ↦
          round c st fuel o (take l rs) (batch_of c (o ∷ rs) e) room (drop l rs)
            (e ∙ ap (λ r. o ∷ r) (sym (take-append-drop l rs))) (λ h. drop_short l rs (omega arith))
            (list_loop-remaining fuel) fits fueled
    ]
  ]
