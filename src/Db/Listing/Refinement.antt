-- ===== src/Db/Listing/Refinement.antt =====
-- One call of `ListObjectsMeta` against a page of the rolled-up entries.
use native.Mathlib.Nat.{sub-zero}
use cloodsy_s.Prelude.{
  ℕ, zero, suc, ◌-◌, ◌==◌, ◌≤◌, ◌<◌, ◌≡◌, refl, sym, ap, ◌∙◌, Bool, true, false, Option, none, some,
  List, [], ◌∷◌, ◌++◌, take, drop, length, keep, All, arith, Bytes, leb, ltb, non_empty, Bool-cases,
  inl, inr, All-append_left, All-append_right, All-keep, take-append-drop, take_all, take_nil,
}
use mathlib.Core.Path.{subst}
use mathlib.Core.List.{append_assoc}
use cloodsy_s.Db.Objects.{ObjectMeta, Table}
use cloodsy_s.Db.Listing.{
  Entry, Progress, no_progress, Cursor, from_cursor, list_batch, list_loop, selected, has_row,
  truncated, finish, list_from, start_cursor, list_objects_meta, batch_size, probe_cursor,
}
use cloodsy_s.Db.Listing.Entries.{roll_up, last_of, add_entries, Ascending}
use cloodsy_s.Db.Listing.Resume.{behind, rows_from, IsListed, roll_up-emit}
use cloodsy_s.Db.Listing.Scanning.{roll_up-resume}
use cloodsy_s.Db.Listing.Cursors.{init_last}
use cloodsy_s.Db.Listing.Loop.{list_loop-remaining, List-cases, split_at}
use cloodsy_s.Db.Listing.Page.{
  page, entries_from, add_entries_lem, IsEntry, roll_up-IsEntry, probe_cursor-behind,
}

-- What is asked of the rows: in strictly ascending order of keys, under the prefix.
pub record IsListable (t : Table) (b : ℕ) (prefix : Bytes) : Type 0 where
  pub ascending : Ascending (selected t b prefix)
  pub listed : All (IsListed prefix) (selected t b prefix)

drop-length : (n : ℕ) (es : List Entry) → length (drop n es) ≡ length es - n
drop-length zero es = omega arith
drop-length (suc n) [] = omega arith
drop-length (suc n) (e ∷ es) = omega (arith, drop-length n es)

take-length : (n : ℕ) (es : List Entry) → n ≤ length es → length (take n es) ≡ n
take-length zero es h = refl
take-length (suc n) [] h = absurd (omega arith)
take-length (suc n) (e ∷ es) h = ap suc (take-length n es (omega arith))

-- A list that is not empty ends in an element.
ends_in :
    (es : List Entry) → 0 < length es → (first : List Entry) × (e : Entry) × (es ≡ first ++ e ∷ [])
ends_in [] h = absurd (omega arith)
ends_in (e ∷ es) h = let (first, same) = init_last e es in (first, last_of e es, same)

module _ (t : Table) (b : ℕ) (prefix delimiter : Bytes) (max_keys : ℕ)
    (w : IsListable t b prefix) where
  abbrev rows : List ObjectMeta
  rows = selected t b prefix

  abbrev from : Option Cursor → List Entry
  from c = entries_from t b prefix delimiter c

  has_row-from : (c : Option Cursor) → has_row t b prefix c ≡ ltb 0 (length (from c))
  unfolding list_batch
  has_row-from none = unfold roll_up in ground arith
  has_row-from (some c) = elim (List-cases (keep (from_cursor c) rows)) [
    | inl e ↦ rw e (unfold roll_up in ground arith)
    | inr (x, xs, e) ↦ rw (e, roll_up-emit prefix delimiter [] x xs refl) (ground arith)
  ]

  -- Behind the last of `n` entries the rows give the entries that are left.
  pub from-behind :
      (c : Cursor) (n : ℕ) (first : List Entry) (e : Entry)
      → take n (from (some c)) ≡ first ++ e ∷ []
      → from (behind e) ≡ drop n (from (some c))
  from-behind c n first e h =
      let split =
        split_at t b prefix delimiter max_keys 0 w.ascending w.listed c rows w.ascending in
      subst (λ rs. roll_up prefix delimiter [] (rows_from (behind e) rs) ≡ drop n (from (some c)))
        (sym split)
        (roll_up-resume prefix delimiter (keep (from_cursor c) rows) _ [] first e
          (drop n (from (some c))) (subst Ascending split w.ascending)
          (subst (All (IsListed prefix)) split w.listed)
          (sym (take-append-drop n (from (some c)))
            ∙ ap (λ es. es ++ drop n (from (some c))) h
            ∙ append_assoc first (e ∷ []) _))

  from-IsEntry : (c : Option Cursor) → All (IsEntry prefix delimiter) (from c)
  from-IsEntry none = roll_up-IsEntry prefix delimiter [] [] tt
  from-IsEntry (some c) =
      roll_up-IsEntry prefix delimiter (keep (from_cursor c) rows) []
        (All-keep _ (from_cursor c) rows w.listed)

  -- The first `n` entries, taken apart at the last.
  pub page_ends :
      (c : Cursor) (n : ℕ)
      → 0 < n
      → n ≤ length (from (some c))
      → (first : List Entry) × (e : Entry) × (take n (from (some c)) ≡ first ++ e ∷ [])
        × All (IsEntry prefix delimiter) first
        × IsEntry prefix delimiter e
  page_ends c n h k =
      let (first, e, same) =
        ends_in (take n (from (some c))) (omega (arith, take-length n (from (some c)) k)) in
      let a = subst (All (IsEntry prefix delimiter)) same (
        All-append_left _ (take n (from (some c))) (drop n (from (some c))) (
          subst (All (IsEntry prefix delimiter)) (sym (take-append-drop n (from (some c))))
            (from-IsEntry (some c)))) in
      (first, e, same, All-append_left _ first (e ∷ []) a, (All-append_right _ first (e ∷ []) a).0)

  abbrev filled : Cursor → Progress
  filled c = add_entries (take max_keys (from (some c))) no_progress

  count-filled : (c : Cursor) → (filled c).count ≡ length (take max_keys (from (some c)))
  count-filled c = rw add_entries_lem (omega arith)

  truncated-short :
      (c : Cursor) (st : Progress)
      → 0 < max_keys
      → st.count < max_keys
      → truncated t b prefix max_keys c st ≡ false
  unfolding truncated
  truncated-short c st h k = ground arith

  truncated-full :
      (c : Cursor) (st : Progress)
      → 0 < max_keys
      → max_keys ≤ st.count
      → non_empty st.last_entry ≡ true
      → truncated t b prefix max_keys c st ≡ has_row t b prefix (probe_cursor st)
  unfolding truncated
  truncated-full c st h k n =
      let p : (max_keys == 0) ≡ false = ground arith in
      let q : leb max_keys st.count ≡ true = ground arith in rw (p, q, n)

  truncated-none :
      (c : Cursor) (st : Progress)
      → max_keys ≡ 0
      → truncated t b prefix max_keys c st ≡ has_row t b prefix (some c)
  unfolding truncated
  truncated-none c st h = rw h

  filled-probe :
      (c : Cursor) (first : List Entry) (e : Entry)
      → take max_keys (from (some c)) ≡ first ++ e ∷ []
      → All (IsEntry prefix delimiter) first
      → IsEntry prefix delimiter e
      → (probe_cursor (filled c) ≡ behind e) × (non_empty (filled c).last_entry ≡ true)
  filled-probe c first e same a h = rw same (probe_cursor-behind prefix delimiter first e a h)

  truncated-at_end :
      (c : Cursor)
      → 0 < max_keys
      → max_keys ≤ length (from (some c))
      → truncated t b prefix max_keys c (filled c) ≡ ltb max_keys (length (from (some c)))
  truncated-at_end c h k =
      let (first, e, same, a, p) = page_ends c max_keys h k in
      let (probe, named) = filled-probe c first e same a p in
      let counted = count-filled c in
      let len = take-length max_keys (from (some c)) k in
      truncated-full c (filled c) h (omega arith) named
      ∙ ap (has_row t b prefix) probe
      ∙ has_row-from (behind e)
      ∙ ap (λ es. ltb 0 (length es)) (from-behind c max_keys first e same)
      ∙ rw (drop-length max_keys (from (some c))) (ground arith)

  truncated-filled :
      (c : Cursor)
      → truncated t b prefix max_keys c (filled c) ≡ ltb max_keys (length (from (some c)))
  truncated-filled c = elim (Bool-cases (max_keys == 0)) [
    | inl z ↦
        let zeroed : max_keys ≡ 0 = ground arith in
        truncated-none c (filled c) zeroed
        ∙ has_row-from (some c)
        ∙ ap (λ n. ltb n (length (from (some c)))) (sym zeroed)
    | inr p ↦ elim (Bool-cases (leb max_keys (length (from (some c))))) [
      | inl k ↦ truncated-at_end c (ground arith) (ground arith)
      | inr k ↦
          let len = ap length (take_all max_keys (from (some c)) (ground arith)) in
          let counted = count-filled c in
          truncated-short c (filled c) (ground arith) (ground arith) ∙ ground arith
    ]
  ]

  loop-filled :
      (c : Cursor)
      → list_loop t b prefix delimiter max_keys batch_size max_keys c no_progress ≡ filled c
  loop-filled c =
      list_loop-remaining t b prefix delimiter max_keys 999 w.ascending w.listed max_keys c
        no_progress (omega arith) (omega arith)
      ∙ ap (λ n. add_entries (take n (from (some c))) no_progress) (sub-zero max_keys)

  finish-page :
      (es : List Entry) (more : Bool) → finish (add_entries es no_progress) more ≡ page es more
  finish-page es more = rw add_entries_lem

  at_end : (n : ℕ) → finish no_progress false ≡ page [] (ltb n 0)
  at_end n = let h : ltb n 0 ≡ false = ground arith in rw h

  list_from-page :
      (c : Option Cursor)
      → list_from t b prefix delimiter max_keys c
        ≡ page (take max_keys (from c)) (ltb max_keys (length (from c)))
  list_from-page none = unfold roll_up in rw (take_nil max_keys) (at_end max_keys)
  list_from-page (some c) =
      rw (loop-filled c, truncated-filled c) (finish-page (take max_keys (from (some c))) _)

  -- Where the selected rows have strictly ascending keys that are bytes, not empty and under the
  -- prefix, a call returns the first `max_keys` entries of all the rows from the marker on, rolled
  -- up at once without batches, and says that the page is truncated exactly when more are left.
  pub list_objects_meta-eq-page :
      (marker : Bytes)
      → list_objects_meta t b prefix marker delimiter max_keys
        ≡ page
            (take max_keys (from (start_cursor prefix marker delimiter)))
            (ltb max_keys (length (from (start_cursor prefix marker delimiter))))
  unfolding list_objects_meta
  list_objects_meta-eq-page marker = list_from-page (start_cursor prefix marker delimiter)
