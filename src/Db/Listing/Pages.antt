-- ===== src/Db/Listing/Pages.antt =====
-- The sequence of pages that a client of `ListObjectsMeta` sees, who goes on from `NextMarker`.
use mathlib.Core.Path.{subst}
use cloodsy_s.Prelude.{
  ℕ, ◌+◌, ◌<◌, ◌≡◌, refl, sym, ap, ◌∙◌, true, false, not, none, some, List, [], ◌∷◌, ◌++◌, take,
  drop, length, keep, All, arith, Bytes, ltb, non_empty, Bool-cases, Option-cases, inl, inr,
  All-append_left, All-append_right, take-append-drop, has_suffix, has_suffix-index_of,
  has_prefix-append_left, has_prefix_refl, bytes_lt, take_nil, zero, suc, &&-eq-true,
}
use cloodsy_s.Db.Prefix.{prefix_upper_bound, in_prefix_range}
use cloodsy_s.Db.Objects.{ObjectMeta, Table}
use cloodsy_s.Db.Listing.{
  Entry, object, common, Cursor, from_cursor, selected, start_cursor, is_prefix_marker,
  common_prefix, list_batch, list_loop, list_from, no_progress, batch_size, truncated,
  list_objects_meta, order_by_key, in_range,
}
use cloodsy_s.Db.Listing.Common.{common_prefix-inv, common_prefix-non_empty}
use cloodsy_s.Db.Listing.Entries.{roll_up}
use cloodsy_s.Db.Listing.Resume.{behind, from_cursor_bound, bytes_lt-non_empty}
use cloodsy_s.Db.Listing.Page.{page, entries_from, last_name, name_of, IsEntry}
use cloodsy_s.Db.Listing.Refinement.{IsListable, list_objects_meta-eq-page, from-behind, page_ends}

-- The key of the object is not read as a common prefix when it comes back as a marker.
abbrev pub IsPlain : Bytes → Bytes → Entry → Type 0
IsPlain prefix delimiter (object o) = is_prefix_marker prefix o.key delimiter ≡ false
IsPlain prefix delimiter (common cp) = Unit

module _ (prefix delimiter : Bytes) where
  common_prefix-marker :
      (k cp : Bytes)
      → common_prefix prefix delimiter k ≡ some cp
      → is_prefix_marker prefix cp delimiter ≡ true
  common_prefix-marker k cp h =
      let (d, (i, found, same)) = common_prefix-inv prefix delimiter k cp h in
      let n = common_prefix-non_empty prefix delimiter k cp h in
      let tail = has_suffix-index_of prefix (drop (length prefix) k) delimiter i found in
      let front =
        has_prefix-append_left prefix (take (i + length delimiter) (drop (length prefix) k)) in
      let tail' = rw same at tail in let front' = rw same at front in rw (d, n, tail', front')

  start_cursor-behind :
      (e : Entry)
      → IsEntry prefix delimiter e
      → IsPlain prefix delimiter e
      → start_cursor prefix (name_of e) delimiter ≡ behind e
  unfolding start_cursor
  start_cursor-behind (object o) h p = rw p
  start_cursor-behind (common cp) (k, h) p = rw (common_prefix-marker k cp h)

last_name_of-append :
    (n : Bytes) (xs : List Entry) (e : Entry) → last_name n (xs ++ e ∷ []) ≡ name_of e
last_name_of-append n [] e = refl
last_name_of-append n (x ∷ xs) e = last_name_of-append (name_of x) xs e

page-next_marker :
    (es first : List Entry) (e : Entry)
    → es ≡ first ++ e ∷ []
    → (page es true).next_marker ≡ name_of e
page-next_marker es first e h = ap (last_name []) h ∙ last_name_of-append [] first e

module _ (t : Table) (b : ℕ) (prefix delimiter : Bytes) (w : IsListable t b prefix) where
  abbrev from_marker : Bytes → List Entry
  from_marker marker = entries_from t b prefix delimiter (start_cursor prefix marker delimiter)

  absurd_short : (n : ℕ) → n < length (entries_from t b prefix delimiter none) → ⊥
  unfolding roll_up
  absurd_short n h = omega arith

  no_entries :
      (marker : Bytes) (n : ℕ)
      → start_cursor prefix marker delimiter ≡ none
      → n < length (from_marker marker)
      → ⊥
  no_entries marker n e k = absurd_short n (rw e at k)

  -- The marker of a truncated page starts behind its last entry.
  next_marker-start :
      (marker : Bytes) (max_keys : ℕ) (c : Cursor)
      → start_cursor prefix marker delimiter ≡ some c
      → 0 < max_keys
      → max_keys < length (from_marker marker)
      → All (IsPlain prefix delimiter) (from_marker marker)
      → from_marker (list_objects_meta t b prefix marker delimiter max_keys).next_marker
        ≡ drop max_keys (from_marker marker)
  next_marker-start marker max_keys c s h k u =
      let start = entries_from t b prefix delimiter (some c) in
      let at = ap (entries_from t b prefix delimiter) s in
      let k' : max_keys < length start = rw s at k in
      let u' : All (IsPlain prefix delimiter) start = rw s at u in
      let (first, e, same, a, p) =
        page_ends t b prefix delimiter max_keys w c max_keys h (omega arith) in
      let plain : All (IsPlain prefix delimiter) (first ++ e ∷ []) =
        subst (All (IsPlain prefix delimiter)) same (
          All-append_left _ (take max_keys start) (drop max_keys start)
            (subst (All (IsPlain prefix delimiter)) (sym (take-append-drop max_keys start)) u')) in
      let long : ltb max_keys (length start) ≡ true = ground arith in
      let marked =
        ap (λ r. r.next_marker) (list_objects_meta-eq-page t b prefix delimiter max_keys w marker)
        ∙ ap (λ q. (page (take max_keys q) (ltb max_keys (length q))).next_marker) at
        ∙ ap (λ m. (page (take max_keys start) m).next_marker) long
        ∙ page-next_marker (take max_keys start) first e same in
      rw
        (
          marked,
          start_cursor-behind prefix delimiter e p (All-append_right _ first (e ∷ []) plain).0,
        )
        (from-behind t b prefix delimiter max_keys w c max_keys first e same
          ∙ sym (ap (drop max_keys) at))

  -- Where the selected rows are listable, the page limit is positive, entries are left after the
  -- page, and no listed object's key is itself read as a common prefix, a call from the page's
  -- `NextMarker` lists on exactly where that page ended.
  pub list_objects_meta-next_marker :
      (marker : Bytes) (max_keys n : ℕ)
      → 0 < max_keys
      → max_keys < length (from_marker marker)
      → All (IsPlain prefix delimiter) (from_marker marker)
      → list_objects_meta t b prefix
          (list_objects_meta t b prefix marker delimiter max_keys).next_marker
          delimiter
          n
        ≡ page
            (take n (drop max_keys (from_marker marker)))
            (ltb n (length (drop max_keys (from_marker marker))))
  list_objects_meta-next_marker marker max_keys n h k u =
      elim (Option-cases (start_cursor prefix marker delimiter)) [
        | inl e ↦ absurd (no_entries marker max_keys e k)
        | inr (c, e) ↦ rw (
          list_objects_meta-eq-page t b prefix delimiter n w,
          next_marker-start marker max_keys c e h k u,
        )
      ]

range_bound :
    (p key ub : Bytes)
    → prefix_upper_bound p ≡ some ub
    → non_empty p ≡ true
    → in_prefix_range p key ≡ true
    → bytes_lt key ub ≡ true
unfolding in_prefix_range
range_bound [] key ub e n h = cc
range_bound (c ∷ p) key ub e n h = let h' = rw (in_prefix_range, e) at h in (&&-eq-true _ _ h').1

module _ (t : Table) (b : ℕ) (p delimiter : Bytes) (max_keys : ℕ) where
  start_cursor-prefix :
      non_empty delimiter ≡ true
      → non_empty p ≡ true
      → has_suffix p delimiter ≡ true
      → start_cursor p p delimiter ≡ behind (common p)
  unfolding start_cursor
  start_cursor-prefix d n s = rw (d, n, s, has_prefix_refl p)

  past_prefix :
      (r : ObjectMeta) (ub : Bytes)
      → prefix_upper_bound p ≡ some ub
      → non_empty p ≡ true
      → in_range b p r ≡ true
      → from_cursor (record { lower = ub; inclusive = true }) r ≡ false
  unfolding in_range
  past_prefix r ub e n h =
      let lt = range_bound p r.key ub e n (&&-eq-true _ _ h).1 in
      from_cursor_bound ub r (bytes_lt-non_empty r.key ub lt) ∙ ap not lt

  none_past :
      (rows : List ObjectMeta) (ub : Bytes)
      → prefix_upper_bound p ≡ some ub
      → non_empty p ≡ true
      → keep (from_cursor (record { lower = ub; inclusive = true })) (keep (in_range b p) rows) ≡ []
  none_past [] ub e n = refl
  none_past (r ∷ rows) ub e n = elim (Bool-cases (in_range b p r)) [
    | inl h ↦ rw (h, past_prefix r ub e n h) (none_past rows ub e n)
    | inr h ↦ rw h (none_past rows ub e n)
  ]

  no_batch :
      (ub : Bytes) (limit : ℕ)
      → prefix_upper_bound p ≡ some ub
      → non_empty p ≡ true
      → list_batch t b p (record { lower = ub; inclusive = true }) limit ≡ []
  unfolding list_batch selected
  no_batch ub limit e n = rw (none_past (order_by_key t.rows) ub e n, take_nil limit)

  list_loop_none :
      (c : Cursor) (fuel : ℕ)
      → list_batch t b p c batch_size ≡ []
      → list_loop t b p delimiter max_keys batch_size fuel c no_progress ≡ no_progress
  unfolding list_loop
  list_loop_none c zero h = refl
  list_loop_none c (suc fuel) h = rw h (ground arith)

  truncated_none :
      (c : Cursor) → list_batch t b p c 1 ≡ [] → truncated t b p max_keys c no_progress ≡ false
  unfolding truncated
  truncated_none c h = rw h (ground arith)

  -- Whatever the table and the page limit, a listing under a prefix that ends in the delimiter,
  -- neither of them empty, is empty and not truncated when its marker is that prefix.
  pub list_objects_meta-at_prefix :
      non_empty delimiter ≡ true
      → non_empty p ≡ true
      → has_suffix p delimiter ≡ true
      → list_objects_meta t b p p delimiter max_keys ≡ page [] false
  unfolding list_objects_meta
  list_objects_meta-at_prefix d n s =
      ap (list_from t b p delimiter max_keys) (start_cursor-prefix d n s)
      ∙ elim (Option-cases (prefix_upper_bound p)) [
        | inl e ↦ rw e refl
        | inr (ub, e) ↦
            rw
              (
                e,
                list_loop_none (record { lower = ub; inclusive = true }) max_keys
                    (no_batch ub batch_size e n),
                truncated_none (record { lower = ub; inclusive = true }) (no_batch ub 1 e n),
              )
              refl
      ]
