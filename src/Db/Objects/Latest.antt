-- ===== src/Db/Objects/Latest.antt =====
-- The invariant of the `objects` table over `PutObjectMetaVersioned`.
use cloodsy_s.Prelude.{ℕ, ◌≤◌, ◌≡◌, true, arith, Bytes, Option-cases, inl, inr, min}
use cloodsy_s.Db.Query.{count}
use cloodsy_s.Db.Query.Laws.{count_ext, count_mono}
use cloodsy_s.Db.Objects.{ObjectMeta, Table, of_key, is_current, has_id, put_object_meta_versioned}
use cloodsy_s.Db.Objects.Put.{
  replaced, count-put_found, count-put_absent, next_id-put_found, next_id-put_absent,
}
use cloodsy_s.Db.Objects.WellFormed.{IsWellFormed}
use cloodsy_s.Db.Objects.Counts.{
  count_version-put, count_key-put, count_current-put, has_id-rewritten, has_id-cleared,
}

module _ (m : ObjectMeta) (t : Table) (w : IsWellFormed t) where
  unique_ids-put : (i : ℕ) → count (has_id i) (put_object_meta_versioned m t).rows ≤ 1
  unique_ids-put i = elim (Option-cases (replaced m t)) [
    | inr (r, e) ↦
        rw (count-put_found m t (has_id i) r e)
          (rw (count_ext _ _ t.rows (λ x. has_id-rewritten m x i)) (w.unique_ids i))
    | inl e ↦ rw (count-put_absent m t (has_id i) e) (
        rw (count_ext _ _ t.rows (λ x. has_id-cleared m x i))
          (ground (arith, w.unique_ids i, w.fresh_ids i)))
  ]

  fresh_ids-put :
      (i : ℕ)
      → (put_object_meta_versioned m t).next_id ≤ i
      → count (has_id i) (put_object_meta_versioned m t).rows ≡ 0
  fresh_ids-put i h = elim (Option-cases (replaced m t)) [
    | inr (r, e) ↦ rw (count-put_found m t (has_id i) r e) (
        rw (count_ext _ _ t.rows (λ x. has_id-rewritten m x i))
          (w.fresh_ids i (rw (next_id-put_found m t r e) at h)))
    | inl e ↦ rw (count-put_absent m t (has_id i) e) (
        rw (count_ext _ _ t.rows (λ x. has_id-cleared m x i))
          (let h' = rw (next_id-put_absent m t e) at h in ground (arith, w.fresh_ids i)))
  ]

  is_current→of_key :
      (b : ℕ) (k : Bytes) (r : ObjectMeta) → is_current b k r ≡ true → of_key b k r ≡ true
  unfolding is_current
  is_current→of_key b k r h = ground arith

  one_latest-put :
      m.is_latest ≡ true
      → (b : ℕ) (k : Bytes)
      → count (is_current b k) (put_object_meta_versioned m t).rows
        ≡ min 1 (count (of_key b k) (put_object_meta_versioned m t).rows)
  one_latest-put latest b k = ground (
    arith,
    count_current-put m t w latest b k,
    count_key-put m t w b k,
    count_mono _ _ (put_object_meta_versioned m t).rows (is_current→of_key b k),
    w.one_latest b k,
  )

  -- From a well-formed table, recording a row that is marked as the latest gives a well-formed
  -- table: ids and versions stay unique, and every key that has rows has exactly one latest row.
  pub put-IsWellFormed : m.is_latest ≡ true → IsWellFormed (put_object_meta_versioned m t)
  put-IsWellFormed latest = record {
    unique_versions =
        λ b k v. rw (count_version-put m t w b k v) (ground (arith, w.unique_versions b k v));
    one_latest = one_latest-put latest;
    unique_ids = unique_ids-put;
    fresh_ids = fresh_ids-put;
  }
