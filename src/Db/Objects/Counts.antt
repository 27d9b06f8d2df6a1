-- ===== src/Db/Objects/Counts.antt =====
-- How a write changes the number of rows of a version, of a key, and of latest rows.
use cloodsy_s.Prelude.{
  ℕ, ◌+◌, ◌≡◌, refl, true, false, none, some, arith, Bytes, if◌then◌else◌, Option-cases, Bool-cases,
  inl, inr, ◌∙◌,
}
use cloodsy_s.Db.Query.{count}
use cloodsy_s.Db.Query.Laws.{count_ext, count_mono, count-last_match-none, count-last_match-some}
use cloodsy_s.Db.Objects.{
  ObjectMeta, Table, of_key, of_version, is_current, has_id, put_object_meta_versioned,
}
use cloodsy_s.Db.Objects.Put.{
  cleared, rewritten, inserted, replaced, count-put_found, count-put_absent,
}
use cloodsy_s.Db.Objects.WellFormed.{IsWellFormed, of_key_trans, of_key→eq, of_version→eq}

module _ (m : ObjectMeta) (b : ℕ) (k : Bytes) (r : ObjectMeta) where
  of_key-rewritten : of_key b k (rewritten m r) ≡ of_key b k r
  unfolding of_key
  of_key-rewritten = ground arith

  of_key-cleared : of_key b k (cleared m r) ≡ of_key b k r
  unfolding of_key
  of_key-cleared = ground arith

  pub of_version-rewritten : (v : Bytes) → of_version b k v (rewritten m r) ≡ of_version b k v r
  unfolding of_version of_key
  of_version-rewritten v = ground arith

  pub of_version-cleared : (v : Bytes) → of_version b k v (cleared m r) ≡ of_version b k v r
  unfolding of_version of_key
  of_version-cleared v = ground arith

  pub is_current-rewritten_other :
      of_key b k m ≡ false → is_current b k (rewritten m r) ≡ is_current b k r
  unfolding is_current of_version
  is_current-rewritten_other h = ground (arith, of_key_trans b k m r)

  pub is_current-cleared_other :
      of_key b k m ≡ false → is_current b k (cleared m r) ≡ is_current b k r
  unfolding is_current
  is_current-cleared_other h = ground (arith, of_key_trans b k m r)

module _ (m r : ObjectMeta) where
  pub is_current-rewritten :
      m.is_latest ≡ true
      → is_current m.bucket_id m.key (rewritten m r) ≡ of_version m.bucket_id m.key m.version_id r
  unfolding is_current of_version
  is_current-rewritten h = ground arith

  pub is_current-cleared :
      is_current m.bucket_id m.key (cleared m r) ≡ true
      → of_version m.bucket_id m.key m.version_id r ≡ true
  unfolding is_current of_version
  is_current-cleared h = ground arith

  pub has_id-rewritten : (i : ℕ) → has_id i (rewritten m r) ≡ has_id i r
  has_id-rewritten i = ground arith

  pub has_id-cleared : (i : ℕ) → has_id i (cleared m r) ≡ has_id i r
  has_id-cleared i = ground arith

module _ (m : ObjectMeta) (t : Table) (w : IsWellFormed t) where
  count_own_found :
      (r : ObjectMeta)
      → replaced m t ≡ some r
      → count (of_version m.bucket_id m.key m.version_id) t.rows ≡ 1
  count_own_found r e =
      omega (
        arith,
        count-last_match-some _ t.rows r e,
        w.unique_versions m.bucket_id m.key m.version_id,
      )

  count_own_absent :
      replaced m t ≡ none → count (of_version m.bucket_id m.key m.version_id) t.rows ≡ 0
  count_own_absent e = count-last_match-none _ t.rows e

  count_own_eq :
      (b : ℕ) (k v : Bytes)
      → of_version b k v m ≡ true
      → count (of_version b k v) t.rows ≡ count (of_version m.bucket_id m.key m.version_id) t.rows
  count_own_eq b k v h = let (eb, ek, ev) = of_version→eq b k v m h in cc

  of_version-inserted : (b : ℕ) (k v : Bytes) → of_version b k v (inserted m t) ≡ of_version b k v m
  unfolding of_version of_key
  of_version-inserted b k v = refl

  of_key-inserted : (b : ℕ) (k : Bytes) → of_key b k (inserted m t) ≡ of_key b k m
  unfolding of_key
  of_key-inserted b k = refl

  -- After a write there is exactly one row of the written version; no other count changes.
  pub count_version-put :
      (b : ℕ) (k v : Bytes)
      → count (of_version b k v) (put_object_meta_versioned m t).rows
        ≡ (if of_version b k v m then 1 else count (of_version b k v) t.rows)
  count_version-put b k v = elim (Option-cases (replaced m t)) [
    | inr (r, e) ↦ rw (count-put_found m t (of_version b k v) r e) (
        rw (count_ext _ _ t.rows (λ x. of_version-rewritten m b k x v))
          (ground (arith, count_own_found r e, count_own_eq b k v)))
    | inl e ↦ rw (count-put_absent m t (of_version b k v) e) (
        rw (count_ext _ _ t.rows (λ x. of_version-cleared m b k x v))
          (ground (arith, of_version-inserted b k v, count_own_absent e, count_own_eq b k v)))
  ]

  -- A write adds a row of the key, if the version is new, and touches no other key's.
  pub count_key-put :
      (b : ℕ) (k : Bytes)
      → count (of_key b k) (put_object_meta_versioned m t).rows
        ≡ count (of_key b k) t.rows
          + elim (replaced m t) [ some _ ↦ 0 | none ↦ if of_key b k m then 1 else 0 ]
  count_key-put b k = elim (Option-cases (replaced m t)) [
    | inr (r, e) ↦
        rw (count-put_found m t (of_key b k) r e, e)
          (rw (count_ext _ _ t.rows (of_key-rewritten m b k)) (omega arith))
    | inl e ↦
        rw (count-put_absent m t (of_key b k) e, e)
          (rw (count_ext _ _ t.rows (of_key-cleared m b k)) (ground (arith, of_key-inserted b k)))
  ]

  module _ (latest : m.is_latest ≡ true) where
    current_own_found :
        (b : ℕ) (k : Bytes) (r : ObjectMeta)
        → replaced m t ≡ some r
        → of_key b k m ≡ true
        → count (λ x. is_current b k (rewritten m x)) t.rows ≡ 1
    current_own_found b k r e h =
        let (eb, ek) = of_key→eq b k m h in
        rw (← eb, ← ek)
          (count_ext _ _ t.rows (λ x. is_current-rewritten m x latest) ∙ count_own_found r e)

    current_own_absent :
        (b : ℕ) (k : Bytes)
        → replaced m t ≡ none
        → of_key b k m ≡ true
        → count (λ x. is_current b k (cleared m x)) t.rows ≡ 0
    current_own_absent b k e h =
        let (eb, ek) = of_key→eq b k m h in
        rw (← eb, ← ek)
          (omega (
            arith,
            count_mono _ (of_version m.bucket_id m.key m.version_id) t.rows
                (λ x. is_current-cleared m x),
            count_own_absent e,
          ))

    is_current-inserted : (b : ℕ) (k : Bytes) → is_current b k (inserted m t) ≡ of_key b k m
    unfolding is_current
    is_current-inserted b k = ground arith

    -- After a write the written key has one latest row; no other key's count changes.
    pub count_current-put :
        (b : ℕ) (k : Bytes)
        → count (is_current b k) (put_object_meta_versioned m t).rows
          ≡ (if of_key b k m then 1 else count (is_current b k) t.rows)
    count_current-put b k = elim (Option-cases (replaced m t)) [
      | inr (r, e) ↦
          rw (count-put_found m t (is_current b k) r e) (elim (Bool-cases (of_key b k m)) [
            | inl own ↦ rw own (current_own_found b k r e own)
            | inr other ↦
                rw other (count_ext _ _ t.rows (λ x. is_current-rewritten_other m b k x other))
          ])
      | inl e ↦ rw (count-put_absent m t (is_current b k) e) (elim (Bool-cases (of_key b k m)) [
        | inl own ↦ rw (own, is_current-inserted b k, own, current_own_absent b k e own) refl
        | inr other ↦
            rw (other, is_current-inserted b k, other)
              (rw (count_ext _ _ t.rows (λ x. is_current-cleared_other m b k x other))
                (omega arith))
      ])
    ]
