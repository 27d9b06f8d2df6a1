-- ===== src/Service/Objects/Deletes.antt =====
-- What a deletion leaves of the metadata.
use mathlib.Core.Option
use cloodsy_s.Prelude.{
  ℕ, ◌≤◌, ◌≡◌, refl, ◌∙◌, Bool, true, false, ◌&&◌, Option, none, some, List, [], ◌∷◌, arith, Bytes,
  bytes_eq, codes, if◌then◌else◌, ◌⊎◌, ◌||◌, ◌==◌, ==_iff, &&-eq-true, bytes_eq_iff, Bool-cases,
  inl, inr, min,
}
use cloodsy_s.Db.Query.{count, delete_where}
use cloodsy_s.Db.Query.Laws.{count_ext, count_mono, count-delete_where, last_match-count_zero}
use cloodsy_s.Db.Objects.{
  ObjectMeta, Table, of_key, of_version, is_current, has_id, put_object_meta_versioned,
  delete_object_meta, get_object_meta,
}
use cloodsy_s.Db.Objects.WellFormed.{IsWellFormed, of_key_self}
use cloodsy_s.Db.Objects.Latest.{put-IsWellFormed}
use cloodsy_s.Db.Objects.Lookup.{get-put, stored}
use cloodsy_s.Db.Objects.Deletion.{delete_version_and_promote-IsWellFormed, same_keys, current→key}
use cloodsy_s.Service.Objects.{
  Bucket, enabled, suspended, delete_marker, after_version, delete_version, delete_enabled,
  delete_suspended, delete_all_versions, delete,
}

count_nothing :
    (p : ObjectMeta → Bool) (rows : List ObjectMeta)
    → ((r : ObjectMeta) → p r ≡ false)
    → count p rows ≡ 0
unfolding count
count_nothing p [] h = refl
count_nothing p (r ∷ rows) h = ground (arith, h r, count_nothing p rows h)

key_of_other :
    (b b' : ℕ) (k k' : Bytes) (r : ObjectMeta)
    → ((b' ≡ b) × (k' ≡ k) → ⊥)
    → of_key b' k' r ≡ true
    → of_key b k r ≡ false
key_of_other b b' k k' r n h = elim (Bool-cases (of_key b k r)) [
  | inr e ↦ e
  | inl e ↦ absurd (n (same_keys b b' k k' r e h))
]

module _ (t : Table) (b : ℕ) (k : Bytes) where
  abbrev cleared_rows : List ObjectMeta
  cleared_rows = delete_where (of_key b k) t.rows

  at_most-cleared : (p : ObjectMeta → Bool) → count p cleared_rows ≤ count p t.rows
  at_most-cleared p =
      rw (count-delete_where p (of_key b k) t.rows) (count_mono _ p t.rows (λ r h. ground arith))

  gone-cleared :
      (p : ObjectMeta → Bool)
      → ((r : ObjectMeta) → p r ≡ true → of_key b k r ≡ true)
      → count p cleared_rows ≡ 0
  gone-cleared p h =
      count-delete_where p (of_key b k) t.rows
      ∙ count_nothing _ t.rows (λ r. let g = h r in ground arith)

  kept-cleared :
      (p : ObjectMeta → Bool)
      → ((r : ObjectMeta) → p r ≡ true → of_key b k r ≡ false)
      → count p cleared_rows ≡ count p t.rows
  kept-cleared p h =
      count-delete_where p (of_key b k) t.rows
      ∙ count_ext _ p t.rows (λ r. let g = h r in ground arith)

  -- Whether rows of one key are of the other is settled by the keys.
  decide_keys : (b' : ℕ) (k' : Bytes) → ((b' ≡ b) × (k' ≡ k)) ⊎ ((b' ≡ b) × (k' ≡ k) → ⊥)
  decide_keys b' k' = elim (Bool-cases ((b' == b) && bytes_eq k' k)) [
    | inl e ↦ inl ((==_iff b' b).0 (&&-eq-true _ _ e).0, (bytes_eq_iff k' k).0 (&&-eq-true _ _ e).1)
    | inr e ↦
        inr (λ (p, q). let h = (==_iff b' b).1 p in let g = (bytes_eq_iff k' k).1 q in ground arith)
  ]

  one_latest-cleared :
      IsWellFormed t
      → (b' : ℕ) (k' : Bytes)
      → count (is_current b' k') cleared_rows ≡ min 1 (count (of_key b' k') cleared_rows)
  one_latest-cleared w b' k' = elim (decide_keys b' k') [
    | inl (p, q) ↦
        rw (p, q)
          (rw
            (gone-cleared (is_current b k) (current→key b k), gone-cleared (of_key b k) (λ r h. h))
            refl)
    | inr n ↦
        rw
          (
            kept-cleared (of_key b' k') (λ r h. key_of_other b b' k k' r n h),
            kept-cleared (is_current b' k')
                (λ r h. key_of_other b b' k k' r n (current→key b' k' r h)),
          )
          (w.one_latest b' k')
  ]

  delete_object_meta-IsWellFormed : IsWellFormed t → IsWellFormed (delete_object_meta b k t)
  unfolding delete_object_meta
  delete_object_meta-IsWellFormed w = record {
    unique_versions =
        λ b' k' v. omega (arith, w.unique_versions b' k' v, at_most-cleared (of_version b' k' v));
    one_latest = one_latest-cleared w;
    unique_ids = λ i. omega (arith, w.unique_ids i, at_most-cleared (has_id i));
    fresh_ids = λ i g. omega (arith, w.fresh_ids i g, at_most-cleared (has_id i));
  }

  get-delete_object_meta : get_object_meta (delete_object_meta b k t) b k ≡ none
  unfolding delete_object_meta get_object_meta
  get-delete_object_meta =
      last_match-count_zero (is_current b k) cleared_rows
        (gone-cleared (is_current b k) (current→key b k))

module _ (b : Bucket) (key version_id : Bytes) (now : ℕ) (marker_id : Bytes) (t : Table) where
  pub after_version-table :
      (d : Option ObjectMeta) (t' : Table) → (after_version b key version_id d t').table ≡ t'
  after_version-table none t' = refl
  after_version-table (some m) t' = refl

  delete_version-IsWellFormed :
      IsWellFormed t → IsWellFormed (delete_version b key version_id t).table
  unfolding delete_version
  delete_version-IsWellFormed w =
      rw (after_version-table _ _) (delete_version_and_promote-IsWellFormed t b.id key version_id w)

  delete_suspended-IsWellFormed : IsWellFormed t → IsWellFormed (delete_suspended b key now t).table
  unfolding delete_suspended
  delete_suspended-IsWellFormed w =
      put-IsWellFormed _ _
        (delete_version_and_promote-IsWellFormed _ b.id key []
          (delete_version_and_promote-IsWellFormed t b.id key (codes "null") w))
        refl

  -- From a well-formed table, a deletion in any versioning mode, with or without a version id, leaves
  -- a well-formed table.
  pub delete-IsWellFormed :
      IsWellFormed t → IsWellFormed (delete b key version_id now marker_id t).table
  unfolding delete delete_enabled delete_all_versions
  delete-IsWellFormed w = elim (Bool-cases (bytes_eq version_id [])) [
    | inr v ↦ rw v (delete_version-IsWellFormed w)
    | inl v ↦ rw v (elim (Bool-cases (bytes_eq b.versioning enabled)) [
      | inl e ↦ rw e (put-IsWellFormed (delete_marker b key now marker_id) t w refl)
      | inr e ↦ rw e (elim (Bool-cases (bytes_eq b.versioning suspended)) [
        | inl s ↦ rw s (delete_suspended-IsWellFormed w)
        | inr s ↦ rw s (delete_object_meta-IsWellFormed t b.id key w)
      ])
    ])
  ]

  marker-current :
      (v : Bytes) (t' : Table)
      → get_object_meta (put_object_meta_versioned (delete_marker b key now v) t') b.id key
        ≡ some (stored (delete_marker b key now v) t')
  marker-current v t' =
      get-put (delete_marker b key now v) t' b.id key refl
      ∙ rw (of_key_self (delete_marker b key now v)) refl

  -- After a deletion without a version id the key has no object: its current row is a delete marker
  -- in a bucket whose versioning is enabled or suspended, and no row at all otherwise.
  pub get-delete :
      bytes_eq version_id [] ≡ true
      → Option.map
          (λ (r : ObjectMeta). r.is_delete_marker)
          (get_object_meta (delete b key version_id now marker_id t).table b.id key)
        ≡ (if bytes_eq b.versioning enabled || bytes_eq b.versioning suspended
            then some true
            else none)
  unfolding delete delete_enabled delete_suspended delete_all_versions
  get-delete v = rw v (elim (Bool-cases (bytes_eq b.versioning enabled)) [
    | inl e ↦ rw e (rw (marker-current marker_id t) refl)
    | inr e ↦ rw e (elim (Bool-cases (bytes_eq b.versioning suspended)) [
      | inl s ↦ rw s (rw (marker-current (codes "null") _) refl)
      | inr s ↦ rw s (rw (get-delete_object_meta t b.id key) refl)
    ])
  ])
