-- ===== src/Db/Objects/Lookup.antt =====
-- What the lookups find after a write.
use mathlib.Core.Option
use cloodsy_s.Prelude.{
  ℕ, ◌≡◌, refl, true, false, ◌&&◌, Option, none, some, arith, Bytes, bytes_eq, bytes_eq_iff,
  bytes_eq_refl, if◌then◌else◌, Option-cases, Bool-cases, inl, inr, ap,
}
use cloodsy_s.Db.Query.{last_match}
use cloodsy_s.Db.Query.Laws.{last_match_ext, last_match_sound}
use cloodsy_s.Db.Objects.{
  ObjectMeta, Table, of_key, of_version, is_current, put_object_meta_versioned, get_object_meta,
  get_object_meta_by_version, null_version,
}
use cloodsy_s.Db.Objects.Put.{
  cleared, rewritten, inserted, replaced, last_match-put_found, last_match-put_absent,
}
use cloodsy_s.Db.Objects.WellFormed.{of_key_trans, of_key_self, of_key→eq, of_version→eq}
use cloodsy_s.Db.Objects.Counts.{
  of_version-cleared, of_version-rewritten, is_current-rewritten, is_current-rewritten_other,
  is_current-cleared_other,
}

-- The id under which a row is stored: that of the row it replaces, or the next one.
abbrev pub id_of_put : Option ObjectMeta → Table → ℕ
id_of_put (some r) t = r.id
id_of_put none t = t.next_id

-- The row as it is stored.
abbrev pub stored : ObjectMeta → Table → ObjectMeta
stored m t = record m { id = id_of_put (replaced m t) t }

module _ (m r : ObjectMeta) where
  rewritten-own :
      of_version m.bucket_id m.key m.version_id r ≡ true → rewritten m r ≡ record m { id = r.id }
  unfolding of_version
  rewritten-own h =
      let (eb, ek, ev) = of_version→eq m.bucket_id m.key m.version_id r h in
      ground (arith, bytes_eq_refl m.version_id)

  rewritten-other : of_key m.bucket_id m.key r ≡ false → rewritten m r ≡ r
  unfolding of_version
  rewritten-other h = ground arith

  cleared-other : of_key m.bucket_id m.key r ≡ false → cleared m r ≡ r
  cleared-other h = ground arith

map-fixed {ℓ} :
    {A : Type ℓ} (f : A → A) (o : Option A) → ((r : A) → o ≡ some r → f r ≡ r) → Option.map f o ≡ o
map-fixed f none h = refl
map-fixed f (some r) h = ap some (h r refl)

module _ (m : ObjectMeta) (t : Table) where
  other_key :
      (b : ℕ) (k : Bytes) (r : ObjectMeta)
      → of_key b k m ≡ false
      → is_current b k r ≡ true
      → of_key m.bucket_id m.key r ≡ false
  unfolding is_current
  other_key b k r h g = ground (arith, of_key_trans b k m r)

  is_current-inserted :
      (b : ℕ) (k : Bytes) → is_current b k (inserted m t) ≡ (of_key b k m && m.is_latest)
  unfolding is_current
  is_current-inserted b k = refl

  of_version-inserted : (b : ℕ) (k v : Bytes) → of_version b k v (inserted m t) ≡ of_version b k v m
  unfolding of_version
  of_version-inserted b k v = refl

  get-put_own :
      m.is_latest ≡ true
      → last_match (is_current m.bucket_id m.key) (put_object_meta_versioned m t).rows
        ≡ some (stored m t)
  get-put_own latest = elim (Option-cases (replaced m t)) [
    | inr (r, e) ↦
        rw
          (
            last_match-put_found m t _ r e,
            last_match_ext _ _ t.rows (λ x. is_current-rewritten m x latest),
            e,
          )
          (ap some (rewritten-own m r (last_match_sound _ t.rows r e)))
    | inl e ↦
        rw (last_match-put_absent m t _ e, e)
          (rw (is_current-inserted m.bucket_id m.key, of_key_self m, latest))
  ]

  get-put_other :
      (b : ℕ) (k : Bytes)
      → of_key b k m ≡ false
      → last_match (is_current b k) (put_object_meta_versioned m t).rows
        ≡ last_match (is_current b k) t.rows
  get-put_other b k other = elim (Option-cases (replaced m t)) [
    | inr (r, e) ↦
        rw
          (
            last_match-put_found m t _ r e,
            last_match_ext _ _ t.rows (λ x. is_current-rewritten_other m b k x other),
          )
          (map-fixed (rewritten m) _
            λ x ex. rewritten-other m x (other_key b k x other (last_match_sound _ t.rows x ex)))
    | inl e ↦
        rw
          (
            last_match-put_absent m t _ e,
            is_current-inserted b k,
            other,
            last_match_ext _ _ t.rows (λ x. is_current-cleared_other m b k x other),
          )
          (map-fixed (cleared m) _
            λ x ex. cleared-other m x (other_key b k x other (last_match_sound _ t.rows x ex)))
  ]

-- After a write the key's current object is the written row, under the id of the row it replaced
-- or the next id; the current object of every other key is what it was.
pub get-put :
    (m : ObjectMeta) (t : Table) (b : ℕ) (k : Bytes)
    → m.is_latest ≡ true
    → get_object_meta (put_object_meta_versioned m t) b k
      ≡ (if of_key b k m then some (stored m t) else get_object_meta t b k)
unfolding get_object_meta
get-put m t b k latest = elim (Bool-cases (of_key b k m)) [
  | inl own ↦
      let (eb, ek) = of_key→eq b k m own in rw own (rw (← eb, ← ek) (get-put_own m t latest))
  | inr other ↦ rw other (get-put_other m t b k other)
]

module _ (m r : ObjectMeta) where
  rewritten-cleared :
      of_version m.bucket_id m.key m.version_id r ≡ false → rewritten m r ≡ cleared m r
  rewritten-cleared h = rw (of_version-cleared m m.bucket_id m.key r m.version_id, h)

map_eq {ℓ} :
    {A : Type ℓ} (f g : A → A) (o : Option A)
    → ((r : A) → o ≡ some r → f r ≡ g r)
    → Option.map f o ≡ Option.map g o
map_eq f g none h = refl
map_eq f g (some r) h = ap some (h r refl)

module _ (m : ObjectMeta) (t : Table) (b : ℕ) (k v : Bytes) where
  -- Rows of another version are not the written version's.
  other_row :
      (r : ObjectMeta)
      → of_version b k v m ≡ false
      → of_version b k v r ≡ true
      → of_version m.bucket_id m.key m.version_id r ≡ false
  unfolding of_version of_key
  other_row r h g = ground (
    arith,
    bytes_eq_iff r.key k,
    bytes_eq_iff r.key m.key,
    bytes_eq_iff m.key k,
    bytes_eq_iff r.version_id v,
    bytes_eq_iff r.version_id m.version_id,
    bytes_eq_iff m.version_id v,
  )

  version-put_found :
      (r : ObjectMeta)
      → replaced m t ≡ some r
      → last_match (of_version b k v) (put_object_meta_versioned m t).rows ≡ (
          if of_version b k v m
          then some (stored m t)
          else Option.map (cleared m) (last_match (of_version b k v) t.rows))
  version-put_found r e =
      rw
        (
          last_match-put_found m t (of_version b k v) r e,
          last_match_ext _ _ t.rows (λ x. of_version-rewritten m b k x v),
        )
        (elim (Bool-cases (of_version b k v m)) [
          | inl own ↦
              let (eb, ek, ev) = of_version→eq b k v m own in
              rw (own, ← eb, ← ek, ← ev, e)
                (ap some (rewritten-own m r (last_match_sound _ t.rows r e)))
          | inr other ↦ rw other (
              map_eq _ _ _
                λ x ex. rewritten-cleared m x (other_row x other (last_match_sound _ t.rows x ex)))
        ])

  version-put_absent :
      replaced m t ≡ none
      → last_match (of_version b k v) (put_object_meta_versioned m t).rows ≡ (
          if of_version b k v m
          then some (stored m t)
          else Option.map (cleared m) (last_match (of_version b k v) t.rows))
  version-put_absent e = rw (
    last_match-put_absent m t (of_version b k v) e,
    of_version-inserted m t b k v,
    e,
    last_match_ext _ _ t.rows (λ x. of_version-cleared m b k x v),
  )

  -- After a write, a lookup of a version id other than "null" finds the written row where it asks
  -- for the written version; any other version is found as before, with its latest mark taken off
  -- where it is a version of the written key.
  pub get_by_version-put :
      bytes_eq v null_version ≡ false
      → get_object_meta_by_version (put_object_meta_versioned m t) b k v ≡ (
          if of_version b k v m
          then some (stored m t)
          else Option.map (cleared m) (get_object_meta_by_version t b k v))
  unfolding get_object_meta_by_version
  get_by_version-put h = rw h (elim (Option-cases (replaced m t)) [
    | inr (r, e) ↦ version-put_found r e
    | inl e ↦ version-put_absent e
  ])
