-- ===== src/Db/Objects/Put.antt =====
-- What `PutObjectMetaVersioned` does to the rows.
use mathlib.Core.Option
use cloodsy_s.Prelude.{◌+◌, ◌≡◌, refl, Bool, Option, none, some, arith, if◌then◌else◌, ◌∙◌, ap}
use cloodsy_s.Db.Query.{count, last_match, update_where}
use cloodsy_s.Db.Query.Laws.{
  last_match_ext, count-append, count-update_where, last_match-update_where, last_match-append_one,
}
use cloodsy_s.Db.Objects.{
  ObjectMeta, Table, of_version, other_version, clear_latest, overwrite, put_object_meta_versioned,
}

-- A row after the first statement, and after both where the version exists.
abbrev pub cleared : ObjectMeta → ObjectMeta → ObjectMeta
cleared m r = if other_version m r then clear_latest r else r

abbrev pub rewritten : ObjectMeta → ObjectMeta → ObjectMeta
rewritten m r =
    if of_version m.bucket_id m.key m.version_id (cleared m r)
    then overwrite m (cleared m r)
    else cleared m r

-- The row that an insertion adds.
abbrev pub inserted : ObjectMeta → Table → ObjectMeta
inserted m t = record m { id = t.next_id }

module _ (m : ObjectMeta) (t : Table) where
  -- The row that the upsert replaces.
  abbrev pub replaced : Option ObjectMeta
  replaced = last_match (of_version m.bucket_id m.key m.version_id) t.rows

  of_version-cleared :
      (r : ObjectMeta)
      → of_version m.bucket_id m.key m.version_id (cleared m r)
        ≡ of_version m.bucket_id m.key m.version_id r
  unfolding of_version
  of_version-cleared r = ground arith

  replaced-cleared :
      last_match
        (of_version m.bucket_id m.key m.version_id)
        (update_where (other_version m) clear_latest t.rows)
      ≡ Option.map (cleared m) replaced
  replaced-cleared =
      last_match-update_where _ (other_version m) clear_latest t.rows
      ∙ ap (Option.map (cleared m)) (last_match_ext _ _ t.rows of_version-cleared)

  pub found-cleared :
      (r : ObjectMeta)
      → replaced ≡ some r
      → last_match
          (of_version m.bucket_id m.key m.version_id)
          (update_where (other_version m) clear_latest t.rows)
        ≡ some (cleared m r)
  found-cleared r e = replaced-cleared ∙ ap (Option.map (cleared m)) e

  pub absent-cleared :
      replaced ≡ none
      → last_match
          (of_version m.bucket_id m.key m.version_id)
          (update_where (other_version m) clear_latest t.rows)
        ≡ none
  absent-cleared e = replaced-cleared ∙ ap (Option.map (cleared m)) e

  pub count-put_found :
      (p : ObjectMeta → Bool) (r : ObjectMeta)
      → replaced ≡ some r
      → count p (put_object_meta_versioned m t).rows ≡ count (λ x. p (rewritten m x)) t.rows
  unfolding put_object_meta_versioned
  count-put_found p r e = rw (found-cleared r e, count-update_where, count-update_where)

  pub count-put_absent :
      (p : ObjectMeta → Bool)
      → replaced ≡ none
      → count p (put_object_meta_versioned m t).rows
        ≡ count (λ x. p (cleared m x)) t.rows + (if p (inserted m t) then 1 else 0)
  unfolding put_object_meta_versioned
  count-put_absent p e =
      rw (absent-cleared e, count-append, count-update_where)
        (ap (λ n. count (λ x. p (cleared m x)) t.rows + n) (unfold count in refl))

  pub last_match-put_found :
      (p : ObjectMeta → Bool) (r : ObjectMeta)
      → replaced ≡ some r
      → last_match p (put_object_meta_versioned m t).rows
        ≡ Option.map (rewritten m) (last_match (λ x. p (rewritten m x)) t.rows)
  unfolding put_object_meta_versioned
  last_match-put_found p r e =
      rw (found-cleared r e, last_match-update_where, last_match-update_where, Option.map-map)

  pub last_match-put_absent :
      (p : ObjectMeta → Bool)
      → replaced ≡ none
      → last_match p (put_object_meta_versioned m t).rows ≡ (
          if p (inserted m t)
          then some (inserted m t)
          else Option.map (cleared m) (last_match (λ x. p (cleared m x)) t.rows))
  unfolding put_object_meta_versioned
  last_match-put_absent p e = rw (absent-cleared e, last_match-append_one, last_match-update_where)

  pub next_id-put_found :
      (r : ObjectMeta) → replaced ≡ some r → (put_object_meta_versioned m t).next_id ≡ t.next_id
  unfolding put_object_meta_versioned
  next_id-put_found r e = rw (found-cleared r e)

  pub next_id-put_absent : replaced ≡ none → (put_object_meta_versioned m t).next_id ≡ t.next_id + 1
  unfolding put_object_meta_versioned
  next_id-put_absent e = rw (absent-cleared e)
