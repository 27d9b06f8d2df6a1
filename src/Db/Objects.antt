-- ===== src/Db/Objects.antt =====
-- The `objects` table (db/metadata.go): one row for each version of an object, at most one for a
-- bucket, key and version id. Rows stand in the order of their ids (`AUTOINCREMENT`: never reused).
-- Times are numbers; sizes are those of files, so never negative. The functions are the
-- statements' effect when SQLite runs them; a failed transaction leaves the table as it was.
pub mod WellFormed
pub mod Counts
pub mod Latest
pub mod Lookup
pub mod Put
pub mod Rows
pub mod Deletion
pub mod Usage
use cloodsy_s.Prelude.{
  ℕ, ◌+◌, ◌==◌, Bool, true, false, not, ◌&&◌, ◌||◌, Option, none, some, List, [], ◌∷◌, ◌++◌,
  reverse, keep, Bytes, bytes_eq, codes, if◌then◌else◌,
}
use cloodsy_s.Db.Query.{count, last_match, update_where, delete_where}

pub record ObjectMeta : Type 0 where
  pub id : ℕ
  pub bucket_id : ℕ
  pub key : Bytes
  pub size : ℕ
  pub etag : Bytes
  pub content_type : Bytes
  pub last_modified : ℕ
  pub metadata : Bytes
  pub version_id : Bytes
  pub is_latest : Bool
  pub is_delete_marker : Bool

pub record Table : Type 0 where
  pub next_id : ℕ
  pub rows : List ObjectMeta

abbrev pub null_version : Bytes
null_version = codes "null"

-- `bucket_id = ? AND key = ?`
unfoldable pub of_key : ℕ → Bytes → ObjectMeta → Bool
of_key b k r = r.bucket_id == b && bytes_eq r.key k

-- `… AND version_id = ?`
unfoldable pub of_version : ℕ → Bytes → Bytes → ObjectMeta → Bool
unfolding of_key
of_version b k v r = of_key b k r && bytes_eq r.version_id v

-- `… AND is_latest = 1`
unfoldable pub is_current : ℕ → Bytes → ObjectMeta → Bool
unfolding of_key
is_current b k r = of_key b k r && r.is_latest

-- `… AND version_id IN ('null', '')`
unfoldable pub is_null_version : ℕ → Bytes → ObjectMeta → Bool
unfolding of_key
is_null_version b k r =
    of_key b k r && (bytes_eq r.version_id null_version || bytes_eq r.version_id [])

-- The condition of `UPDATE objects SET is_latest = 0` in `PutObjectMetaVersioned`.
abbrev pub other_version : ObjectMeta → ObjectMeta → Bool
other_version m r = of_key m.bucket_id m.key r && not (bytes_eq r.version_id m.version_id)

abbrev pub clear_latest : ObjectMeta → ObjectMeta
clear_latest r = record r { is_latest = false }

-- `DO UPDATE SET` of `upsertObjectSQL`
abbrev pub overwrite : ObjectMeta → ObjectMeta → ObjectMeta
overwrite m r = record r {
  size = m.size;
  etag = m.etag;
  content_type = m.content_type;
  last_modified = m.last_modified;
  metadata = m.metadata;
  is_latest = m.is_latest;
  is_delete_marker = m.is_delete_marker;
}

abbrev pub upsert_at : Option ObjectMeta → ObjectMeta → Table → Table
upsert_at (some _) m t = record t {
  rows = update_where (of_version m.bucket_id m.key m.version_id) (overwrite m) t.rows;
}
upsert_at none m t = record {
  next_id = t.next_id + 1;
  rows = t.rows ++ record m { id = t.next_id } ∷ [];
}

-- `upsertObjectSQL`
abbrev pub upsert : ObjectMeta → Table → Table
upsert m t = upsert_at (last_match (of_version m.bucket_id m.key m.version_id) t.rows) m t

unfoldable pub put_object_meta_versioned : ObjectMeta → Table → Table
put_object_meta_versioned m t =
    upsert m (record t { rows = update_where (other_version m) clear_latest t.rows })

-- `PutObjectMeta`
unfoldable pub put_object_meta : ObjectMeta → Table → Table
put_object_meta m t = put_object_meta_versioned m t

unfoldable pub get_object_meta : Table → ℕ → Bytes → Option ObjectMeta
get_object_meta t b k = last_match (is_current b k) t.rows

-- The condition of the lookup by version: the id "null" also finds rows with an empty version id.
abbrev pub version_query : ℕ → Bytes → Bytes → ObjectMeta → Bool
version_query b k v = if bytes_eq v null_version then is_null_version b k else of_version b k v

unfoldable pub get_object_meta_by_version : Table → ℕ → Bytes → Bytes → Option ObjectMeta
get_object_meta_by_version t b k v = last_match (version_query b k v) t.rows

unfoldable pub list_versions_for_key : Table → ℕ → Bytes → List ObjectMeta
list_versions_for_key t b k = reverse (keep (of_key b k) t.rows)

unfoldable pub mark_previous_versions_not_latest : ℕ → Bytes → Table → Table
mark_previous_versions_not_latest b k t = record t {
  rows = update_where (of_key b k) clear_latest t.rows;
}

unfoldable pub delete_object_meta_by_version : ℕ → Bytes → Bytes → Table → Table
delete_object_meta_by_version b k v t = record t { rows = delete_where (of_version b k v) t.rows }

unfoldable pub delete_object_meta : ℕ → Bytes → Table → Table
delete_object_meta b k t = record t { rows = delete_where (of_key b k) t.rows }

-- `WHERE id = ?`
abbrev pub has_id : ℕ → ObjectMeta → Bool
has_id i r = r.id == i

abbrev pub set_latest : ObjectMeta → ObjectMeta
set_latest r = record r { is_latest = true }

pub record Promotion : Type 0 where
  pub deleted : Option ObjectMeta
  pub promoted : Option ObjectMeta
  pub table : Table

-- What follows the deletion of a row that was the latest.
abbrev pub promote_newest : Option ObjectMeta → ObjectMeta → Table → Promotion
promote_newest none m t = record { deleted = some m; promoted = none; table = t }
promote_newest (some p) m t = record {
  deleted = some m;
  promoted = some (set_latest p);
  table = record t { rows = update_where (has_id p.id) set_latest t.rows };
}

abbrev pub delete_found : Option ObjectMeta → ℕ → Bytes → Table → Promotion
delete_found none b k t = record { deleted = none; promoted = none; table = t }
delete_found (some m) b k t =
    let left : Table = record t { rows = delete_where (has_id m.id) t.rows } in
    if m.is_latest
    then promote_newest (last_match (of_key b k) left.rows) m left
    else (record { deleted = some m; promoted = none; table = left })

unfoldable pub delete_version_and_promote : ℕ → Bytes → Bytes → Table → Promotion
delete_version_and_promote b k v t = delete_found (last_match (version_query b k v) t.rows) b k t

-- `CountObjects`: the current objects of a bucket.
unfoldable pub is_object : ℕ → ObjectMeta → Bool
is_object b r = r.bucket_id == b && (r.is_latest && not r.is_delete_marker)

unfoldable pub count_objects : Table → ℕ → ℕ
count_objects t b = count (is_object b) t.rows

-- `GetBucketUsage` of db/bucket.go: the sum of the sizes of the current objects.
unfoldable pub sum_sizes : ℕ → List ObjectMeta → ℕ
unfolding is_object
sum_sizes b [] = 0
sum_sizes b (r ∷ rows) = (if is_object b r then r.size else 0) + sum_sizes b rows

unfoldable pub get_bucket_usage : Table → ℕ → ℕ
get_bucket_usage t b = sum_sizes b t.rows

-- `BucketHasObjects`, `BucketHasAnyRows`: `SELECT 1 … LIMIT 1` finds a row.
unfoldable pub bucket_has_objects : Table → ℕ → Bool
bucket_has_objects t b = elim (last_match (is_object b) t.rows) [ none ↦ false | some _ ↦ true ]

unfoldable pub bucket_has_any_rows : Table → ℕ → Bool
bucket_has_any_rows t b = elim (last_match (λ (r : ObjectMeta). r.bucket_id == b) t.rows) [
  | none ↦ false
  | some _ ↦ true
]
