-- ===== src/Db/Versions.antt =====
-- `ListObjectVersions` of db/metadata.go: all rows of a bucket, by key and from the newest to the
-- oldest, behind a marker.
pub mod Ordering
pub mod Resume
use mathlib.Core.Option
use cloodsy_s.Prelude.{
  ℕ, ◌+◌, ◌==◌, ltb, Bool, true, not, ◌&&◌, ◌||◌, Option, none, some, List, [], ◌∷◌, keep, take,
  length, Bytes, bytes_eq, bytes_lt, codes, non_empty, if◌then◌else◌,
}
use cloodsy_s.Db.Query.{last_match}
use cloodsy_s.Db.Prefix.{in_prefix_range}
use cloodsy_s.Db.Objects.{ObjectMeta, Table, of_key}

-- `ORDER BY key, id DESC`
unfoldable pub precedes : ObjectMeta → ObjectMeta → Bool
precedes x r = bytes_lt x.key r.key || (bytes_eq r.key x.key && ltb r.id x.id)

unfoldable pub insert_version : ObjectMeta → List ObjectMeta → List ObjectMeta
insert_version r [] = r ∷ []
insert_version r (x ∷ xs) = if precedes x r then x ∷ insert_version r xs else r ∷ x ∷ xs

unfoldable pub order_versions : List ObjectMeta → List ObjectMeta
unfolding insert_version
order_versions [] = []
order_versions (r ∷ rows) = insert_version r (order_versions rows)

-- The version id that a marker names in the table.
abbrev pub stored_version : Bytes → Bytes
stored_version v = if bytes_eq v (codes "null") then [] else v

-- `key = ? AND version_id IN (?, 'null')`
unfoldable pub is_marker_row : ℕ → Bytes → Bytes → ObjectMeta → Bool
is_marker_row b key_marker version_marker r =
    of_key b key_marker r
    && (bytes_eq r.version_id (stored_version version_marker)
        || bytes_eq r.version_id (codes "null"))

abbrev pub id_or_zero : Option ObjectMeta → ℕ
id_or_zero none = 0
id_or_zero (some r) = r.id

-- `COALESCE((SELECT id … ORDER BY id DESC LIMIT 1), 0)`
unfoldable pub marker_id : Table → ℕ → Bytes → Bytes → ℕ
marker_id t b key_marker version_marker =
    id_or_zero (last_match (is_marker_row b key_marker version_marker) t.rows)

-- The condition behind the markers.
unfoldable pub after_marker : Table → ℕ → Bytes → Bytes → ObjectMeta → Bool
after_marker t b key_marker version_marker r =
    if non_empty key_marker
    then (if non_empty version_marker
        then bytes_lt key_marker r.key
          || (bytes_eq r.key key_marker && ltb r.id (marker_id t b key_marker version_marker))
        else bytes_lt key_marker r.key)
    else true

abbrev pub in_bucket_range : ℕ → Bytes → ObjectMeta → Bool
in_bucket_range b prefix r = r.bucket_id == b && in_prefix_range prefix r.key

unfoldable pub matching_versions : Table → ℕ → Bytes → Bytes → Bytes → List ObjectMeta
matching_versions t b prefix key_marker version_marker =
    keep (λ r. in_bucket_range b prefix r && after_marker t b key_marker version_marker r)
      (order_versions t.rows)

-- The first rows, and whether there are more.
unfoldable pub list_object_versions : Table → ℕ → Bytes → Bytes → Bytes → ℕ → List ObjectMeta × Bool
list_object_versions t b prefix key_marker version_marker max_keys =
    let rows : List ObjectMeta = matching_versions t b prefix key_marker version_marker in
    (take max_keys rows, ltb max_keys (length (take (max_keys + 1) rows)))
