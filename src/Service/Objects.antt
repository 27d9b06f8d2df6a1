-- ===== src/Service/Objects.antt =====
-- The deletions of service/objects.go. Their calls of the file store and of the webhooks are kept as
-- a list in the order in which they are made; the clock and the new version id are arguments. The
-- metadata statements succeed.
pub mod Deletes
use cloodsy_s.Prelude.{
  ℕ, Bool, true, false, not, ◌&&◌, ◌||◌, Option, none, some, List, [], ◌∷◌, ◌++◌, Bytes, bytes_eq,
  codes, if◌then◌else◌,
}
use cloodsy_s.Db.Objects.{
  ObjectMeta, Table, put_object_meta_versioned, delete_version_and_promote, list_versions_for_key,
  delete_object_meta,
}

pub record Bucket : Type 0 where
  pub id : ℕ
  pub name : Bytes
  pub quota_bytes : ℕ
  pub versioning : Bytes
  pub storage_dir : Bytes
  pub public_read : Bool
  pub webdav_enabled : Bool
  pub created_at : ℕ

abbrev pub enabled : Bytes
enabled = codes "Enabled"

abbrev pub suspended : Bytes
suspended = codes "Suspended"

unfoldable pub is_real_version : Bytes → Bool
is_real_version v = not (bytes_eq v []) && not (bytes_eq v (codes "null"))

-- The version id that a write receives, `new_version` being a fresh one.
unfoldable pub version_id_for_put : Bucket → Bytes → Bytes
version_id_for_put b new_version =
    if bytes_eq b.versioning enabled
    then new_version
    else if bytes_eq b.versioning suspended
    then codes "null"
    else []

-- A call of the file store, of the webhook dispatcher (for an event without and with an object) or of the
-- image worker.
pub data Call : Type 0 where
  delete_versioned_object : Bytes → Bytes → Bytes → Call
  delete_object : Bytes → Bytes → Call
  delete_variants_for_key : Bytes → Bytes → Call
  emit : Bytes → Bytes → Bytes → Bytes → Call
  emit_written : Bytes → Bytes → Bytes → ℕ → Bytes → Bytes → Call
  process_image enqueue_image : Bytes → Bytes → Bytes → Bytes → Bytes → Call

unfoldable pub remove_bytes : Bytes → Bytes → Bytes → Call
remove_bytes bucket key version_id =
    if is_real_version version_id
    then delete_versioned_object bucket key version_id
    else delete_object bucket key

pub data DeleteReply : Type 0 where
  no_such_version : DeleteReply
  done : Bool → Bytes → DeleteReply

pub record Deletion : Type 0 where
  pub reply : DeleteReply
  pub table : Table
  pub calls : List Call

abbrev pub delete_marker : Bucket → Bytes → ℕ → Bytes → ObjectMeta
delete_marker b key now version_id = record {
  id = 0;
  bucket_id = b.id;
  key = key;
  size = 0;
  etag = [];
  content_type = [];
  last_modified = now;
  metadata = codes "{}";
  version_id = version_id;
  is_latest = true;
  is_delete_marker = true;
}

-- The side effects at the end of a deletion.
abbrev pub finish_delete : Bucket → Bytes → Bytes → Bytes → List Call
finish_delete b key event version_id =
    delete_variants_for_key b.name key ∷ emit b.name event key version_id ∷ []

abbrev pub after_version : Bucket → Bytes → Bytes → Option ObjectMeta → Table → Deletion
after_version b key version_id none t = record { reply = no_such_version; table = t; calls = [] }
after_version b key version_id (some m) t = record {
  reply = done m.is_delete_marker version_id;
  table = t;
  calls =
      (if m.is_delete_marker then [] else remove_bytes b.name key m.version_id ∷ [])
      ++ finish_delete b key (codes "s3:ObjectRemoved:Delete") version_id;
}

unfoldable pub delete_version : Bucket → Bytes → Bytes → Table → Deletion
delete_version b key version_id t =
    let p = delete_version_and_promote b.id key version_id t in
    after_version b key version_id p.deleted p.table

unfoldable pub delete_enabled : Bucket → Bytes → ℕ → Bytes → Table → Deletion
delete_enabled b key now marker_id t = record {
  reply = done true marker_id;
  table = put_object_meta_versioned (delete_marker b key now marker_id) t;
  calls = finish_delete b key (codes "s3:ObjectRemoved:DeleteMarkerCreated") marker_id;
}

-- The file call for a null version that was removed.
abbrev pub removed_null : Bucket → Bytes → Option ObjectMeta → List Call
removed_null b key none = []
removed_null b key (some m) = if m.is_delete_marker then [] else delete_object b.name key ∷ []

unfoldable pub delete_suspended : Bucket → Bytes → ℕ → Table → Deletion
delete_suspended b key now t =
    let p = delete_version_and_promote b.id key (codes "null") t in
    let p' = delete_version_and_promote b.id key [] p.table in
    record {
      reply = done true (codes "null");
      table = put_object_meta_versioned (delete_marker b key now (codes "null")) p'.table;
      calls =
          removed_null b key p.deleted
          ++ removed_null b key p'.deleted
          ++ finish_delete b key (codes "s3:ObjectRemoved:DeleteMarkerCreated") (codes "null");
    }

unfoldable pub remove_all_bytes : Bytes → Bytes → List ObjectMeta → List Call
remove_all_bytes bucket key [] = []
remove_all_bytes bucket key (v ∷ versions) =
    let rest = remove_all_bytes bucket key versions in
    if v.is_delete_marker then rest else remove_bytes bucket key v.version_id ∷ rest

-- `DeleteAllVersions`, which is also what `Delete` does in a bucket without versioning.
unfoldable pub delete_all_versions : Bucket → Bytes → Table → Deletion
delete_all_versions b key t = record {
  reply = done false [];
  table = delete_object_meta b.id key t;
  calls =
      remove_all_bytes b.name key (list_versions_for_key t b.id key)
      ++ finish_delete b key (codes "s3:ObjectRemoved:Delete") [];
}

-- `Delete`
unfoldable pub delete : Bucket → Bytes → Bytes → ℕ → Bytes → Table → Deletion
delete b key version_id now marker_id t =
    if not (bytes_eq version_id [])
    then delete_version b key version_id t
    else if bytes_eq b.versioning enabled
    then delete_enabled b key now marker_id t
    else if bytes_eq b.versioning suspended
    then delete_suspended b key now t
    else delete_all_versions b key t
