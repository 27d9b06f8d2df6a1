-- ===== src/Tests.antt =====
-- Runs of the modelled operations on small inputs, and the theorems applied there.
mod Requests
mod Routes
mod Chunks
mod Logins
mod Uploads
mod Pages
mod Cleanups
mod Hooks
use mathlib.Core.Option
use cloodsy_s.Prelude.{
  ◌+◌, ◌%◌, ◌≤◌, ◌<◌, ◌≡◌, refl, true, false, some, [], ◌∷◌, arith, Bytes, codes, bytes_eq,
  has_prefix, bytes_lt, has_suffix, index_of,
}
use cloodsy_s.Db.Query.{count, last_match, update_where}
use cloodsy_s.Db.Objects.Deletion.{delete_version_and_promote-IsWellFormed}
use cloodsy_s.Db.Objects.{get_bucket_usage, sum_sizes}
use cloodsy_s.Db.Objects.Usage.{object_size, usage-put}
use cloodsy_s.Service.Quota.{check_quota, credit, object_row, check_quota-bound}
use cloodsy_s.Db.Listing.Ordering.{HasKeys}
use cloodsy_s.Image.Params.{round_up, quantize}
use cloodsy_s.Image.Params.Quantize.{round_up-least, quantize_idempotent}
use cloodsy_s.Service.Objects.{
  Bucket, enabled, suspended, delete, delete_version, delete_object, delete_variants_for_key, emit,
  remove_bytes, is_real_version,
}
use cloodsy_s.Service.Objects.Deletes.{delete-IsWellFormed, get-delete}
use cloodsy_s.Db.Prefix.{in_prefix_range, prefix_upper_bound}
use cloodsy_s.Db.Prefix.Bounds.{in_prefix_range-eq-has_prefix}
use cloodsy_s.Db.Objects.{
  ObjectMeta, Table, put_object_meta_versioned, get_object_meta, get_object_meta_by_version, of_key,
  of_version, is_object, delete_version_and_promote, is_current, is_null_version,
}
use cloodsy_s.Db.Objects.WellFormed.{IsWellFormed}
use cloodsy_s.Db.Objects.Latest.{put-IsWellFormed}
use cloodsy_s.Db.Objects.Lookup.{stored, get-put, get_by_version-put}
use cloodsy_s.Db.Listing.Entries.{roll_up}
use cloodsy_s.Db.Listing.{
  object, common, list_objects_meta, selected, start_cursor, order_by_key, in_range, list_loop,
  truncated, list_batch, scan_batch, entry_of, common_prefix, add_entry, from_cursor,
}
use cloodsy_s.Db.Listing.Page.{page}
use cloodsy_s.Db.Listing.Refinement.{IsListable, list_objects_meta-eq-page}
use cloodsy_s.Db.Listing.Pages.{list_objects_meta-next_marker, list_objects_meta-at_prefix}

-- A version of an object in bucket 1.
abbrev pub row : Bytes → Bytes → ObjectMeta
row key version = record {
  id = 0;
  bucket_id = 1;
  key = key;
  size = 3;
  etag = codes "e";
  content_type = codes "text/plain";
  last_modified = 7;
  metadata = [];
  version_id = version;
  is_latest = true;
  is_delete_marker = false;
}

abbrev pub empty : Table
empty = record { next_id = 1; rows = [] }

pub empty-IsWellFormed : IsWellFormed empty
unfolding count
empty-IsWellFormed = record {
  unique_versions = λ b k v. omega arith;
  one_latest = λ b k. omega arith;
  unique_ids = λ i. omega arith;
  fresh_ids = λ i h. refl;
}

abbrev pub first_version : Table
first_version = put_object_meta_versioned (row (codes "k") (codes "v1")) empty

pub first_version-IsWellFormed : IsWellFormed first_version
first_version-IsWellFormed =
    put-IsWellFormed (row (codes "k") (codes "v1")) empty empty-IsWellFormed refl

put-IsWellFormed_example :
    IsWellFormed (put_object_meta_versioned (row (codes "k") (codes "v2")) first_version)
put-IsWellFormed_example =
    put-IsWellFormed (row (codes "k") (codes "v2")) first_version first_version-IsWellFormed refl

get-put_example :
    get_object_meta
      (put_object_meta_versioned (row (codes "k") (codes "v2")) first_version)
      1
      (codes "k")
    ≡ some (stored (row (codes "k") (codes "v2")) first_version)
unfolding of_key bytes_eq
get-put_example = get-put (row (codes "k") (codes "v2")) first_version 1 (codes "k") refl

get_by_version-put_example :
    get_object_meta_by_version
      (put_object_meta_versioned (row (codes "k") (codes "v2")) first_version)
      1
      (codes "k")
      (codes "v2")
    ≡ some (stored (row (codes "k") (codes "v2")) first_version)
unfolding of_key bytes_eq of_version
get_by_version-put_example =
    get_by_version-put (row (codes "k") (codes "v2")) first_version 1 (codes "k") (codes "v2") refl

in_prefix_range-eq-has_prefix_example :
    in_prefix_range (255 ∷ []) (255 ∷ 255 ∷ []) ≡ has_prefix (255 ∷ 255 ∷ []) (255 ∷ [])
in_prefix_range-eq-has_prefix_example =
    in_prefix_range-eq-has_prefix (255 ∷ []) (255 ∷ 255 ∷ []) (omega arith, (omega arith, tt))

-- A bucket with a marker object for the folder "a/" and what is in it.
abbrev folder : Table
folder = record {
  next_id = 5;
  rows =
      row (codes "b/2") (codes "null")
      ∷ row (codes "b/1") (codes "null")
      ∷ row (codes "a") (codes "null")
      ∷ row (codes "c") (codes "null")
      ∷ [];
}

folder-IsListable : IsListable folder 1 []
unfolding selected order_by_key in_range in_prefix_range bytes_lt has_prefix is_object
folder-IsListable = record {
  ascending = ((refl, (refl, (refl, tt))), ((refl, (refl, tt)), ((refl, tt), (tt, tt))));
  listed = (
    record { bytes = (omega arith, tt); named = refl; under = refl },
    (
      record {
        bytes = (omega arith, (omega arith, (omega arith, tt)));
        named = refl;
        under = refl;
      },
      (
        record {
          bytes = (omega arith, (omega arith, (omega arith, tt)));
          named = refl;
          under = refl;
        },
        (record { bytes = (omega arith, tt); named = refl; under = refl }, tt),
      ),
    ),
  );
}

list_objects_meta_run : list_objects_meta folder 1 [] [] (codes "/") 2 ≡ record {
  objects = row (codes "a") (codes "null") ∷ [];
  common_prefixes = codes "b/" ∷ [];
  is_truncated = true;
  next_marker = codes "b/";
}
unfolding list_objects_meta list_loop start_cursor truncated list_batch selected order_by_key
    in_range in_prefix_range bytes_lt has_prefix is_object scan_batch entry_of common_prefix
    add_entry from_cursor prefix_upper_bound index_of has_suffix bytes_eq
list_objects_meta_run = refl

list_objects_meta-eq-page_example :
    list_objects_meta folder 1 [] [] (codes "/") 2
    ≡ page (object (row (codes "a") (codes "null")) ∷ common (codes "b/") ∷ []) true
unfolding start_cursor list_batch selected order_by_key in_range roll_up in_prefix_range bytes_lt
    has_prefix is_object entry_of common_prefix from_cursor prefix_upper_bound index_of has_suffix
    bytes_eq
list_objects_meta-eq-page_example =
    list_objects_meta-eq-page folder 1 [] (codes "/") 2 folder-IsListable []

list_objects_meta-next_marker_example :
    list_objects_meta folder 1 []
      (list_objects_meta folder 1 [] [] (codes "/") 2).next_marker
      (codes "/")
      2
    ≡ page (object (row (codes "c") (codes "null")) ∷ []) false
unfolding start_cursor list_batch selected order_by_key in_range roll_up in_prefix_range bytes_lt
    has_prefix is_object entry_of common_prefix from_cursor prefix_upper_bound index_of has_suffix
    bytes_eq
list_objects_meta-next_marker_example =
    list_objects_meta-next_marker folder 1 [] (codes "/") folder-IsListable [] 2 2 (omega arith)
      (omega arith) (refl, (tt, (refl, tt)))

list_objects_meta-at_prefix_example :
    list_objects_meta folder 1 (codes "b/") (codes "b/") (codes "/") 2 ≡ page [] false
unfolding has_suffix bytes_eq
list_objects_meta-at_prefix_example =
    list_objects_meta-at_prefix folder 1 (codes "b/") (codes "/") 2 refl refl refl

delete_version_and_promote-IsWellFormed_example :
    IsWellFormed (delete_version_and_promote 1 (codes "k") (codes "v1") first_version).table
delete_version_and_promote-IsWellFormed_example =
    delete_version_and_promote-IsWellFormed first_version 1 (codes "k") (codes "v1")
      first_version-IsWellFormed

abbrev photos : Bytes → Bucket
photos versioning = record {
  id = 1;
  name = codes "photos";
  quota_bytes = 0;
  versioning = versioning;
  storage_dir = [];
  public_read = false;
  webdav_enabled = false;
  created_at = 1;
}

delete-IsWellFormed_example :
    IsWellFormed (delete (photos suspended) (codes "k") [] 9 (codes "m") first_version).table
delete-IsWellFormed_example =
    delete-IsWellFormed (photos suspended) (codes "k") [] 9 (codes "m") first_version
      first_version-IsWellFormed

get-delete_example :
    Option.map
      (λ (r : ObjectMeta). r.is_delete_marker)
      (get_object_meta
        (delete (photos enabled) (codes "k") [] 9 (codes "m") first_version).table
        1
        (codes "k"))
    ≡ some true
unfolding bytes_eq
get-delete_example = get-delete (photos enabled) (codes "k") [] 9 (codes "m") first_version refl

-- A key written before versioning was enabled, and again after it was suspended: the two rows share
-- one file.
abbrev two_null_rows : Table
two_null_rows =
    put_object_meta_versioned (row (codes "k") (codes "null"))
      (put_object_meta_versioned (row (codes "k") []) empty)

-- Deleting the version "null" removes the file and makes the older row the current object again.
delete_null_run :
    ((delete (photos suspended) (codes "k") (codes "null") 9 (codes "m") two_null_rows).calls
      ≡ delete_object (codes "photos") (codes "k")
        ∷ delete_variants_for_key (codes "photos") (codes "k")
        ∷ emit (codes "photos") (codes "s3:ObjectRemoved:Delete") (codes "k") (codes "null")
        ∷ [])
    × (get_object_meta
          (delete (photos suspended) (codes "k") (codes "null") 9 (codes "m") two_null_rows).table
          1
          (codes "k")
        ≡ some (record (row (codes "k") []) { id = 1 }))
unfolding delete delete_version delete_version_and_promote put_object_meta_versioned get_object_meta
    last_match update_where of_key of_version is_current is_null_version bytes_eq remove_bytes
    is_real_version
delete_null_run = (refl, refl)

abbrev limited : Bucket
limited = record (photos []) { quota_bytes = 10 }
