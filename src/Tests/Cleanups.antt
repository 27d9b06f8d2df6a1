-- ===== src/Tests/Cleanups.antt =====
-- A bucket whose versioning was suspended after its first object was written, and the theorems on the
-- cleaner applied to it.
use cloodsy_s.Handler.Access.{bucket_named}
use cloodsy_s.Db.Query.{last_match, update_where}
use cloodsy_s.Db.Prefix.{in_prefix_range}
use cloodsy_s.Prelude.{◌*◌, ◌≡◌, refl, false, [], ◌∷◌, codes, bytes_eq}
use cloodsy_s.Auth.SigTime.{nanos}
use cloodsy_s.Db.Objects.{
  Table, put_object_meta_versioned, delete_version_and_promote, is_null_version, of_version,
}
use cloodsy_s.Db.Objects.WellFormed.{IsWellFormed}
use cloodsy_s.Db.Objects.Latest.{put-IsWellFormed}
use cloodsy_s.Db.Expiry.{LifecycleRule, get_expired_noncurrent_versions}
use cloodsy_s.Service.Objects.{Bucket, delete, delete_version}
use cloodsy_s.Storage.Files.{FileSystem}
use cloodsy_s.Lifecycle.Cleaner.{Cleaning, run_once, clean_batch, clean_loop, expire_noncurrent}
use cloodsy_s.Lifecycle.Cleaner.Expires.{Expires}
use cloodsy_s.Tests.{row, empty, empty-IsWellFormed}

abbrev with_both : Table
with_both =
    put_object_meta_versioned (row (codes "k") (codes "null"))
      (put_object_meta_versioned (row (codes "k") []) empty)

with_both-IsWellFormed : IsWellFormed with_both
with_both-IsWellFormed =
    put-IsWellFormed (row (codes "k") (codes "null"))
      (put_object_meta_versioned (row (codes "k") []) empty)
      (put-IsWellFormed (row (codes "k") []) empty empty-IsWellFormed refl) refl

abbrev paused : Bucket
paused = record {
  id = 1;
  name = codes "paused";
  quota_bytes = 0;
  versioning = codes "Suspended";
  storage_dir = [];
  public_read = false;
  webdav_enabled = false;
  created_at = 0;
}

abbrev after_a_day : LifecycleRule
after_a_day = record {
  bucket_name = codes "paused";
  rule_prefix = [];
  status = codes "Enabled";
  expiration_days = 0;
  noncurrent_days = 1;
  abort_multipart_days = 0;
  expire_markers = false;
}

abbrev untouched : Cleaning
untouched = record {
  table = with_both;
  staging = record { uploads = []; parts = [] };
  files = [];
  calls = [];
  cleaned = 0;
}

abbrev root : FileSystem
root = record { root_dir = codes "/srv"; custom_dirs = [] }

-- The rule for old versions leaves the old version, and deletes the current object.
cleaned_run :
    (run_once
      (λ r. codes "m")
      root
      (172800 * nanos)
      1
      (paused ∷ [])
      (after_a_day ∷ [])
      untouched).table.rows
    ≡ record (row (codes "k") []) { id = 1 } ∷ []
unfolding get_expired_noncurrent_versions is_null_version of_version in_prefix_range last_match
    update_where bucket_named clean_batch clean_loop expire_noncurrent bytes_eq delete_version
    delete delete_version_and_promote put_object_meta_versioned run_once
cleaned_run = refl
