-- ===== src/Service/Quota.antt =====
-- The quota check of service/objects.go, and the row that a write records. A quota of 0 or less is
-- no quota; here it is 0.
use cloodsy_s.Prelude.{
  ℕ, ◌+◌, ◌==◌, ◌≤◌, ◌<◌, ◌≡◌, refl, Bool, true, false, not, arith, Bytes, bytes_eq, codes, ltb,
  non_empty, if◌then◌else◌, Bool-cases, inl, inr,
}
use cloodsy_s.Db.Objects.{
  ObjectMeta, Table, get_bucket_usage, get_object_meta, put_object_meta_versioned,
}
use cloodsy_s.Db.Objects.WellFormed.{IsWellFormed}
use cloodsy_s.Db.Objects.Usage.{object_size, usage-put}
use cloodsy_s.Service.Objects.{Bucket, enabled}

-- What an overwrite gives back: the size of the key's object, unless its version is kept.
unfoldable pub credit : Bucket → Bytes → Table → ℕ
credit b key t =
    if bytes_eq b.versioning enabled then 0 else object_size (get_object_meta t b.id key)

-- Whether `usage - credit + additional > QuotaBytes` is false; the credit is added on the other side.
unfoldable pub check_quota : Bucket → Bytes → ℕ → Table → Bool
check_quota b key additional t =
    if b.quota_bytes == 0
    then true
    else not (ltb (b.quota_bytes + credit b key t) (get_bucket_usage t b.id + additional))

abbrev pub or_default : Bytes → Bytes → Bytes
or_default v d = if non_empty v then v else d

-- The row that `Put` and `Commit` record.
abbrev pub object_row : Bucket → Bytes → Bytes → ℕ → Bytes → Bytes → Bytes → ℕ → ObjectMeta
object_row b key version_id size etag content_type metadata now = record {
  id = 0;
  bucket_id = b.id;
  key = key;
  size = size;
  etag = etag;
  content_type = or_default content_type (codes "application/octet-stream");
  last_modified = now;
  metadata = or_default metadata (codes "{}");
  version_id = version_id;
  is_latest = true;
  is_delete_marker = false;
}

module _ (b : Bucket) (key : Bytes) (size : ℕ) (t : Table) where
  credit-bound : credit b key t ≤ object_size (get_object_meta t b.id key)
  unfolding credit
  credit-bound = elim (Bool-cases (bytes_eq b.versioning enabled)) [
    | inl e ↦ rw e (omega arith)
    | inr e ↦ rw e (omega arith)
  ]

  accepted :
      0 < b.quota_bytes
      → check_quota b key size t ≡ true
      → get_bucket_usage t b.id + size ≤ b.quota_bytes + credit b key t
  unfolding check_quota
  accepted h g = ground arith

  -- In a well-formed table and a bucket with a quota, when the quota check accepts a write of a size,
  -- recording an object of that size under the key leaves the bucket's usage within the quota,
  -- whatever the bucket's versioning and the version id.
  pub check_quota-bound :
      (version_id etag content_type metadata : Bytes) (now : ℕ)
      → IsWellFormed t
      → 0 < b.quota_bytes
      → check_quota b key size t ≡ true
      → get_bucket_usage
          (put_object_meta_versioned
            (object_row b key version_id size etag content_type metadata now)
            t)
          b.id
        ≤ b.quota_bytes
  check_quota-bound version_id etag content_type metadata now w h g =
      let grown =
        usage-put (object_row b key version_id size etag content_type metadata now) t refl refl w in
      omega (arith, grown, credit-bound, accepted h g)
