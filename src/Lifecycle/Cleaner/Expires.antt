-- ===== src/Lifecycle/Cleaner/Expires.antt =====
-- What a run of the cleaner deletes, written out row by row.
use cloodsy_s.Prelude.{ℕ, List, [], ◌∷◌, All, Bytes}
use cloodsy_s.Db.Objects.{ObjectMeta, Table}
use cloodsy_s.Db.Expiry.{LifecycleRule}
use cloodsy_s.Service.Objects.{Bucket, delete}
use cloodsy_s.Lifecycle.Cleaner.Due.{Due}

-- The deletions of rows by the versions that name them, one after the other.
abbrev pub delete_each :
    (ObjectMeta → Bytes) → ℕ → Bucket → List (ObjectMeta × Bytes) → Table → Table
delete_each fresh now b [] t = t
delete_each fresh now b ((r, v) ∷ due) t =
    delete_each fresh now b due (delete b r.key v now (fresh r) t).table

-- The first table becomes the second by batches of deletions, each of rows that are due when the batch
-- is read.
pub data Expires (rules : List LifecycleRule) (buckets : List Bucket) (fresh : ObjectMeta → Bytes)
    (now : ℕ) : Table → Table → Type 0 where
  nothing : {t : Table} → Expires rules buckets fresh now t t
  batch :
      {t t' : Table} (b : Bucket) (due : List (ObjectMeta × Bytes))
      → All (Due rules buckets now b t) due
      → Expires rules buckets fresh now (delete_each fresh now b due t) t'
      → Expires rules buckets fresh now t t'
