-- ===== src/Lifecycle/Cleaner/Keeps.antt =====
-- What a run of the cleaner keeps.
use cloodsy_s.Prelude.{
  ℕ, zero, suc, ltb, ◌≡◌, ◌∙◌, refl, Bool, true, false, Option, none, some, List, [], ◌∷◌, Bytes,
}
use cloodsy_s.Db.Objects.{ObjectMeta, Table}
use cloodsy_s.Db.Objects.WellFormed.{IsWellFormed}
use cloodsy_s.Db.Expiry.{LifecycleRule, is_enabled}
use cloodsy_s.Db.Multipart.{MultipartUpload}
use cloodsy_s.Service.Objects.{Bucket, delete}
use cloodsy_s.Service.Objects.Deletes.{delete-IsWellFormed}
use cloodsy_s.Storage.Files.{FileSystem}
use cloodsy_s.Storage.Parts.{multipart_dir}
use cloodsy_s.Handler.Access.{bucket_named}
use cloodsy_s.Lifecycle.Cleaner.{
  Cleaning, after_delete, last_id, clean_batch, clean_loop, expire_current, expire_noncurrent,
  expire_delete_markers, abort_upload_in, abort_uploads, abort_multipart, when, run_rule, run_once,
}

module _ (fresh : ObjectMeta → Bytes) (now : ℕ) (b : Bucket) where
  clean_batch-IsWellFormed :
      (pick : ObjectMeta → Bytes) (batch : List ObjectMeta) (s : Cleaning)
      → IsWellFormed s.table
      → IsWellFormed (clean_batch fresh now b pick batch s).table
  unfolding clean_batch
  clean_batch-IsWellFormed pick [] s w = w
  clean_batch-IsWellFormed pick (r ∷ batch) s w =
      clean_batch-IsWellFormed pick batch
        (after_delete (delete b r.key (pick r) now (fresh r) s.table) s)
        (delete-IsWellFormed b r.key (pick r) now (fresh r) s.table w)

  clean_loop-IsWellFormed :
      (query : Table → ℕ → List ObjectMeta) (pick : ObjectMeta → Bytes) (rounds after_id : ℕ)
      (s : Cleaning)
      → IsWellFormed s.table
      → IsWellFormed (clean_loop fresh now b query pick rounds after_id s).table
  unfolding clean_loop
  clean_loop-IsWellFormed query pick zero after_id s w = w
  clean_loop-IsWellFormed query pick (suc rounds) after_id s w =
      elim (query s.table after_id)
        as (λ batch.
          IsWellFormed
            (elim batch as (λ rows. Cleaning) [
              | [] ↦ s
              | r ∷ rest ↦
                  clean_loop fresh now b query pick rounds (last_id r.id rest)
                    (clean_batch fresh now b pick (r ∷ rest) s)
            ]).table) [
              | [] ↦ w
              | r ∷ rest ↦
                  clean_loop-IsWellFormed query pick rounds (last_id r.id rest)
                    (clean_batch fresh now b pick (r ∷ rest) s)
                    (clean_batch-IsWellFormed pick (r ∷ rest) s w)
            ]

abort_upload_in-table :
    (fs : FileSystem) (b : Bucket) (u : MultipartUpload) (dir : Option Bytes) (s : Cleaning)
    → (abort_upload_in fs b u dir s).table ≡ s.table
abort_upload_in-table fs b u none s = refl
abort_upload_in-table fs b u (some dir) s = refl

pub abort_uploads-table :
    (fs : FileSystem) (b : Bucket) (uploads : List MultipartUpload) (s : Cleaning)
    → (abort_uploads fs b uploads s).table ≡ s.table
unfolding abort_uploads
abort_uploads-table fs b [] s = refl
abort_uploads-table fs b (u ∷ uploads) s =
    abort_uploads-table fs b uploads (abort_upload_in fs b u (multipart_dir fs b.name u.id) s)
    ∙ abort_upload_in-table fs b u (multipart_dir fs b.name u.id) s

when-IsWellFormed :
    (test : Bool) (f : Cleaning → Cleaning) (s : Cleaning)
    → IsWellFormed s.table
    → IsWellFormed (f s).table
    → IsWellFormed (when test f s).table
when-IsWellFormed true f s w v = v
when-IsWellFormed false f s w v = w

module _ (fresh : ObjectMeta → Bytes) (fs : FileSystem) (now rounds : ℕ)
    (buckets : List Bucket) where
  run_rule-IsWellFormed :
      (rule : LifecycleRule) (b : Option Bucket) (s : Cleaning)
      → IsWellFormed s.table
      → IsWellFormed (run_rule fresh fs now rounds buckets rule b s).table
  unfolding expire_current expire_noncurrent expire_delete_markers abort_multipart
  run_rule-IsWellFormed rule none s w = w
  run_rule-IsWellFormed rule (some b) s w =
      let s1 = when (ltb 0 rule.expiration_days) (expire_current fresh now b rounds rule) s in
      let w1 =
        when-IsWellFormed (ltb 0 rule.expiration_days) (expire_current fresh now b rounds rule) s w
          (clean_loop-IsWellFormed fresh now b _ _ rounds 0 s w) in
      let s2 = when (ltb 0 rule.noncurrent_days) (expire_noncurrent fresh now b rounds rule) s1 in
      let w2 =
        when-IsWellFormed (ltb 0 rule.noncurrent_days) (expire_noncurrent fresh now b rounds rule)
          s1 w1 (clean_loop-IsWellFormed fresh now b _ _ rounds 0 s1 w1) in
      let s3 = when rule.expire_markers (expire_delete_markers fresh now b rounds rule) s2 in
      let w3 =
        when-IsWellFormed rule.expire_markers (expire_delete_markers fresh now b rounds rule) s2 w2
          (clean_loop-IsWellFormed fresh now b _ _ rounds 0 s2 w2) in
      when-IsWellFormed (ltb 0 rule.abort_multipart_days) (abort_multipart fs now b rule) s3 w3
        (rw (abort_uploads-table fs b) w3)

  -- From a well-formed table, a run of the cleaner over any rules, however many rounds its loops get
  -- before the context is cancelled, leaves a well-formed table: ids and versions stay unique, and every
  -- key that has rows has exactly one latest row.
  pub run_once-IsWellFormed :
      (rules : List LifecycleRule) (s : Cleaning)
      → IsWellFormed s.table
      → IsWellFormed (run_once fresh fs now rounds buckets rules s).table
  unfolding run_once
  run_once-IsWellFormed [] s w = w
  run_once-IsWellFormed (rule ∷ rules) s w =
      let f = run_rule fresh fs now rounds buckets rule (bucket_named rule.bucket_name buckets) in
      run_once-IsWellFormed rules (when (is_enabled rule) f s) (
        when-IsWellFormed (is_enabled rule) f s w
          (run_rule-IsWellFormed rule (bucket_named rule.bucket_name buckets) s w))
