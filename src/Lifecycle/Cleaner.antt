-- ===== src/Lifecycle/Cleaner.antt =====
-- lifecycle/cleaner.go: one run over the rules. The rounds of a loop are counted by fuel, which also
-- stands for the context: it may be cancelled before any round. A fresh version id for the marker of a
-- row is a parameter.
pub mod Keeps
pub mod Due
pub mod Expires
use cloodsy_s.Prelude.{
  ℕ, zero, suc, ◌+◌, ◌-◌, ◌*◌, ltb, Bool, Option, none, some, List, [], ◌∷◌, ◌++◌, Bytes, codes,
  non_empty, if◌then◌else◌,
}
use cloodsy_s.Auth.SigTime.{nanos}
use cloodsy_s.Db.Objects.{ObjectMeta, Table}
use cloodsy_s.Db.Expiry.{
  LifecycleRule, is_enabled, get_expired_objects, get_expired_noncurrent_versions,
  get_orphan_delete_markers,
}
use cloodsy_s.Db.Multipart.{
  MultipartUpload, Staging, delete_multipart_upload, list_stale_multipart_uploads_for_bucket,
}
use cloodsy_s.Service.Objects.{Bucket, Call, DeleteReply, done, no_such_version, Deletion, delete}
use cloodsy_s.Storage.Files.{FileSystem, Files}
use cloodsy_s.Storage.Parts.{multipart_dir, delete_multipart_parts}
use cloodsy_s.Handler.Access.{bucket_named}

abbrev pub clean_batch_size : ℕ
clean_batch_size = 100

unfoldable pub version_for_delete : Bytes → Bytes
version_for_delete v = if non_empty v then v else codes "null"

-- The table, the staged uploads, the calls of the deletions, and how many succeeded.
pub record Cleaning : Type 0 where
  pub table : Table
  pub staging : Staging
  pub files : Files
  pub calls : List Call
  pub cleaned : ℕ

abbrev pub cleaned_by : DeleteReply → ℕ
cleaned_by no_such_version = 0
cleaned_by (done _ _) = 1

abbrev pub after_delete : Deletion → Cleaning → Cleaning
after_delete d s = record s {
  table = d.table;
  calls = s.calls ++ d.calls;
  cleaned = s.cleaned + cleaned_by d.reply;
}

abbrev pub last_id : ℕ → List ObjectMeta → ℕ
last_id i [] = i
last_id i (r ∷ rows) = last_id r.id rows

module _ (fresh : ObjectMeta → Bytes) (now : ℕ) (b : Bucket) where
  -- The deletions of a batch, each of the version that is picked for its row.
  unfoldable pub clean_batch : (ObjectMeta → Bytes) → List ObjectMeta → Cleaning → Cleaning
  clean_batch pick [] s = s
  clean_batch pick (r ∷ batch) s =
      clean_batch pick batch (after_delete (delete b r.key (pick r) now (fresh r) s.table) s)

  unfoldable pub clean_loop :
      (Table → ℕ → List ObjectMeta) → (ObjectMeta → Bytes) → ℕ → ℕ → Cleaning → Cleaning
  clean_loop query pick zero after_id s = s
  clean_loop query pick (suc rounds) after_id s = elim (query s.table after_id) [
    | [] ↦ s
    | r ∷ batch ↦ clean_loop query pick rounds (last_id r.id batch) (clean_batch pick (r ∷ batch) s)
  ]

  unfoldable pub expire_current : ℕ → LifecycleRule → Cleaning → Cleaning
  expire_current rounds rule s =
      clean_loop
        (λ t after_id.
          get_expired_objects t b.id rule.rule_prefix rule.expiration_days now after_id
            clean_batch_size)
        (λ r. []) rounds 0 s

  unfoldable pub expire_noncurrent : ℕ → LifecycleRule → Cleaning → Cleaning
  unfolding version_for_delete
  expire_noncurrent rounds rule s =
      clean_loop
        (λ t after_id.
          get_expired_noncurrent_versions t b.id rule.rule_prefix rule.noncurrent_days now after_id
            clean_batch_size)
        (λ r. version_for_delete r.version_id) rounds 0 s

  unfoldable pub expire_delete_markers : ℕ → LifecycleRule → Cleaning → Cleaning
  unfolding version_for_delete
  expire_delete_markers rounds rule s =
      clean_loop
        (λ t after_id. get_orphan_delete_markers t b.id rule.rule_prefix after_id clean_batch_size)
        (λ r. version_for_delete r.version_id) rounds 0 s

-- An upload whose id is no UUID has no staging directory, and is left.
abbrev pub abort_upload_in :
    FileSystem → Bucket → MultipartUpload → Option Bytes → Cleaning → Cleaning
abort_upload_in fs b u none s = s
abort_upload_in fs b u (some dir) s = record s {
  staging = (delete_multipart_upload u.id s.staging).1;
  files = delete_multipart_parts fs b.name u.id s.files;
  cleaned = s.cleaned + 1;
}

unfoldable pub abort_uploads : FileSystem → Bucket → List MultipartUpload → Cleaning → Cleaning
abort_uploads fs b [] s = s
abort_uploads fs b (u ∷ uploads) s =
    abort_uploads fs b uploads (abort_upload_in fs b u (multipart_dir fs b.name u.id) s)

unfoldable pub abort_multipart : FileSystem → ℕ → Bucket → LifecycleRule → Cleaning → Cleaning
unfolding abort_uploads
abort_multipart fs now b rule s =
    abort_uploads fs b
      (list_stale_multipart_uploads_for_bucket b.id rule.rule_prefix
        (now - rule.abort_multipart_days * (86400 * nanos)) s.staging)
      s

abbrev pub when : Bool → (Cleaning → Cleaning) → Cleaning → Cleaning
when test f s = if test then f s else s

module _ (fresh : ObjectMeta → Bytes) (fs : FileSystem) (now rounds : ℕ)
    (buckets : List Bucket) where
  abbrev pub run_rule : LifecycleRule → Option Bucket → Cleaning → Cleaning
  run_rule rule none s = s
  run_rule rule (some b) s =
      when (ltb 0 rule.abort_multipart_days) (abort_multipart fs now b rule) (
        when rule.expire_markers (expire_delete_markers fresh now b rounds rule) (
          when (ltb 0 rule.noncurrent_days) (expire_noncurrent fresh now b rounds rule)
            (when (ltb 0 rule.expiration_days) (expire_current fresh now b rounds rule) s)))

  -- `RunOnce`
  unfoldable pub run_once : List LifecycleRule → Cleaning → Cleaning
  run_once [] s = s
  run_once (rule ∷ rules) s =
      run_once rules
        (when (is_enabled rule) (run_rule rule (bucket_named rule.bucket_name buckets)) s)
