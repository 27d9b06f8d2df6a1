-- ===== src/Handler/Multipart/Completion.antt =====
-- What a completed upload becomes.
use cloodsy_s.Prelude.{
  ℕ, ◌≡◌, refl, ◌∙◌, inl, inr, Bool, true, false, none, some, List, [], ◌∷◌, length, map, Bytes,
  codes, if◌then◌else◌, Bool-cases,
}
use cloodsy_s.Prelude.Result.{Result, ok, err}
use cloodsy_s.Db.Query.{last_match, delete_where}
use cloodsy_s.Db.Objects.{ObjectMeta, Table}
use cloodsy_s.Db.Objects.WellFormed.{IsWellFormed}
use cloodsy_s.Db.Multipart.{
  MultipartUpload, is_upload, get_multipart_upload, delete_multipart_upload,
}
use cloodsy_s.Service.Errors.{ServiceError, over_quota}
use cloodsy_s.Service.Objects.{Bucket, is_real_version, version_id_for_put}
use cloodsy_s.Service.Quota.{check_quota}
use cloodsy_s.Service.Writes.{ImageConfig, PutResult, State, open_object}
use cloodsy_s.Service.Writes.Readback.{IsWritten, open_version, commit-IsWritten}
use cloodsy_s.Storage.Files.{FileSystem, Files, Written, get_object, get_versioned_object}
use cloodsy_s.Storage.Parts.{
  multipart_dir, multipart_etag, assemble_multipart_parts, assemble_multipart_parts_versioned,
  delete_multipart_parts,
}
use cloodsy_s.Storage.Parts.Assembly.{
  AreStaged, join_all, IsAssembled, assemble_multipart_parts-IsAssembled,
}
use cloodsy_s.Storage.Parts.Apart.{get_object-kept, get_versioned_object-kept}
use cloodsy_s.Handler.Multipart.{Plan, check_quota_for}
use cloodsy_s.Handler.Multipart.Effects.{
  World, completion_options, assembled, record_assembled, finish_completion,
}

last_match-deleted :
    (id : Bytes) (uploads : List MultipartUpload)
    → last_match (is_upload id) (delete_where (is_upload id) uploads) ≡ none
unfolding last_match
last_match-deleted id [] = refl
last_match-deleted id (u ∷ uploads) = elim (Bool-cases (is_upload id u)) [
  | inl e ↦ rw e (last_match-deleted id uploads)
  | inr e ↦ rw (e, last_match-deleted id uploads, e) refl
]

check_quota_for-ok :
    (b : Bucket) (key : Bytes) (t : Table) (size : ℕ)
    → check_quota_for b key t size ≡ ok tt
    → check_quota b key size t ≡ true
unfolding check_quota_for
check_quota_for-ok b key t size h = elim (Bool-cases (check_quota b key size t)) [
  | inl fits ↦ fits
  | inr full ↦ let no : err over_quota ≡ ok tt = rw full at h in cc
]

module _ (md5 sha256 : Bytes → Bytes) (cfg : ImageConfig) (fs : FileSystem) (key : Bytes) where
  open_object-kept :
      (b : Bucket) (m : ObjectMeta) (upload_id : Bytes) (files : Files) (content : Bytes)
      → open_object sha256 fs b m files ≡ ok content
      → open_object sha256 fs b m (delete_multipart_parts fs b.name upload_id files) ≡ ok content
  unfolding open_object
  open_object-kept b m upload_id files content h =
      elim (Bool-cases (is_real_version m.version_id)) [
        | inl real ↦ rw real (
            get_versioned_object-kept sha256 fs b.name m.key m.version_id upload_id files content
              (rw real at h))
        | inr slot ↦
            rw slot (get_object-kept sha256 fs b.name m.key upload_id files content (rw slot at h))
      ]

  IsWritten-kept :
      (b : Bucket) (upload_id content : Bytes) (r : PutResult) (s : State)
      → IsWritten md5 sha256 cfg fs b key content r s
      → IsWritten md5 sha256 cfg fs b key content r
          (record s { files = delete_multipart_parts fs b.name upload_id s.files })
  IsWritten-kept b upload_id content r s (m, found, opened, sized, size, tag, version, quota, wf) =
      (
        m,
        found,
        open_object-kept b m upload_id s.files content opened,
        sized,
        size,
        tag,
        version,
        quota,
        wf,
      )

  -- The parts' files, joined, are the key's object, with the ETag of a multipart upload; the upload is
  -- gone.
  abbrev pub IsFinished : Plan → World → PutResult → World → Type 0
  IsFinished plan before r after =
      (dir : Bytes) × (contents : List Bytes) × (multipart_dir fs plan.bucket.name plan.upload.id
        ≡ some dir)
      × AreStaged dir before.state.files plan.numbers contents
      × (r.etag ≡ multipart_etag md5 (join_all (map md5 contents)) (length plan.numbers))
      × (get_multipart_upload plan.upload.id after.staging ≡ none)
      × IsWritten md5 sha256 cfg fs plan.bucket key (join_all contents) r after.state

  abbrev pub IsCompleted : Plan → World → Result ServiceError PutResult × World → Type 0
  IsCompleted plan before (err e, after) = after ≡ before
  IsCompleted plan before (ok r, after) = IsFinished plan before r after

  -- Either way that the object's file is chosen.
  IsAssembled-at :
      (versioned : Bool) (plan : Plan) (version_id : Bytes) (s : State)
      → IsAssembled md5 s.files
          (multipart_dir fs plan.bucket.name plan.upload.id)
          plan.numbers
          (completion_options plan.bucket key s.table)
          (λ (after : Files).
            if versioned
            then get_versioned_object sha256 fs plan.bucket.name key version_id after
            else get_object sha256 fs plan.bucket.name key after)
          (if versioned
            then assemble_multipart_parts_versioned md5 sha256 fs plan.bucket.name key version_id
                plan.upload.id plan.numbers
                (completion_options plan.bucket key s.table)
                s.files
            else assemble_multipart_parts md5 sha256 fs plan.bucket.name key plan.upload.id
                plan.numbers
                (completion_options plan.bucket key s.table)
                s.files)
  IsAssembled-at true plan version_id s =
      (assemble_multipart_parts-IsAssembled md5 s.files sha256 fs plan.bucket.name key version_id
        plan.upload.id plan.numbers (completion_options plan.bucket key s.table)).1
  IsAssembled-at false plan version_id s =
      (assemble_multipart_parts-IsAssembled md5 s.files sha256 fs plan.bucket.name key version_id
        plan.upload.id plan.numbers (completion_options plan.bucket key s.table)).0

  record_assembled-IsCompleted :
      (plan : Plan) (version_id : Bytes) (now : ℕ) (before : World) (w : Written)
      → IsWellFormed before.state.table
      → IsAssembled md5 before.state.files
          (multipart_dir fs plan.bucket.name plan.upload.id)
          plan.numbers
          (completion_options plan.bucket key before.state.table)
          (open_version md5 sha256 cfg fs plan.bucket key version_id)
          w
      → IsCompleted plan before
          (record_assembled md5 sha256 cfg fs key now plan version_id before w)
  unfolding completion_options delete_multipart_upload get_multipart_upload
  record_assembled-IsCompleted plan version_id now before (err e, files) wf same = rw same refl
  record_assembled-IsCompleted plan version_id now before (ok (size, etag), files) wf
        (dir, at_dir, (contents, staged, opened, sized, fits, passed, tagged)) =
      let room = check_quota_for-ok plan.bucket key before.state.table size passed in
      let (r, s', done, tag, version, kept, written) =
        commit-IsWritten md5 sha256 cfg fs plan.bucket key version_id size etag
          plan.upload.content_type plan.upload.metadata
          (codes "s3:ObjectCreated:CompleteMultipartUpload") false now
          (record before.state { files = files }) (join_all contents) wf opened sized room in
      rw done (
        dir,
        contents,
        at_dir,
        staged,
        tag ∙ tagged,
        last_match-deleted plan.upload.id before.staging.uploads,
        IsWritten-kept plan.bucket plan.upload.id (join_all contents) r s' written,
      )

  -- From a well-formed table, completing an upload either fails and leaves the tables, the files and
  -- the calls as they were, or makes the parts' contents, joined in the order of their numbers, the
  -- key's object: its row has their size, the version, and the ETag from their MD5 sums and their
  -- number; a quota is kept to, the table is well-formed, and the upload is gone.
  pub finish_completion-IsCompleted :
      (plan : Plan) (now : ℕ) (new_version : Bytes) (before : World)
      → IsWellFormed before.state.table
      → IsCompleted plan before
          (finish_completion md5 sha256 cfg fs key now plan new_version before)
  unfolding finish_completion
  finish_completion-IsCompleted plan now new_version before wf =
      let version_id = version_id_for_put plan.bucket new_version in
      record_assembled-IsCompleted plan version_id now before
        (assembled md5 sha256 cfg fs key now plan version_id before.state) wf
        (IsAssembled-at (is_real_version version_id) plan version_id before.state)
