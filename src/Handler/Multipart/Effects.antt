-- ===== src/Handler/Multipart/Effects.antt =====
-- handler/multipart.go: what the requests on uploads do after their checks. The statements that the code
-- does not look at succeed.
use cloodsy_s.Prelude.{ℕ, ltb, Bool, false, Option, none, some, Bytes, codes, if◌then◌else◌}
use cloodsy_s.Prelude.Result.{Result, ok, err, or_refuse}
use cloodsy_s.Db.Objects.{Table}
use cloodsy_s.Db.Multipart.{
  create_multipart_upload, put_multipart_part_row, MultipartPart, Staging, delete_multipart_upload,
}
use cloodsy_s.Service.Errors.{too_large, other_error, ServiceError}
use cloodsy_s.Service.Objects.{Bucket, is_real_version, version_id_for_put}
use cloodsy_s.Service.Quota.{or_default}
use cloodsy_s.Service.Writes.{ImageConfig, PutResult, State, Outcome, commit}
use cloodsy_s.Storage.Files.{Reader, FileSystem, PutOptions, Written}
use cloodsy_s.Storage.Parts.{
  put_multipart_part, delete_multipart_part, assemble_multipart_parts,
  assemble_multipart_parts_versioned, delete_multipart_parts,
}
use cloodsy_s.Handler.Multipart.{Plan, max_part_size, max_multipart_size, check_quota_for}

-- The tables, the files and the calls.
pub record World : Type 0 where
  pub staging : Staging
  pub state : State

unfoldable pub completion_options : Bucket → Bytes → Table → PutOptions
completion_options b key t = record {
  max_size = max_multipart_size;
  verify = λ size sum. check_quota_for b key t size;
}

module _ (md5 sha256 : Bytes → Bytes) (cfg : ImageConfig) (fs : FileSystem) (key : Bytes)
    (now : ℕ) where
  abbrev pub assembled : Plan → Bytes → State → Written
  assembled plan version_id st =
      let o = completion_options plan.bucket key st.table in
      if is_real_version version_id
      then assemble_multipart_parts_versioned md5 sha256 fs plan.bucket.name key version_id
          plan.upload.id plan.numbers o st.files
      else assemble_multipart_parts md5 sha256 fs plan.bucket.name key plan.upload.id plan.numbers o
          st.files

  -- The staged parts and the upload go.
  abbrev pub discard_upload :
      Bytes → Bytes → Staging → Outcome → Result ServiceError PutResult × World
  discard_upload bucket upload_id s (reply, st) = (
    reply,
    record {
      staging = (delete_multipart_upload upload_id s).1;
      state = record st { files = delete_multipart_parts fs bucket upload_id st.files };
    },
  )

  abbrev pub record_assembled :
      Plan → Bytes → World → Written → Result ServiceError PutResult × World
  record_assembled plan version_id w (err e, files) =
      (err e, record w { state = record w.state { files = files } })
  record_assembled plan version_id w (ok (size, etag), files) =
      discard_upload plan.bucket.name plan.upload.id w.staging (
        commit cfg plan.bucket key version_id size etag plan.upload.content_type
          plan.upload.metadata (codes "s3:ObjectCreated:CompleteMultipartUpload") false now
          (record w.state { files = files }))

  -- The rest of `CompleteMultipartUpload`.
  unfoldable pub finish_completion : Plan → Bytes → World → Result ServiceError PutResult × World
  finish_completion plan new_version w =
      let version_id = version_id_for_put plan.bucket new_version in
      record_assembled plan version_id w (assembled plan version_id w.state)

abbrev pub exceeds_part : Option ℕ → Bool
exceeds_part none = false
exceeds_part (some n) = ltb max_part_size n

-- The row of `CreateMultipartUpload`, its id being a fresh one.
unfoldable pub start_upload :
    ℕ → Bytes → Bucket → Bytes → Bytes → Bytes → Staging → Result ServiceError Staging
start_upload now fresh_id b key content_type metadata s =
    or_refuse
      (create_multipart_upload now
        (record {
          id = fresh_id;
          bucket_id = b.id;
          key = key;
          content_type = or_default content_type (codes "application/octet-stream");
          metadata = metadata;
          created_at = now;
        })
        s)
      other_error

module _ (md5 : Bytes → Bytes) (fs : FileSystem) (b : Bucket) (upload_id : Bytes)
    (number now : ℕ) where
  -- The size and the ETag of a stored part.
  abbrev pub PartReply : Type 0
  PartReply = Result ServiceError (ℕ × Bytes) × World

  abbrev pub with_row : ℕ → Bytes → World → Option Staging → PartReply
  with_row size etag w none = (
    err other_error,
    record w {
      state = record w.state {
        files = delete_multipart_part fs b.name upload_id number w.state.files;
      };
    },
  )
  with_row size etag w (some s) = (ok (size, etag), record w { staging = s })

  abbrev pub after_part : World → Written → PartReply
  after_part w (err e, files) = (err e, record w { state = record w.state { files = files } })
  after_part w (ok (size, etag), files) =
      let part : MultipartPart = record {
        upload_id = upload_id;
        part_number = number;
        size = size;
        etag = etag;
        created_at = now;
      } in
      with_row size etag (record w { state = record w.state { files = files } })
        (put_multipart_part_row now part w.staging)

  -- The rest of `UploadPart`, for a body, its declared size and its check.
  unfoldable pub store_part :
      Reader → Option ℕ → (ℕ → Bytes → Result ServiceError (Unit {0})) → World → PartReply
  store_part body declared check w =
      if exceeds_part declared
      then (err too_large, w)
      else after_part w (
          put_multipart_part md5 fs b.name upload_id number body
            (record { max_size = max_part_size; verify = check }) w.state.files)

-- The rest of `AbortMultipartUpload`.
unfoldable pub abort_upload : FileSystem → Bucket → Bytes → World → World
abort_upload fs b upload_id w = record {
  staging = (delete_multipart_upload upload_id w.staging).1;
  state = record w.state { files = delete_multipart_parts fs b.name upload_id w.state.files };
}
