-- ===== src/Handler/Multipart.antt =====
-- handler/multipart.go: uploads in parts. The request's XML is decoded (`none` where that fails; a
-- negative part number, which is refused as 0 is, stands as 0). Here are the checks; Effects has what follows
-- them.
pub mod Parts
pub mod Effects
pub mod Completion
use mathlib.Core.Option
use cloodsy_s.Prelude.{
  ℕ, ◌+◌, ◌*◌, ◌==◌, ltb, leb, Bool, true, false, not, ◌&&◌, ◌||◌, Option, none, some, List, [],
  ◌∷◌, ◌++◌, length, Bytes, bytes_eq, codes, non_empty, trim_left, trim_right, parse_int, ℤ, pos,
  negsuc, if◌then◌else◌,
}
use cloodsy_s.Prelude.Result.{Result, ok, err, ◌>>=◌, ◌>>◌, refuse_if, or_refuse}
use cloodsy_s.S3Err.{
  Refusal, plain, entity_too_large, entity_too_small, internal_error, invalid_argument,
  invalid_part, invalid_part_order, malformed_xml, no_such_upload,
}
use cloodsy_s.Auth.Request.{HttpRequest, get}
use cloodsy_s.Db.Query.{last_match}
use cloodsy_s.Db.Objects.{Table}
use cloodsy_s.Db.Multipart.{
  create_multipart_upload, put_multipart_part_row, MultipartUpload, MultipartPart, Staging,
  get_multipart_upload, list_multipart_parts, delete_multipart_upload,
}
use cloodsy_s.Service.Errors.{too_large, other_error, ServiceError, over_quota, service_refusal}
use cloodsy_s.Service.Objects.{Bucket, is_real_version, version_id_for_put}
use cloodsy_s.Service.Quota.{check_quota, or_default}
use cloodsy_s.Service.Writes.{ImageConfig, PutResult, State, Outcome, commit}
use cloodsy_s.Storage.Files.{Reader, FileSystem, Files, PutOptions, Written}
use cloodsy_s.Storage.Parts.{
  put_multipart_part, delete_multipart_part, assemble_multipart_parts,
  assemble_multipart_parts_versioned, delete_multipart_parts,
}
use cloodsy_s.Handler.Access.{
  BucketCredential, Context, Signed, authenticate_request, check_bucket_access, check_write_access,
  authorize_write,
}
use cloodsy_s.Handler.Conditional.{is_quote}
use cloodsy_s.Handler.Objects.{bad_key}

abbrev pub min_part_size : ℕ
min_part_size = 5242880

abbrev pub max_part_size : ℕ
max_part_size = 5368709120

abbrev pub max_multipart_size : ℕ
max_multipart_size = 5497558138880

abbrev pub max_parts : ℕ
max_parts = 10000

abbrev pub of_bucket : Bucket → MultipartUpload → Result Refusal MultipartUpload
of_bucket b u = refuse_if (not (u.bucket_id == b.id)) (plain no_such_upload) >> ok u

unfoldable pub load_upload : Context → Staging → Bucket → Bytes → Result Refusal MultipartUpload
load_upload x s b upload_id =
    refuse_if (not x.readable) (plain internal_error)
    >> (or_refuse (get_multipart_upload upload_id s) (plain no_such_upload) >>= of_bucket b)

abbrev pub as_part_number : Option ℤ → Option ℕ
as_part_number (some (pos n)) = if ltb n 1 || ltb max_parts n then none else some n
as_part_number (some (negsuc n)) = none
as_part_number none = none

-- The `partNumber` of a request.
unfoldable pub read_part_number : Bytes → Option ℕ
read_part_number v = as_part_number (parse_int 10 v)

-- A part as the completing request names it.
pub record CompletePart : Type 0 where
  pub part_number : ℕ
  pub etag : Bytes

unfoldable pub check_order : ℕ → List CompletePart → Result Refusal (Unit {0})
check_order prev [] = ok tt
check_order prev (p ∷ parts) =
    refuse_if (leb p.part_number prev) (plain invalid_part_order) >> check_order p.part_number parts

-- `strings.Trim(s, "\"")`
abbrev pub trim_quotes : Bytes → Bytes
trim_quotes s = trim_right is_quote (trim_left is_quote s)

-- `partMap[number]`
abbrev pub numbered : ℕ → List MultipartPart → Option MultipartPart
numbered n rows = last_match (λ (r : MultipartPart). r.part_number == n) rows

abbrev pub is_last : List CompletePart → Bool
is_last [] = true
is_last (_ ∷ _) = false

abbrev pub check_row : ℕ → CompletePart → List CompletePart → MultipartPart → Result Refusal ℕ
check_row total p later row =
    refuse_if (not (bytes_eq (trim_quotes p.etag) (trim_quotes row.etag))) (plain invalid_part)
    >> (refuse_if (not (is_last later) && ltb row.size min_part_size) (plain entity_too_small)
        >> (refuse_if (ltb max_multipart_size (total + row.size)) (plain entity_too_large)
            >> ok (total + row.size)))

-- The part numbers and the total size.
unfoldable pub check_parts :
    List MultipartPart → ℕ → List CompletePart → Result Refusal (List ℕ × ℕ)
check_parts rows total [] = ok ([], total)
check_parts rows total (p ∷ parts) =
    let later = (λ (sum : ℕ). check_parts rows sum parts) in
    or_refuse (numbered p.part_number rows) (plain invalid_part)
    >>= check_row total p parts
    >>= λ sum. later sum >>= λ rest. ok (p.part_number ∷ rest.0, rest.1)

unfoldable pub validate_parts : List MultipartPart → List CompletePart → Result Refusal (List ℕ × ℕ)
validate_parts rows parts =
    refuse_if (is_last parts || ltb max_parts (length parts)) (plain malformed_xml)
    >> (check_order 0 parts >> check_parts rows 0 parts)

-- `checkQuotaFor`
unfoldable pub check_quota_for : Bucket → Bytes → Table → ℕ → Result ServiceError (Unit {0})
check_quota_for b key t size = refuse_if (not (check_quota b key size t)) over_quota

abbrev pub refused {ℓ} : {A : Type ℓ} → Result ServiceError A → Result Refusal A
refused (ok a) = ok a
refused (err e) = err (service_refusal e)

-- What a completion goes on with after its checks.
pub record Plan : Type 0 where
  pub bucket : Bucket
  pub upload : MultipartUpload
  pub numbers : List ℕ

module _ (hmac_sha256 : Bytes → Bytes → Bytes) (sha256 : Bytes → Bytes) (x : Context) (s : Staging)
    (t : Table) (r : HttpRequest) (bucket_name key : Bytes) where
  abbrev pub upload_of : Bucket × BucketCredential → Result Refusal (Bucket × MultipartUpload)
  upload_of (b, cred) = load_upload x s b (get r.query (codes "uploadId")) >>= λ u. ok (b, u)

  abbrev pub numbered_part : Bucket × MultipartUpload → Result Refusal (Bucket × ℕ)
  numbered_part (b, u) =
      or_refuse (read_part_number (get r.query (codes "partNumber"))) (plain invalid_argument)
      >>= λ n. ok (b, n)

  -- The start of `UploadPart`, up to the body.
  unfoldable pub authorize_part : Result Refusal (Bucket × ℕ)
  authorize_part =
      authorize_write hmac_sha256 sha256 x r bucket_name >>= upload_of >>= numbered_part

  -- The checks of `AbortMultipartUpload`.
  unfoldable pub authorize_abort : Result Refusal (Bucket × MultipartUpload)
  authorize_abort = authorize_write hmac_sha256 sha256 x r bucket_name >>= upload_of

  abbrev pub key_access : Signed → Result Refusal (Bucket × BucketCredential)
  key_access signed =
      check_write_access signed.0
      >> (refuse_if (bad_key key) (plain invalid_argument)
          >> (check_bucket_access x signed.0 bucket_name >>= λ b. ok (b, signed.0)))

  abbrev pub plan_parts :
      Option (List CompletePart) → Bucket × MultipartUpload → Result Refusal Plan
  plan_parts none (b, u) = err (plain malformed_xml)
  plan_parts (some parts) (b, u) =
      validate_parts (list_multipart_parts (get r.query (codes "uploadId")) s) parts >>= λ checked.
      refused (check_quota_for b key t checked.1)
      >> ok (record { bucket = b; upload = u; numbers = checked.0 })

  -- The checks of `CompleteMultipartUpload`.
  unfoldable pub plan_completion : Option (List CompletePart) → Result Refusal Plan
  plan_completion parts =
      authenticate_request hmac_sha256 sha256 x r >>= key_access >>= upload_of >>= plan_parts parts
