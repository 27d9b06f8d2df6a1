-- ===== src/Service/Writes.antt =====
-- `Put`, `Commit` and `Open` of service/objects.go, over the table and the files. The metadata
-- statements succeed; the clock and a fresh version id are arguments.
pub mod Readback
use cloodsy_s.Prelude.{
  ℕ, ◌==◌, ltb, leb, Bool, true, false, not, ◌&&◌, ◌||◌, Option, none, some, List, [], ◌∷◌, ◌++◌,
  any, Bytes, bytes_eq, codes, split_on, trim_space, to_lower, if◌then◌else◌,
}
use cloodsy_s.Prelude.Result.{Result, ok, err, ◌>>=◌, ◌>>◌, refuse_if}
use cloodsy_s.Db.Objects.{ObjectMeta, Table, put_object_meta_versioned}
use cloodsy_s.Service.Errors.{ServiceError, too_large, over_quota}
use cloodsy_s.Service.Objects.{
  Bucket, Call, delete_variants_for_key, emit_written, process_image, enqueue_image,
  is_real_version, version_id_for_put,
}
use cloodsy_s.Service.Quota.{check_quota, or_default, object_row}
use cloodsy_s.Storage.Files.{
  FileSystem, Files, Reader, PutOptions, put_object, put_versioned_object, get_object,
  get_versioned_object,
}

abbrev pub first_part : List Bytes → Bytes
first_part [] = []
first_part (p ∷ _) = p

-- `IsImageContentType` of image/transform.go
unfoldable pub is_image_content_type : Bytes → Bool
is_image_content_type ct = any (bytes_eq (to_lower (trim_space (first_part (split_on b';' ct))))) (
    codes "image/jpeg"
    ∷ codes "image/jpg"
    ∷ codes "image/png"
    ∷ codes "image/gif"
    ∷ codes "image/webp"
    ∷ [])

pub record ImageConfig : Type 0 where
  pub image_enabled : Bool
  pub max_source_bytes : ℕ
  pub sync_max_bytes : ℕ

unfoldable pub queue_image : ImageConfig → Bytes → Bytes → Bytes → Bytes → Bytes → ℕ → List Call
queue_image cfg bucket key version_id etag content_type size =
    if not cfg.image_enabled || not (is_image_content_type content_type)
    then []
    else if not (cfg.max_source_bytes == 0) && ltb cfg.max_source_bytes size
    then []
    else if leb size cfg.sync_max_bytes
    then process_image bucket key version_id etag content_type ∷ []
    else enqueue_image bucket key version_id etag content_type ∷ []

-- A declared size is `none` where it is not known.
pub record PutInput : Type 0 where
  pub key : Bytes
  pub body : Reader
  pub content_type : Bytes
  pub metadata : Bytes
  pub declared_size : Option ℕ
  pub max_size : ℕ
  pub verify : ℕ → Bytes → Result ServiceError (Unit {0})
  pub event_type : Bytes
  pub skip_image : Bool

pub record PutResult : Type 0 where
  pub size : ℕ
  pub etag : Bytes
  pub version_id : Bytes
  pub last_modified : ℕ

-- What the operations change, and their calls of the dispatcher, the cache and the image worker.
pub record State : Type 0 where
  pub table : Table
  pub files : Files
  pub calls : List Call

abbrev pub Outcome : Type 0
Outcome = Result ServiceError PutResult × State

-- The quota check as an error.
unfoldable pub check_room : Bucket → Bytes → Table → ℕ → Result ServiceError (Unit {0})
check_room b key t size = refuse_if (not (check_quota b key size t)) over_quota

-- The checks of a declared size.
unfoldable pub check_declared :
    Bucket → PutInput → Table → Option ℕ → Result ServiceError (Unit {0})
unfolding check_room
check_declared b i t none = ok tt
check_declared b i t (some n) =
    refuse_if (not (i.max_size == 0) && ltb i.max_size n) too_large >> check_room b i.key t n

unfoldable pub put_options : Bucket → PutInput → Table → PutOptions
unfolding check_room
put_options b i t = record {
  max_size = i.max_size;
  verify = λ size sum. check_room b i.key t size >> i.verify size sum;
}

-- The row, and then the calls.
unfoldable pub commit :
    ImageConfig
    → Bucket
    → Bytes
    → Bytes
    → ℕ
    → Bytes
    → Bytes
    → Bytes
    → Bytes
    → Bool
    → ℕ
    → State
    → Outcome
commit cfg b key version_id size etag content_type metadata event_type skip_image now s =
    let row = object_row b key version_id size etag content_type metadata now in
    (
      ok (record { size = size; etag = etag; version_id = version_id; last_modified = now }),
      record {
        table = put_object_meta_versioned row s.table;
        files = s.files;
        calls =
            s.calls
            ++ delete_variants_for_key b.name key
              ∷ emit_written b.name event_type key size etag version_id
              ∷ (if skip_image
                  then []
                  else queue_image cfg b.name key version_id etag row.content_type size);
      },
    )

-- `Open`
unfoldable pub open_object :
    (Bytes → Bytes) → FileSystem → Bucket → ObjectMeta → Files → Result ServiceError Bytes
open_object sha256 fs b m files =
    if is_real_version m.version_id
    then get_versioned_object sha256 fs b.name m.key m.version_id files
    else get_object sha256 fs b.name m.key files

module _ (md5 sha256 : Bytes → Bytes) (cfg : ImageConfig) (fs : FileSystem) where
  -- The file of a write.
  abbrev pub put_bytes :
      Bucket → Bytes → Bytes → Reader → PutOptions → Files → Result ServiceError (ℕ × Bytes) × Files
  put_bytes b key version_id r o files =
      if is_real_version version_id
      then put_versioned_object sha256 fs md5 b.name key version_id r o files
      else put_object sha256 fs md5 b.name key r o files

  abbrev pub record_written :
      Bucket → PutInput → Bytes → ℕ → State → Result ServiceError (ℕ × Bytes) × Files → Outcome
  record_written b i version_id now s (err e, files) = (err e, record s { files = files })
  record_written b i version_id now s (ok (size, etag), files) =
      commit cfg b i.key version_id size etag i.content_type i.metadata
        (or_default i.event_type (codes "s3:ObjectCreated:Put")) i.skip_image now
        (record s { files = files })

  abbrev pub after_declared :
      Bucket → PutInput → ℕ → Bytes → State → Result ServiceError (Unit {0}) → Outcome
  after_declared b i now new_version s (err e) = (err e, s)
  after_declared b i now new_version s (ok _) =
      let version_id = version_id_for_put b new_version in
      record_written b i version_id now s
        (put_bytes b i.key version_id i.body (put_options b i s.table) s.files)

  -- `Put`
  unfoldable pub put : Bucket → PutInput → ℕ → Bytes → State → Outcome
  put b i now new_version s =
      after_declared b i now new_version s (check_declared b i s.table i.declared_size)
