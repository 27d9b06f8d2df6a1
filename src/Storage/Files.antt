-- ===== src/Storage/Files.antt =====
-- storage/filesystem.go: the files of a store, as a map from absolute paths to their bytes. A write is
-- its effect; directories, temporary files and failures of the operating system are left out. MD5 and
-- SHA-256 are parameters.
pub mod Writes
use mathlib.Core.Option
use cloodsy_s.Prelude.{
  ℕ, zero, suc, ◌+◌, ◌/◌, ◌%◌, ◌==◌, ltb, leb, Bool, true, false, not, ◌&&◌, ◌||◌, Option, none,
  some, List, [], ◌∷◌, ◌++◌, any, all, keep, length, Bytes, bytes_eq, codes, non_empty, has_prefix,
  contains_byte, split_on, map, hex_encode, lookup, insert_at, if◌then◌else◌,
}
use cloodsy_s.Prelude.Result.{Result, ok, err, ◌>>=◌, ◌>>◌, refuse_if, or_refuse}
use cloodsy_s.Handler.Validation.{is_valid_bucket_name}
use cloodsy_s.Service.Errors.{ServiceError, too_large, other_error}
use cloodsy_s.Storage.KeyPath.{encode_key_path, safe_ext, version_sep}

pub record FileSystem : Type 0 where
  pub root_dir : Bytes
  pub custom_dirs : List (Bytes × Bytes)

abbrev pub Files : Type 0
Files = List (Bytes × Bytes)

-- What a reader gives: bytes, and then its end or an error.
pub record Reader : Type 0 where
  pub bytes : Bytes
  pub failure : Option ServiceError

-- A size limit of 0 is none.
pub record PutOptions : Type 0 where
  pub max_size : ℕ
  pub verify : ℕ → Bytes → Result ServiceError (Unit {0})

abbrev pub custom_or : Bytes → Option Bytes → Bytes
custom_or root none = root
custom_or root (some dir) = if non_empty dir then dir else root

unfoldable pub bucket_base_path : FileSystem → Bytes → Bytes
bucket_base_path fs bucket = custom_or fs.root_dir (lookup bucket fs.custom_dirs)

unfoldable pub bucket_root : FileSystem → Bytes → Option Bytes
unfolding bucket_base_path
bucket_root fs bucket =
    if is_valid_bucket_name bucket
    then some (bucket_base_path fs bucket ++ (b'/' ∷ bucket))
    else none

unfoldable pub sibling_dir : FileSystem → Bytes → Bytes → Option Bytes
unfolding bucket_base_path
sibling_dir fs bucket suffix =
    if is_valid_bucket_name bucket
    then some (bucket_base_path fs bucket ++ (codes "/." ++ (bucket ++ (b'-' ∷ suffix))))
    else none

-- `filepath.Join` of a clean root and a relative path whose segments are neither empty nor dots.
unfoldable pub safe_join : Bytes → Bytes → Option Bytes
safe_join root rel =
    let joined : Bytes = root ++ (b'/' ∷ rel) in
    if not (bytes_eq joined root) && not (has_prefix joined (root ++ (b'/' ∷ [])))
    then none
    else some joined

-- The limit of a write: one byte more than allowed is read.
abbrev pub exceeds : ℕ → Bytes → Bool
exceeds max_size bytes = not (max_size == 0) && ltb max_size (length bytes)

abbrev pub read_result : PutOptions → Reader → Result ServiceError Bytes
read_result o r =
    if exceeds o.max_size r.bytes
    then err too_large
    else elim r.failure [ some e ↦ err e | none ↦ ok r.bytes ]

unfoldable pub quote_etag : Bytes → Bytes
quote_etag sum = (b'"' ∷ hex_encode sum) ++ (b'"' ∷ [])

-- The size and the MD5 of a written file, or an error; and the files after it.
abbrev pub Written : Type 0
Written = Result ServiceError (ℕ × Bytes) × Files

module _ (md5 : Bytes → Bytes) where
  abbrev pub renamed : Bytes → Bytes → Files → Result ServiceError (Unit {0}) → Written
  renamed dst content files (err e) = (err e, files)
  renamed dst content files (ok _) = (ok (length content, md5 content), insert_at dst content files)

  abbrev pub check_then_rename : Bytes → PutOptions → Files → Result ServiceError Bytes → Written
  check_then_rename dst o files (err e) = (err e, files)
  check_then_rename dst o files (ok content) =
      renamed dst content files (o.verify (length content) (md5 content))

  unfoldable pub write_atomic : Bytes → Reader → PutOptions → Files → Written
  write_atomic dst r o files = check_then_rename dst o files (read_result o r)

  abbrev pub with_etag : Written → Written
  with_etag (err e, files) = (err e, files)
  with_etag (ok (size, sum), files) = (ok (size, quote_etag sum), files)

  -- A write to a path that may be refused.
  abbrev pub put_at : Option Bytes → Reader → PutOptions → Files → Written
  put_at none r o files = (err other_error, files)
  put_at (some dst) r o files = with_etag (write_atomic dst r o files)

abbrev pub open_regular : Option Bytes → Files → Result ServiceError Bytes
open_regular none files = err other_error
open_regular (some path) files = or_refuse (lookup path files) other_error

-- A missing file is no error.
abbrev pub remove_at : Option Bytes → Files → Files
remove_at none files = files
remove_at (some path) files = keep (λ f. not (bytes_eq f.0 path)) files

abbrev pub bad_version_id : Bytes → Bool
bad_version_id v =
    not (non_empty v)
    || (contains_byte b'/' v || (contains_byte b'\\' v || contains_byte 0 v))
    || (bytes_eq v (codes ".") || bytes_eq v (codes ".."))

module _ (sha256 : Bytes → Bytes) (fs : FileSystem) where
  -- The path of a key in its bucket, without the extension.
  abbrev pub key_path : Bytes → Bytes → Option Bytes
  key_path bucket key =
      Option.bind (bucket_root fs bucket)
        (λ root. Option.bind (encode_key_path sha256 key) (safe_join root))

  unfoldable pub object_path : Bytes → Bytes → Option Bytes
  object_path bucket key = Option.map (λ p. p ++ safe_ext) (key_path bucket key)

  unfoldable pub versioned_object_path : Bytes → Bytes → Bytes → Option Bytes
  versioned_object_path bucket key version_id =
      if bad_version_id version_id
      then none
      else Option.map (λ p. p ++ (version_sep ++ (version_id ++ safe_ext))) (key_path bucket key)

  unfoldable pub put_object :
      (Bytes → Bytes) → Bytes → Bytes → Reader → PutOptions → Files → Written
  put_object md5 bucket key r o files = put_at md5 (object_path bucket key) r o files

  unfoldable pub get_object : Bytes → Bytes → Files → Result ServiceError Bytes
  get_object bucket key files = open_regular (object_path bucket key) files

  unfoldable pub delete_object_file : Bytes → Bytes → Files → Files
  delete_object_file bucket key files = remove_at (object_path bucket key) files

  unfoldable pub put_versioned_object :
      (Bytes → Bytes) → Bytes → Bytes → Bytes → Reader → PutOptions → Files → Written
  put_versioned_object md5 bucket key version_id r o files =
      put_at md5 (versioned_object_path bucket key version_id) r o files

  unfoldable pub get_versioned_object : Bytes → Bytes → Bytes → Files → Result ServiceError Bytes
  get_versioned_object bucket key version_id files =
      open_regular (versioned_object_path bucket key version_id) files

  unfoldable pub delete_versioned_file : Bytes → Bytes → Bytes → Files → Files
  delete_versioned_file bucket key version_id files =
      remove_at (versioned_object_path bucket key version_id) files
