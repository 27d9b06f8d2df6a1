-- ===== src/Storage/Parts.antt =====
-- storage/filesystem.go: the staged parts of multipart uploads, and their assembly.
pub mod Assembly
pub mod Apart
use mathlib.Core.Option
use cloodsy_s.Prelude.{
  ℕ, zero, suc, ◌==◌, ltb, leb, Bool, true, false, not, ◌&&◌, ◌||◌, Option, none, some, List, [],
  ◌∷◌, ◌++◌, all, keep, length, Bytes, bytes_eq, codes, has_prefix, split_on, hex_encode, itoa,
  lookup, if◌then◌else◌,
}
use cloodsy_s.Prelude.Result.{Result, ok, err}
use cloodsy_s.Service.Errors.{ServiceError, other_error}
use cloodsy_s.Storage.KeyPath.{safe_ext}
use cloodsy_s.Storage.Files.{
  FileSystem, Files, Reader, PutOptions, Written, sibling_dir, write_atomic, put_at, remove_at,
  open_regular, object_path, versioned_object_path,
}

-- `[0-9a-f]`
abbrev pub is_lower_hex : ℕ → Bool
is_lower_hex c = (leb b'0' c && leb c b'9') || (leb b'a' c && leb c b'f')

-- Groups of hexadecimal digits of the given lengths.
abbrev pub has_groups : List ℕ → List Bytes → Bool
has_groups [] [] = true
has_groups (n ∷ ns) (g ∷ gs) = length g == n && (all is_lower_hex g && has_groups ns gs)
has_groups [] (_ ∷ _) = false
has_groups (_ ∷ _) [] = false

-- The pattern `validUUID`.
unfoldable pub is_valid_uuid : Bytes → Bool
is_valid_uuid s = has_groups (8 ∷ 4 ∷ 4 ∷ 4 ∷ 12 ∷ []) (split_on b'-' s)

unfoldable pub multipart_dir : FileSystem → Bytes → Bytes → Option Bytes
unfolding is_valid_uuid
multipart_dir fs bucket upload_id =
    if is_valid_uuid upload_id
    then Option.map (λ base. base ++ (b'/' ∷ upload_id)) (sibling_dir fs bucket (codes "multipart"))
    else none

unfoldable pub part_path : Bytes → ℕ → Option Bytes
part_path dir part_number =
    if ltb part_number 1 || ltb 10000 part_number
    then none
    else some (dir ++ (b'/' ∷ itoa part_number) ++ safe_ext)

unfoldable pub staged_path : FileSystem → Bytes → Bytes → ℕ → Option Bytes
staged_path fs bucket upload_id part_number = elim (multipart_dir fs bucket upload_id) [
  | none ↦ none
  | some dir ↦ part_path dir part_number
]

unfoldable pub put_multipart_part :
    (Bytes → Bytes) → FileSystem → Bytes → Bytes → ℕ → Reader → PutOptions → Files → Written
put_multipart_part md5 fs bucket upload_id part_number r o files =
    put_at md5 (staged_path fs bucket upload_id part_number) r o files

unfoldable pub delete_multipart_part : FileSystem → Bytes → Bytes → ℕ → Files → Files
delete_multipart_part fs bucket upload_id part_number files =
    remove_at (staged_path fs bucket upload_id part_number) files

-- `os.RemoveAll`
abbrev pub remove_tree : Option Bytes → Files → Files
remove_tree none files = files
remove_tree (some dir) files =
    keep (λ f. not (bytes_eq f.0 dir || has_prefix f.0 (dir ++ (b'/' ∷ [])))) files

unfoldable pub delete_multipart_parts : FileSystem → Bytes → Bytes → Files → Files
delete_multipart_parts fs bucket upload_id files =
    remove_tree (multipart_dir fs bucket upload_id) files

-- What the pipe gives: the parts up to the first that cannot be opened, and the digests of these.
pub record Concatenation : Type 0 where
  pub reader : Reader
  pub digests : Bytes

module _ (md5 : Bytes → Bytes) where
  abbrev pub prepend_part : Bytes → Concatenation → Concatenation
  prepend_part content c = record {
    reader = record { bytes = content ++ c.reader.bytes; failure = c.reader.failure };
    digests = md5 content ++ c.digests;
  }

  abbrev pub next_part : Result ServiceError Bytes → Concatenation → Concatenation
  next_part (err e) rest = record { reader = record { bytes = []; failure = some e }; digests = [] }
  next_part (ok content) rest = prepend_part content rest

  unfoldable pub concatenate : Bytes → List ℕ → Files → Concatenation
  concatenate dir [] files = record { reader = record { bytes = []; failure = none }; digests = [] }
  concatenate dir (n ∷ numbers) files =
      next_part (open_regular (part_path dir n) files) (concatenate dir numbers files)

  -- The MD5 of the digests, a dash and the number of parts, in quotes.
  unfoldable pub multipart_etag : Bytes → ℕ → Bytes
  multipart_etag digests count =
      (b'"' ∷ hex_encode (md5 digests)) ++ (b'-' ∷ itoa count) ++ (b'"' ∷ [])

  abbrev pub with_multipart_etag : Bytes → ℕ → Written → Written
  with_multipart_etag digests count (err e, files) = (err e, files)
  with_multipart_etag digests count (ok (size, sum), files) =
      (ok (size, multipart_etag digests count), files)

  abbrev pub assemble_from : Bytes → Option Bytes → List ℕ → PutOptions → Files → Written
  assemble_from dst none numbers o files = (err other_error, files)
  assemble_from dst (some dir) numbers o files =
      let c = concatenate dir numbers files in
      with_multipart_etag c.digests (length numbers) (write_atomic md5 dst c.reader o files)

  -- `assemble`, with the path of the object.
  abbrev pub assemble :
      FileSystem → Option Bytes → Bytes → Bytes → List ℕ → PutOptions → Files → Written
  assemble fs none bucket upload_id numbers o files = (err other_error, files)
  assemble fs (some dst) bucket upload_id numbers o files =
      assemble_from dst (multipart_dir fs bucket upload_id) numbers o files

  module _ (sha256 : Bytes → Bytes) (fs : FileSystem) where
    unfoldable pub assemble_multipart_parts :
        Bytes → Bytes → Bytes → List ℕ → PutOptions → Files → Written
    assemble_multipart_parts bucket key upload_id numbers o files =
        assemble fs (object_path sha256 fs bucket key) bucket upload_id numbers o files

    unfoldable pub assemble_multipart_parts_versioned :
        Bytes → Bytes → Bytes → Bytes → List ℕ → PutOptions → Files → Written
    assemble_multipart_parts_versioned bucket key version_id upload_id numbers o files =
        assemble fs (versioned_object_path sha256 fs bucket key version_id) bucket upload_id numbers
          o files
