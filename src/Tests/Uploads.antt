-- ===== src/Tests/Uploads.antt =====
-- Writes and multipart uploads on a small store, and the theorems on them applied there. MD5 and SHA-256
-- are short stand-ins.
use cloodsy_s.Storage.Parts.{
  assemble_multipart_parts, assemble_multipart_parts_versioned, concatenate, delete_multipart_parts,
  is_valid_uuid, multipart_dir, multipart_etag, part_path,
}
use cloodsy_s.Storage.KeyPath.{
  encode_key_path, encode_segment, is_device_name, plain_byte, safe_bytes, segment_is_safe,
}
use cloodsy_s.Service.Quota.{check_quota, credit}
use cloodsy_s.Handler.Validation.{is_valid_bucket_name, matches_bucket_name}
use cloodsy_s.Db.Query.{last_match, update_where}
use mathlib.Core.Option
use cloodsy_s.Prelude.{
  ℕ, ◌≡◌, ◌≢◌, ◌<◌, ◌≤◌, refl, true, false, none, some, List, [], ◌∷◌, length, take, bytes_eq,
  bytes_eq_iff, Bytes, codes, arith, split_on, bytes_eq, contains, contains_byte, cut_byte,
  has_prefix, has_suffix, hex_encode, index_of, insert_at, is_space, join_with, lookup, to_lower,
  to_lower_byte, to_upper, to_upper_byte, trim_left, trim_right, trim_space, valid_utf8,
  decimal_digits, itoa,
}
use cloodsy_s.Prelude.Result.{ok}
use cloodsy_s.Db.Objects.{
  get_bucket_usage, get_object_meta, is_current, is_object, of_key, of_version,
  put_object_meta_versioned, sum_sizes,
}
use cloodsy_s.Db.Multipart.{MultipartUpload, MultipartPart, Staging, delete_multipart_upload}
use cloodsy_s.Service.Objects.{Bucket, is_real_version, version_id_for_put}
use cloodsy_s.Service.Writes.{
  ImageConfig, PutInput, State, put, check_declared, check_room, commit, is_image_content_type,
  put_options, queue_image,
}
use cloodsy_s.Service.Writes.Readback.{IsRecorded, put-IsRecorded}
use cloodsy_s.Storage.Files.{
  FileSystem, Reader, PutOptions, put_object, get_object, put_versioned_object,
  get_versioned_object, bucket_base_path, bucket_root, object_path, quote_etag, safe_join,
  versioned_object_path, write_atomic, sibling_dir,
}
use cloodsy_s.Storage.Files.Writes.{IsStored, put_object-IsStored, get_object-put_other}
use cloodsy_s.Handler.Multipart.{
  CompletePart, Plan, max_parts, max_multipart_size, validate_parts, check_quota_for, check_order,
  check_parts,
}
use cloodsy_s.Handler.Multipart.Effects.{World, finish_completion, completion_options}
use cloodsy_s.Handler.Multipart.Parts.{
  IsAscending, AreStored, sum_of_sizes, validate_parts-AreStored,
}
use cloodsy_s.Handler.Multipart.Completion.{IsCompleted, finish_completion-IsCompleted}
use cloodsy_s.Tests.{first_version, first_version-IsWellFormed}

abbrev toy_sum : Bytes → Bytes
toy_sum s = take 2 s

abbrev disk : FileSystem
disk = record { root_dir = codes "/srv"; custom_dirs = [] }

abbrev images : ImageConfig
images = record { image_enabled = true; max_source_bytes = 0; sync_max_bytes = 10 }

abbrev album : Bucket
album = record {
  id = 1;
  name = codes "album";
  quota_bytes = 10;
  versioning = [];
  storage_dir = [];
  public_read = false;
  webdav_enabled = false;
  created_at = 0;
}

abbrev sent : Reader
sent = record { bytes = codes "abc"; failure = none }

abbrev unchecked : PutOptions
unchecked = record { max_size = 5; verify = λ size sum. ok tt }

put_object-IsStored_example :
    IsStored toy_sum sent unchecked []
      (get_object toy_sum disk (codes "album") (codes "k"))
      (put_object toy_sum disk toy_sum (codes "album") (codes "k") sent unchecked [])
    × IsStored toy_sum sent unchecked []
        (get_versioned_object toy_sum disk (codes "album") (codes "k") (codes "v1"))
        (put_versioned_object toy_sum disk toy_sum
          (codes "album")
          (codes "k")
          (codes "v1")
          sent
          unchecked
          [])
put_object-IsStored_example =
    put_object-IsStored toy_sum disk (codes "album") toy_sum (codes "k") sent unchecked []
      (codes "v1")

k≢l : codes "k" ≢ codes "l"
unfolding bytes_eq
k≢l e = let h = (bytes_eq_iff (codes "k") (codes "l")).1 e in cc

get_object-put_other_example :
    get_object toy_sum disk
      (codes "album")
      (codes "l")
      (put_object toy_sum disk toy_sum (codes "album") (codes "k") sent unchecked []).1
    ≡ get_object toy_sum disk (codes "album") (codes "l") []
unfolding split_on
get_object-put_other_example =
    get_object-put_other toy_sum disk (codes "album") toy_sum (codes "k") sent unchecked []
      (codes "l") (omega arith, tt) (omega arith, tt) (((λ e. e), tt), tt) k≢l

abbrev upload_abc : PutInput
upload_abc = record {
  key = codes "k";
  body = sent;
  content_type = codes "image/png";
  metadata = [];
  declared_size = some 3;
  max_size = 5;
  verify = λ size sum. ok tt;
  event_type = [];
  skip_image = false;
}

abbrev before : State
before = record { table = first_version; files = []; calls = [] }

put_run :
    (put toy_sum toy_sum images disk album upload_abc 9 [] before).0
    ≡ ok (record { size = 3; etag = codes "\"6162\""; version_id = []; last_modified = 9 })
unfolding Option.bind bytes_eq get_bucket_usage get_object_meta is_current is_object of_key
    of_version put_object_meta_versioned sum_sizes update_where is_valid_bucket_name
    matches_bucket_name contains contains_byte cut_byte has_prefix has_suffix hex_encode index_of
    insert_at is_space join_with lookup to_lower to_lower_byte to_upper to_upper_byte trim_left
    trim_right trim_space valid_utf8 is_real_version version_id_for_put check_quota credit
    check_declared check_room commit is_image_content_type put_options queue_image bucket_base_path
    bucket_root object_path quote_etag safe_join versioned_object_path write_atomic encode_key_path
    encode_segment is_device_name plain_byte safe_bytes segment_is_safe last_match put put_object
    put_versioned_object split_on
put_run = refl

put-IsRecorded_example :
    IsRecorded toy_sum toy_sum images disk album
      (codes "k")
      (codes "abc")
      before
      (put toy_sum toy_sum images disk album upload_abc 9 [] before)
put-IsRecorded_example =
    put-IsRecorded toy_sum toy_sum images disk album upload_abc 9 before []
      first_version-IsWellFormed

abbrev upload_id : Bytes
upload_id = codes "00000000-1111-2222-3333-444444444444"

abbrev upload : MultipartUpload
upload = record {
  id = upload_id;
  bucket_id = 1;
  key = codes "k";
  content_type = codes "text/plain";
  metadata = [];
  created_at = 4;
}

abbrev part : ℕ → ℕ → MultipartPart
part number size = record {
  upload_id = upload_id;
  part_number = number;
  size = size;
  etag = codes "\"6162\"";
  created_at = 5;
}

abbrev staged : Staging
staged = record { uploads = upload ∷ []; parts = part 1 2 ∷ [] }

abbrev named : List CompletePart
named =
    record { part_number = 1; etag = codes "6162" }
    ∷ record { part_number = 4; etag = codes "6162" }
    ∷ []

validate_parts-AreStored_example :
    (chosen : List MultipartPart) × (0 < length named)
    × (2 ≤ max_parts)
    × IsAscending 0 named
    × AreStored (part 1 5242880 ∷ part 4 2 ∷ []) named chosen
    × ◌≡◌ {A = List ℕ} (1 ∷ 4 ∷ []) (1 ∷ 4 ∷ [])
    × (5242882 ≡ sum_of_sizes chosen)
    × (5242882 ≤ max_multipart_size)
unfolding bytes_eq check_order check_parts trim_right last_match validate_parts
validate_parts-AreStored_example =
    validate_parts-AreStored (part 1 5242880 ∷ part 4 2 ∷ []) named (1 ∷ 4 ∷ []) 5242882 refl

abbrev plan : Plan
plan = record { bucket = album; upload = upload; numbers = 1 ∷ [] }

abbrev world : World
world = record {
  staging = staged;
  state = record {
    table = first_version;
    files =
        (
          codes "/srv/.album-multipart/00000000-1111-2222-3333-444444444444/1.cloodsys3ext",
          codes "ab",
        )
        ∷ [];
    calls = [];
  };
}

completed_run :
    (finish_completion toy_sum toy_sum images disk (codes "k") 9 plan [] world).0
    ≡ ok (record { size = 2; etag = codes "\"6162-1\""; version_id = []; last_modified = 9 })
unfolding Option.bind bytes_eq delete_multipart_upload get_bucket_usage get_object_meta is_current
    is_object of_key of_version put_object_meta_versioned sum_sizes update_where check_quota_for
    completion_options is_valid_bucket_name matches_bucket_name contains contains_byte cut_byte
    decimal_digits has_prefix has_suffix hex_encode index_of insert_at is_space itoa join_with
    lookup to_lower to_lower_byte to_upper to_upper_byte trim_left trim_right trim_space valid_utf8
    is_real_version version_id_for_put check_quota credit commit is_image_content_type queue_image
    bucket_base_path bucket_root object_path safe_join sibling_dir versioned_object_path
    write_atomic encode_key_path encode_segment is_device_name plain_byte safe_bytes segment_is_safe
    assemble_multipart_parts assemble_multipart_parts_versioned concatenate delete_multipart_parts
    is_valid_uuid multipart_dir multipart_etag part_path finish_completion last_match split_on
completed_run = refl

finish_completion-IsCompleted_example :
    IsCompleted toy_sum toy_sum images disk
      (codes "k")
      plan
      world
      (finish_completion toy_sum toy_sum images disk (codes "k") 9 plan [] world)
finish_completion-IsCompleted_example =
    finish_completion-IsCompleted toy_sum toy_sum images disk (codes "k") plan 9 [] world
      first_version-IsWellFormed
