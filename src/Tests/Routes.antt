-- ===== src/Tests/Routes.antt =====
-- Routes, names, paths and headers: runs, and the theorems applied to them.
use cloodsy_s.Prelude.{
  ℕ, ◌≡◌, refl, ◌⊎◌, true, false, Option, none, List, [], ◌∷◌, map, All, Bytes, codes, bytes_eq,
  non_empty, split_on, trim_prefix, arith, to_lower, has_prefix, has_suffix, cut_byte,
  contains_byte, trim_suffix, join_with, valid_utf8, contains, index_of, to_upper, hex_encode,
  trim_space, parse_int, to_upper_byte,
}
use cloodsy_s.Auth.Request.{HttpRequest, get}
use cloodsy_s.Server.Router.{
  Request, route, names_one_of, route_bucket, delete_on_bucket, has_any_subresource,
}
use cloodsy_s.Server.Router.Guards.{IsBare, bare_method, route-IsBare}
use cloodsy_s.Server.Masking.{
  mask_part, mask_presigned_query, IsRedacted, mask_presigned_query-IsRedacted,
}
use cloodsy_s.Server.Resolve.{resolve, virtual_bucket, split_host_port}
use cloodsy_s.Server.Resolve.Sound.{SelectedBy, SpelledBy, host_name, resolve_sound}
use cloodsy_s.Storage.KeyPath.{
  encode_key_path, encode_segment, segment_is_safe, safe_bytes, is_device_name, plain_byte,
}
use cloodsy_s.Storage.KeyPath.Injective.{encode_key_path_inj}
use cloodsy_s.Handler.Ranges.{span, unsatisfiable, parse_range}
use cloodsy_s.Handler.Ranges.Bounds.{Fits, parse_range-Fits}
use cloodsy_s.Handler.Conditional.{not_modified, check_conditional}

abbrev delete_request : Request
delete_request = record { method = codes "DELETE"; query = codes "x-id" ∷ []; copy_source = [] }

route-IsBare_example :
    (bytes_eq delete_request.method (bare_method true) ≡ true)
    × (non_empty (codes "photos") ≡ true)
    × (non_empty [] ≡ false)
    × IsBare delete_request
unfolding route route_bucket names_one_of bytes_eq delete_on_bucket has_any_subresource
route-IsBare_example = route-IsBare (codes "photos") [] delete_request true refl

abbrev put_request : Request
put_request = record { method = codes "PUT"; query = []; copy_source = [] }

abbrev raw_query : Bytes
raw_query = codes "X-Amz-Signature=ab&list-type=2"

mask_presigned_query-IsRedacted_example :
    (split_on b'&' (mask_presigned_query raw_query) ≡ map mask_part (split_on b'&' raw_query))
    × All IsRedacted (split_on b'&' (mask_presigned_query raw_query))
mask_presigned_query-IsRedacted_example = mask_presigned_query-IsRedacted raw_query

abbrev domains : List Bytes
domains = codes "s3.example.com" ∷ []

resolved :
    resolve domains (codes "photos.s3.example.com:443") (codes "/a/k")
    ≡ (codes "photos", codes "a/k")
unfolding resolve virtual_bucket to_lower trim_prefix has_prefix has_suffix split_host_port cut_byte
    contains_byte bytes_eq trim_suffix
resolved = refl

resolve_sound_example :
    (SelectedBy
        (host_name (codes "photos.s3.example.com"))
        domains
        (resolve domains (codes "photos.s3.example.com") (codes "/a/k")).0
      × ((resolve domains (codes "photos.s3.example.com") (codes "/a/k")).1
          ≡ trim_prefix (codes "/a/k") (codes "/")))
    ⊎ (((b : Bytes) → ¬ SelectedBy (host_name (codes "photos.s3.example.com")) domains b)
        × SpelledBy
            (trim_prefix (codes "/a/k") (codes "/"))
            (resolve domains (codes "photos.s3.example.com") (codes "/a/k")))
resolve_sound_example = resolve_sound domains (codes "photos.s3.example.com") (codes "/a/k")

abbrev same_hash : Bytes → Bytes
same_hash s = s

abbrev climbing : Bytes
climbing = codes "a/.."

encode_key_path_inj_example : climbing ≡ climbing
unfolding split_on encode_key_path contains_byte join_with encode_segment segment_is_safe safe_bytes
    bytes_eq valid_utf8 has_suffix contains index_of has_prefix to_upper cut_byte hex_encode
    to_upper_byte is_device_name plain_byte
encode_key_path_inj_example =
    encode_key_path_inj same_hash climbing climbing (codes "a/%2E2E")
      (omega arith, (omega arith, (omega arith, (omega arith, tt))))
      (omega arith, (omega arith, (omega arith, (omega arith, tt))))
      (((λ e. e), ((λ e. e), tt)), ((((λ e. e), ((λ e. e), tt))), tt)) refl refl

parse_range-Fits_example : Fits 100 (parse_range (codes "bytes=90-200") 100)
parse_range-Fits_example = parse_range-Fits (codes "bytes=90-200") 100

clamped : parse_range (codes " bytes=90-200") 100 ≡ span 90 99
unfolding parse_range has_prefix trim_space contains_byte cut_byte parse_int
clamped = refl

suffix_of_nothing : parse_range (codes "bytes=-5") 0 ≡ unsatisfiable
unfolding parse_range has_prefix trim_space contains_byte cut_byte parse_int
suffix_of_nothing = refl

abbrev polling : HttpRequest
polling = record {
  method = codes "GET";
  path = codes "/photos/k";
  host = codes "h";
  headers = (codes "if-none-match", codes "W/\"abc\", \"def\"" ∷ []) ∷ [];
  query = [];
  http_date = none;
}

abbrev no_time : Bytes → Option ℕ
no_time s = none

answered_304 : check_conditional no_time polling (codes "\"def\"") 5 ≡ not_modified
unfolding check_conditional get bytes_eq trim_space split_on trim_prefix has_prefix
answered_304 = refl
