-- ===== src/Tests/Requests.antt =====
-- Signed requests, and the theorems on authentication and on headers applied to them. The hash and
-- the HMAC are short stand-ins.
use cloodsy_s.Prelude.{
  ℕ, ◌+◌, ◌*◌, ◌≡◌, refl, true, false, none, some, [], ◌∷◌, ◌++◌, take, Bytes, codes, non_empty,
  has_prefix, split_on, cut_byte, trim_space, bytes_eq, to_lower, hex_encode, parse_int,
  contains_byte,
}
use cloodsy_s.S3Err.{plain, access_denied}
use cloodsy_s.Auth.Result.{err}
use cloodsy_s.Auth.SigTime.{parse_sig_time, nanos}
use cloodsy_s.Auth.Request.{HttpRequest, Fields, get}
use cloodsy_s.Auth.Parsing.{
  SigV4Auth, parse_authorization_header, check_components, add_components, has_host,
  validate_presigned_expiry,
}
use cloodsy_s.Auth.Parsing.Accepts.{IsCurrent}
use cloodsy_s.Auth.Canonical.{build_canonical_request}
use cloodsy_s.Auth.Verify.{
  without_signature, request_date, scope_of, verify_signature, is_skewed, expected_signature,
  verify_presigned_signature,
}
use cloodsy_s.Auth.Verify.Sound.{
  IsTimely, IsSigned, verify_signature-IsSigned, verify_presigned_signature-IsSigned,
}
use cloodsy_s.Service.Objects.{Bucket}
use cloodsy_s.Handler.Validation.{is_valid_object_key}
use cloodsy_s.Handler.Validation.Names.{IsKey}
use cloodsy_s.Handler.Objects.{authorize_put}
use cloodsy_s.Handler.Objects.Guards.{authorize_put-IsKey}
use cloodsy_s.Handler.Access.{
  has_auth, authenticate_request, require_credential, credential_with, require_bucket, bucket_named,
  check_bucket_access, check_write_access, BucketCredential, Context, authenticate_or_public,
  authorize_write,
}
use cloodsy_s.Handler.Access.Sound.{
  IsReadable, IsVouched, Owns, authenticate_or_public-IsReadable, authorize_write-IsVouched,
}

abbrev pub toy_hmac : Bytes → Bytes → Bytes
toy_hmac key message = take 2 message ++ take 1 key

abbrev pub toy_sha : Bytes → Bytes
toy_sha s = take 2 s

abbrev new_year : ℕ
new_year = 63934444800 * nanos

unix_epoch : parse_sig_time (codes "19700101T000000Z") ≡ some (62167219200 * nanos)
unfolding parse_sig_time
unix_epoch = refl

abbrev header : Bytes
header =
    codes
      "AWS4-HMAC-SHA256 Credential=AK/20260101/us-east-1/s3/aws4_request, SignedHeaders=host, Signature=415761"

abbrev get_request : HttpRequest
get_request = record {
  method = codes "GET";
  path = codes "/photos/k";
  host = codes "h";
  headers =
      (codes "authorization", header ∷ [])
      ∷ (codes "x-amz-date", codes "20260101T000000Z" ∷ [])
      ∷ (codes "x-amz-content-sha256", codes "UNSIGNED-PAYLOAD" ∷ [])
      ∷ [];
  query = [];
  http_date = none;
}

abbrev parsed : SigV4Auth
parsed = record {
  access_key = codes "AK";
  signed_headers = codes "host" ∷ [];
  signature = codes "415761";
  region = codes "us-east-1";
  service = codes "s3";
  date = codes "20260101";
  credential = codes "AK/20260101/us-east-1/s3/aws4_request";
  amz_date = [];
  scope = [];
}

abbrev accepted : SigV4Auth
accepted = record parsed {
  amz_date = codes "20260101T000000Z";
  scope = codes "20260101/us-east-1/s3/aws4_request";
}

-- Five minutes late.
abbrev later : ℕ
later = new_year + 300 * nanos

verify_signature-IsSigned_example :
    IsTimely later (request_date get_request)
    × (parsed.service ≡ codes "s3")
    × (non_empty (get get_request.headers (codes "x-amz-content-sha256")) ≡ true)
    × IsSigned toy_hmac toy_sha
        (codes "sk")
        (request_date get_request)
        (codes "us-east-1")
        (build_canonical_request get_request parsed.signed_headers
          (get get_request.headers (codes "x-amz-content-sha256"))
          get_request.query)
        parsed
    × (accepted ≡ record parsed {
      amz_date = request_date get_request;
      scope = scope_of (take 8 (request_date get_request)) (codes "us-east-1");
    })
unfolding verify_signature request_date get bytes_eq parse_sig_time is_skewed expected_signature
    hex_encode
verify_signature-IsSigned_example =
    verify_signature-IsSigned toy_hmac toy_sha later get_request (codes "sk") (codes "us-east-1")
      parsed accepted refl

abbrev link : Fields
link =
    (codes "X-Amz-Algorithm", codes "AWS4-HMAC-SHA256" ∷ [])
    ∷ (codes "X-Amz-Credential", codes "AK/20260101/us-east-1/s3/aws4_request" ∷ [])
    ∷ (codes "X-Amz-Date", codes "20260101T000000Z" ∷ [])
    ∷ (codes "X-Amz-Expires", codes "600" ∷ [])
    ∷ (codes "X-Amz-SignedHeaders", codes "host" ∷ [])
    ∷ (codes "X-Amz-Signature", codes "415761" ∷ [])
    ∷ []

abbrev linked : HttpRequest
linked = record get_request { headers = []; query = link }

verify_presigned_signature-IsSigned_example :
    IsCurrent later link
    × IsSigned toy_hmac toy_sha
        (codes "sk")
        (codes "20260101T000000Z")
        (codes "us-east-1")
        (build_canonical_request linked
          (codes "host" ∷ [])
          (codes "UNSIGNED-PAYLOAD")
          (without_signature link))
        parsed
unfolding verify_presigned_signature validate_presigned_expiry get bytes_eq parse_int parse_sig_time
    expected_signature hex_encode
verify_presigned_signature-IsSigned_example =
    verify_presigned_signature-IsSigned toy_hmac toy_sha later linked (codes "sk")
      (codes "us-east-1") parsed accepted refl

abbrev photos : Bucket
photos = record {
  id = 7;
  name = codes "photos";
  quota_bytes = 0;
  versioning = [];
  storage_dir = [];
  public_read = false;
  webdav_enabled = false;
  created_at = 0;
}

abbrev owner : BucketCredential
owner = record {
  id = 1;
  bucket_id = 7;
  name = codes "owner";
  access_key = codes "AK";
  secret_key = codes "sk";
  permission = codes "read-write";
  created_at = 0;
}

abbrev server : Context
server = record {
  buckets = photos ∷ [];
  credentials = owner ∷ [];
  readable = true;
  region = codes "us-east-1";
  require_payload_signature = false;
  now = later;
}

authenticate_or_public-IsReadable_example :
    IsReadable toy_hmac toy_sha server get_request (codes "photos") photos (some (owner, accepted))
unfolding authenticate_or_public parse_authorization_header has_prefix check_components
    add_components split_on cut_byte trim_space bytes_eq has_host to_lower verify_signature
    request_date get parse_sig_time is_skewed expected_signature hex_encode has_auth
    authenticate_request require_credential credential_with require_bucket bucket_named
    check_bucket_access
authenticate_or_public-IsReadable_example =
    authenticate_or_public-IsReadable toy_hmac toy_sha server get_request (codes "photos") photos
      (some (owner, accepted)) refl

-- Without a signature the private bucket is closed.
closed :
    authenticate_or_public toy_hmac toy_sha server
      (record get_request { headers = [] })
      (codes "photos")
    ≡ err (plain access_denied)
unfolding authenticate_or_public has_auth get require_bucket bytes_eq
closed = refl

authorize_write-IsVouched_example :
    (bytes_eq owner.permission (codes "read-only") ≡ false)
    × Owns server owner (codes "photos") photos
    × ((a : SigV4Auth) × IsVouched toy_hmac toy_sha server get_request (owner, a))
unfolding authorize_write check_write_access parse_authorization_header has_prefix check_components
    add_components split_on cut_byte trim_space bytes_eq has_host to_lower verify_signature
    request_date get parse_sig_time is_skewed expected_signature hex_encode has_auth
    authenticate_request require_credential credential_with require_bucket bucket_named
    check_bucket_access
authorize_write-IsVouched_example =
    authorize_write-IsVouched toy_hmac toy_sha server get_request (codes "photos") photos owner refl

authorize_put-IsKey_example :
    IsKey (codes "k")
    × (bytes_eq owner.permission (codes "read-only") ≡ false)
    × Owns server owner (codes "photos") photos
    × ((a : SigV4Auth) × IsVouched toy_hmac toy_sha server get_request (owner, a))
unfolding authorize_put is_valid_object_key contains_byte check_write_access
    parse_authorization_header has_prefix check_components add_components split_on cut_byte
    trim_space bytes_eq has_host to_lower verify_signature request_date get parse_sig_time is_skewed
    expected_signature hex_encode has_auth authenticate_request require_credential credential_with
    require_bucket bucket_named check_bucket_access
authorize_put-IsKey_example =
    authorize_put-IsKey toy_hmac toy_sha server get_request (codes "photos") (codes "k") photos
      owner refl
