-- ===== src/Handler/Access.antt =====
-- handler/common.go: who may touch a bucket. Queries of the database are first matches in its tables,
-- and every one fails where the database cannot be read.
pub mod Sound
use cloodsy_s.Prelude.{
  ℕ, ◌==◌, ltb, Bool, true, false, not, ◌&&◌, ◌||◌, Option, none, some, List, [], ◌∷◌, ◌++◌, take,
  length, Bytes, bytes_eq, codes, non_empty, if◌then◌else◌,
}
use cloodsy_s.S3Err.{
  Refusal, plain, with_message, wrong_region, access_denied, authorization_header_malformed,
  internal_error, invalid_access_key_id, invalid_request, missing_security_header, no_such_bucket,
  request_time_too_skewed, signature_does_not_match,
}
use cloodsy_s.Auth.Result.{
  AuthError, missing_date, invalid_date, time_skewed, date_mismatch, region_mismatch,
  service_mismatch, missing_content_sha, presigned_expired, presigned_not_yet, Result, ok, err,
  ◌>>=◌, ◌>>◌, refuse_if, or_refuse, error_text,
}
use cloodsy_s.Auth.Request.{HttpRequest, get}
use cloodsy_s.Auth.Parsing.{SigV4Auth, parse_authorization_header, parse_presigned_query}
use cloodsy_s.Auth.Verify.{verify_signature, verify_presigned_signature}
use cloodsy_s.Service.Objects.{Bucket}

pub record BucketCredential : Type 0 where
  pub id : ℕ
  pub bucket_id : ℕ
  pub name : Bytes
  pub access_key : Bytes
  pub secret_key : Bytes
  pub permission : Bytes
  pub created_at : ℕ

-- What the handlers read: the two tables, whether a query succeeds, the server's configuration and
-- the clock.
pub record Context : Type 0 where
  pub buckets : List Bucket
  pub credentials : List BucketCredential
  pub readable : Bool
  pub region : Bytes
  pub require_payload_signature : Bool
  pub now : ℕ

unfoldable pub bucket_named : Bytes → List Bucket → Option Bucket
bucket_named name [] = none
bucket_named name (b ∷ bs) = if bytes_eq b.name name then some b else bucket_named name bs

unfoldable pub credential_with : Bytes → List BucketCredential → Option BucketCredential
credential_with key [] = none
credential_with key (c ∷ cs) = if bytes_eq c.access_key key then some c else credential_with key cs

-- A bucket that a handler asks for by name.
unfoldable pub require_bucket : Context → Bytes → Result Refusal Bucket
unfolding bucket_named
require_bucket x name =
    refuse_if (not x.readable) (plain internal_error)
    >> or_refuse (bucket_named name x.buckets) (plain no_such_bucket)

unfoldable pub require_credential : Context → Bytes → Result Refusal BucketCredential
unfolding credential_with
require_credential x key =
    refuse_if (not x.readable) (plain internal_error)
    >> or_refuse (credential_with key x.credentials) (plain invalid_access_key_id)

-- `writeAuthError`
unfoldable pub auth_refusal : Bytes → AuthError → Refusal
auth_refusal region time_skewed = plain request_time_too_skewed
auth_refusal region region_mismatch = wrong_region region
auth_refusal region missing_date = with_message missing_security_header (error_text missing_date)
auth_refusal region invalid_date = with_message missing_security_header (error_text invalid_date)
auth_refusal region missing_content_sha =
    with_message missing_security_header (error_text missing_content_sha)
auth_refusal region presigned_expired = with_message access_denied (codes "Request has expired")
auth_refusal region presigned_not_yet = with_message access_denied (codes "Request has expired")
auth_refusal region date_mismatch =
    with_message authorization_header_malformed (error_text date_mismatch)
auth_refusal region service_mismatch =
    with_message authorization_header_malformed (error_text service_mismatch)
auth_refusal region _ = plain signature_does_not_match

-- The answer to an error of auth/.
abbrev pub answered {ℓ} :
    {A : Type ℓ} → (AuthError → Refusal) → Result AuthError A → Result Refusal A
answered f (ok a) = ok a
answered f (err e) = err (f e)

abbrev pub malformed_header : AuthError → Refusal
malformed_header e = with_message authorization_header_malformed (error_text e)

unfoldable pub mask_key : Bytes → Bytes
mask_key k = if ltb 6 (length k) then take 6 k ++ codes "***" else k

unfoldable pub has_auth : HttpRequest → Bool
has_auth r =
    non_empty (get r.headers (codes "authorization"))
    || non_empty (get r.query (codes "X-Amz-Algorithm"))

unfoldable pub check_bucket_access : Context → BucketCredential → Bytes → Result Refusal Bucket
check_bucket_access x cred bucket_name = require_bucket x bucket_name >>= λ b.
    refuse_if (not (cred.bucket_id == b.id)) (plain access_denied) >> ok b

unfoldable pub check_write_access : BucketCredential → Result Refusal (Unit {0})
check_write_access cred =
    refuse_if (bytes_eq cred.permission (codes "read-only")) (plain access_denied)

abbrev pub unsigned_refused : Context → HttpRequest → Bool
unsigned_refused x r =
    x.require_payload_signature
    && bytes_eq (get r.headers (codes "x-amz-content-sha256")) (codes "UNSIGNED-PAYLOAD")

-- A credential, and what the request was signed with.
abbrev pub Signed : Type 0
Signed = BucketCredential × SigV4Auth

module _ (hmac_sha256 : Bytes → Bytes → Bytes) (sha256 : Bytes → Bytes) where
  abbrev pub verified_header :
      Context → HttpRequest → SigV4Auth → BucketCredential → Result Refusal Signed
  verified_header x r parsed cred =
      answered (auth_refusal x.region)
        (verify_signature hmac_sha256 sha256 x.now r cred.secret_key x.region parsed)
      >>= λ a.
          refuse_if (unsigned_refused x r)
            (with_message invalid_request (codes "UNSIGNED-PAYLOAD is not allowed on this server."))
          >> ok (cred, a)

  abbrev pub verified_query :
      Context → HttpRequest → SigV4Auth → BucketCredential → Result Refusal Signed
  verified_query x r parsed cred =
      answered (auth_refusal x.region)
        (verify_presigned_signature hmac_sha256 sha256 x.now r cred.secret_key x.region parsed)
      >>= λ a. ok (cred, a)

  unfoldable pub authenticate_presigned : Context → HttpRequest → Result Refusal Signed
  authenticate_presigned x r =
      answered (auth_refusal x.region) (parse_presigned_query x.now r.query) >>= λ parsed.
      require_credential x parsed.access_key >>= verified_query x r parsed

  abbrev pub authenticate_header : Context → HttpRequest → Result Refusal Signed
  authenticate_header x r =
      refuse_if (not (non_empty (get r.headers (codes "authorization")))) (plain access_denied)
      >> (answered malformed_header
            (parse_authorization_header (get r.headers (codes "authorization")))
          >>= λ parsed. require_credential x parsed.access_key >>= verified_header x r parsed)

  unfoldable pub authenticate_request : Context → HttpRequest → Result Refusal Signed
  unfolding authenticate_presigned
  authenticate_request x r =
      if non_empty (get r.query (codes "X-Amz-Algorithm"))
      then authenticate_presigned x r
      else authenticate_header x r

  abbrev pub public_bucket : Bucket → Result Refusal (Bucket × Option Signed)
  public_bucket b = refuse_if (not b.public_read) (plain access_denied) >> ok (b, none)

  abbrev pub owned_bucket : Context → Bytes → Signed → Result Refusal (Bucket × Option Signed)
  owned_bucket x name s = check_bucket_access x s.0 name >>= λ b. ok (b, some s)

  unfoldable pub authenticate_or_public :
      Context → HttpRequest → Bytes → Result Refusal (Bucket × Option Signed)
  authenticate_or_public x r bucket_name =
      if has_auth r
      then authenticate_request x r >>= owned_bucket x bucket_name
      else require_bucket x bucket_name >>= public_bucket

  -- The checks at the start of a handler that changes a bucket.
  unfoldable pub authorize_write :
      Context → HttpRequest → Bytes → Result Refusal (Bucket × BucketCredential)
  unfolding authenticate_request check_write_access check_bucket_access
  authorize_write x r bucket_name = authenticate_request x r >>= λ s.
      check_write_access s.0 >> (check_bucket_access x s.0 bucket_name >>= λ b. ok (b, s.0))
