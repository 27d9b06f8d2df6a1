-- ===== src/Auth/Result.antt =====
-- The errors of auth/sigv4.go and auth/credentials.go.
use cloodsy_s.Prelude.{Bytes, codes}
pub use cloodsy_s.Prelude.Result.{
  Result, ok, err, ◌>>=◌, ◌>>◌, refuse_if, or_refuse, >>=-eq-ok, refuse_if-ok, or_refuse-ok,
  not-false, demand-ok, or_refuse-some,
}

pub data AuthError : Type 0 where
  missing_auth missing_date invalid_date time_skewed date_mismatch region_mismatch : AuthError
  service_mismatch missing_content_sha signature_mismatch presigned_expired : AuthError
  presigned_not_yet : AuthError
  -- The errors that `fmt.Errorf` makes.
  unsupported_scheme incomplete_scope missing_signed_headers missing_signature : AuthError
  missing_host unsupported_algorithm missing_credential invalid_credential : AuthError
  missing_expires invalid_expires : AuthError

-- The text of an error; `unsupported_algorithm` and `invalid_expires` are never shown to a client and
-- stand without the value that the code adds to them.
unfoldable pub error_text : AuthError → Bytes
error_text missing_auth = codes "missing Authorization header"
error_text missing_date = codes "missing X-Amz-Date header"
error_text invalid_date = codes "invalid X-Amz-Date format"
error_text time_skewed = codes "request time too skewed"
error_text date_mismatch = codes "credential date does not match X-Amz-Date"
error_text region_mismatch = codes "credential region does not match"
error_text service_mismatch = codes "credential service must be s3"
error_text missing_content_sha = codes "missing x-amz-content-sha256 header"
error_text signature_mismatch = codes "signature mismatch"
error_text presigned_expired = codes "presigned URL has expired"
error_text presigned_not_yet = codes "presigned URL is not yet valid"
error_text unsupported_scheme = codes "unsupported auth scheme"
error_text incomplete_scope = codes "incomplete credential scope"
error_text missing_signed_headers = codes "missing signed headers"
error_text missing_signature = codes "missing signature"
error_text missing_host = codes "missing required signed header: host"
error_text unsupported_algorithm = codes "unsupported algorithm"
error_text missing_credential = codes "missing X-Amz-Credential"
error_text invalid_credential = codes "invalid credential format"
error_text missing_expires = codes "missing X-Amz-Expires"
error_text invalid_expires = codes "invalid X-Amz-Expires: must be 1-604800 seconds"
