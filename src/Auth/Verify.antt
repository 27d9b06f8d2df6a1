-- ===== src/Auth/Verify.antt =====
-- The verification of signatures in auth/sigv4.go. HMAC and SHA-256 are parameters, the clock is an
-- argument.
pub mod Sound
use cloodsy_s.Prelude.{
  ℕ, ◌+◌, ltb, Bool, true, false, not, ◌&&◌, ◌||◌, Option, none, some, List, [], ◌∷◌, ◌++◌, keep,
  take, Bytes, bytes_eq, codes, non_empty, hex_encode, if◌then◌else◌,
}
use cloodsy_s.Auth.Result.{
  AuthError, missing_date, invalid_date, time_skewed, date_mismatch, region_mismatch,
  service_mismatch, missing_content_sha, signature_mismatch, Result, ok, err, ◌>>=◌, ◌>>◌,
  refuse_if, or_refuse,
}
use cloodsy_s.Auth.SigTime.{parse_sig_time}
use cloodsy_s.Auth.Request.{Fields, HttpRequest, get}
use cloodsy_s.Auth.Parsing.{SigV4Auth, max_clock_skew, validate_presigned_expiry}
use cloodsy_s.Auth.Canonical.{build_canonical_request}

abbrev pub or_else_date : Bytes → Option Bytes → Bytes
or_else_date [] (some d) = d
or_else_date [] none = []
or_else_date (c ∷ s) d = c ∷ s

-- `X-Amz-Date`, or else the `Date` header.
unfoldable pub request_date : HttpRequest → Bytes
request_date r = or_else_date (get r.headers (codes "x-amz-date")) r.http_date

-- `time.Since(reqTime).Abs() > MaxClockSkew`
unfoldable pub is_skewed : ℕ → ℕ → Bool
is_skewed now t = ltb (t + max_clock_skew) now || ltb (now + max_clock_skew) t

abbrev pub scope_of : Bytes → Bytes → Bytes
scope_of date_stamp region = date_stamp ++ (b'/' ∷ region ++ codes "/s3/aws4_request")

abbrev pub without_signature : Fields → Fields
without_signature query = keep (λ f. not (bytes_eq f.0 (codes "X-Amz-Signature"))) query

module _ (hmac_sha256 : Bytes → Bytes → Bytes) (sha256 : Bytes → Bytes) where
  unfoldable pub derive_signing_key : Bytes → Bytes → Bytes → Bytes → Bytes
  derive_signing_key secret date_stamp region service =
      hmac_sha256
        (hmac_sha256 (hmac_sha256 (hmac_sha256 (codes "AWS4" ++ secret) date_stamp) region) service)
        (codes "aws4_request")

  unfoldable pub string_to_sign : Bytes → Bytes → Bytes → Bytes
  string_to_sign amz_date scope canonical_request =
      codes "AWS4-HMAC-SHA256"
      ++ (10 ∷ amz_date ++ (10 ∷ scope ++ (10 ∷ hex_encode (sha256 canonical_request))))

  -- The signature that the holder of the secret gives to the request.
  unfoldable pub expected_signature : Bytes → Bytes → Bytes → Bytes → Bytes → Bytes
  unfolding derive_signing_key string_to_sign
  expected_signature secret amz_date date_stamp region canonical_request = hex_encode (
      hmac_sha256 (derive_signing_key secret date_stamp region (codes "s3"))
        (string_to_sign amz_date (scope_of date_stamp region) canonical_request))

  unfoldable pub verify_signature :
      ℕ → HttpRequest → Bytes → Bytes → SigV4Auth → Result AuthError SigV4Auth
  verify_signature now r secret region a = do
    refuse_if (not (non_empty (request_date r))) missing_date
    t ← or_refuse (parse_sig_time (request_date r)) invalid_date
    refuse_if (is_skewed now t) time_skewed
    refuse_if (not (bytes_eq a.date (take 8 (request_date r)))) date_mismatch
    refuse_if (not (bytes_eq a.region region)) region_mismatch
    refuse_if (not (bytes_eq a.service (codes "s3"))) service_mismatch
    refuse_if (not (non_empty (get r.headers (codes "x-amz-content-sha256")))) missing_content_sha
    refuse_if
        (not (
          bytes_eq
            (expected_signature secret (request_date r) (take 8 (request_date r)) region (
              build_canonical_request r a.signed_headers
                (get r.headers (codes "x-amz-content-sha256")) r.query))
            a.signature))
        signature_mismatch
    ok (record a { amz_date = request_date r; scope = scope_of (take 8 (request_date r)) region })

  -- The date stamp that is formatted from the instant is the first eight characters of the date.
  unfoldable pub verify_presigned_signature :
      ℕ → HttpRequest → Bytes → Bytes → SigV4Auth → Result AuthError SigV4Auth
  verify_presigned_signature now r secret region a = do
    t ← validate_presigned_expiry now r.query
    refuse_if (not (bytes_eq a.date (take 8 (get r.query (codes "X-Amz-Date"))))) date_mismatch
    refuse_if (not (bytes_eq a.region region)) region_mismatch
    refuse_if
        (not (
          bytes_eq
            (expected_signature secret (get r.query (codes "X-Amz-Date"))
              (take 8 (get r.query (codes "X-Amz-Date"))) region
              (build_canonical_request r a.signed_headers (codes "UNSIGNED-PAYLOAD")
                (without_signature r.query)))
            a.signature))
        signature_mismatch
    ok (record a {
      amz_date = get r.query (codes "X-Amz-Date");
      scope = scope_of (take 8 (get r.query (codes "X-Amz-Date"))) region;
    })
