-- ===== src/Auth/Verify/Sound.antt =====
-- What a verified signature vouches for.
use cloodsy_s.Prelude.{
  ℕ, ◌+◌, ◌≤◌, ◌≡◌, true, false, some, take, Bytes, bytes_eq_iff, codes, non_empty, arith,
}
use cloodsy_s.Auth.Result.{
  AuthError, Result, ok, >>=-eq-ok, refuse_if-ok, not-false, or_refuse-ok, missing_date,
  invalid_date, time_skewed, date_mismatch, region_mismatch, service_mismatch, missing_content_sha,
  signature_mismatch,
}
use cloodsy_s.Auth.SigTime.{parse_sig_time}
use cloodsy_s.Auth.Request.{HttpRequest, get}
use cloodsy_s.Auth.Parsing.{SigV4Auth, max_clock_skew, validate_presigned_expiry}
use cloodsy_s.Auth.Parsing.Accepts.{IsCurrent, validate_presigned_expiry-IsCurrent}
use cloodsy_s.Auth.Canonical.{build_canonical_request}
use cloodsy_s.Auth.Verify.{
  request_date, is_skewed, scope_of, without_signature, expected_signature, verify_signature,
  verify_presigned_signature,
}

ok-inj : (a b : SigV4Auth) → ◌≡◌ {A = Result AuthError SigV4Auth} (ok a) (ok b) → b ≡ a
ok-inj a b h = cc

not_skewed :
    (now t : ℕ) → is_skewed now t ≡ false → (now ≤ t + max_clock_skew) × (t ≤ now + max_clock_skew)
unfolding is_skewed
not_skewed now t h = ground arith

-- The date of the request is at most 15 minutes from now.
abbrev pub IsTimely : ℕ → Bytes → Type 0
IsTimely now amz_date =
    (t : ℕ) × (parse_sig_time amz_date ≡ some t)
    × (now ≤ t + max_clock_skew)
    × (t ≤ now + max_clock_skew)

module _ (hmac_sha256 : Bytes → Bytes → Bytes) (sha256 : Bytes → Bytes) where
  -- The signature is the one that the secret gives to the request at the date.
  abbrev pub IsSigned : Bytes → Bytes → Bytes → Bytes → SigV4Auth → Type 0
  IsSigned secret amz_date region canonical_request a =
      (a.date ≡ take 8 amz_date)
      × (a.region ≡ region)
      × (expected_signature hmac_sha256 sha256 secret amz_date (take 8 amz_date) region
            canonical_request
          ≡ a.signature)

  -- A request is accepted only if its date is at most 15 minutes from the clock, the credential's
  -- date, region and service are those of the request and the server, the payload's hash is
  -- declared, and the signature is the one that the secret gives to the canonical request; then the
  -- date and the scope are recorded.
  pub verify_signature-IsSigned :
      (now : ℕ) (r : HttpRequest) (secret region : Bytes) (a : SigV4Auth) (a' : SigV4Auth)
      → verify_signature hmac_sha256 sha256 now r secret region a ≡ ok a'
      → IsTimely now (request_date r)
        × (a.service ≡ codes "s3")
        × (non_empty (get r.headers (codes "x-amz-content-sha256")) ≡ true)
        × IsSigned secret
            (request_date r)
            region
            (build_canonical_request r a.signed_headers
              (get r.headers (codes "x-amz-content-sha256"))
              r.query)
            a
        × (a' ≡ record a {
          amz_date = request_date r;
          scope = scope_of (take 8 (request_date r)) region;
        })
  unfolding verify_signature
  verify_signature-IsSigned now r secret region a a' h =
      let (p1, h1) = refuse_if-ok _ missing_date _ h in
      let (t, p2, h2) = or_refuse-ok (parse_sig_time (request_date r)) invalid_date _ h1 in
      let (p3, h3) = refuse_if-ok _ time_skewed _ h2 in
      let (p4, h4) = refuse_if-ok _ date_mismatch _ h3 in
      let (p5, h5) = refuse_if-ok _ region_mismatch _ h4 in
      let (p6, h6) = refuse_if-ok _ service_mismatch _ h5 in
      let (p7, h7) = refuse_if-ok _ missing_content_sha _ h6 in
      let (p8, h8) = refuse_if-ok _ signature_mismatch _ h7 in
      let (late, early) = not_skewed now t p3 in
      (
        (t, p2, late, early),
        (bytes_eq_iff _ _).0 (not-false _ p6),
        not-false _ p7,
        (
          (bytes_eq_iff _ _).0 (not-false _ p4),
          (bytes_eq_iff _ _).0 (not-false _ p5),
          (bytes_eq_iff _ _).0 (not-false _ p8),
        ),
        ok-inj _ _ h8,
      )

  -- A presigned URL is accepted only within its time: its date is at most 15 minutes ahead of the
  -- clock, and no more than the granted seconds, at most a week, have passed; the credential's date
  -- and region fit, and the signature is the one that the secret gives to the canonical request over
  -- the query without the signature.
  pub verify_presigned_signature-IsSigned :
      (now : ℕ) (r : HttpRequest) (secret region : Bytes) (a : SigV4Auth) (a' : SigV4Auth)
      → verify_presigned_signature hmac_sha256 sha256 now r secret region a ≡ ok a'
      → IsCurrent now r.query
        × IsSigned secret
            (get r.query (codes "X-Amz-Date"))
            region
            (build_canonical_request r a.signed_headers
              (codes "UNSIGNED-PAYLOAD")
              (without_signature r.query))
            a
  unfolding verify_presigned_signature
  verify_presigned_signature-IsSigned now r secret region a a' h =
      let (t, p1, h1) = >>=-eq-ok (validate_presigned_expiry now r.query) _ h in
      let (p2, h2) = refuse_if-ok _ date_mismatch _ h1 in
      let (p3, h3) = refuse_if-ok _ region_mismatch _ h2 in
      let (p4, h4) = refuse_if-ok _ signature_mismatch _ h3 in
      (
        validate_presigned_expiry-IsCurrent now r.query t p1,
        (
          (bytes_eq_iff _ _).0 (not-false _ p2),
          (bytes_eq_iff _ _).0 (not-false _ p3),
          (bytes_eq_iff _ _).0 (not-false _ p4),
        ),
      )
