-- ===== src/Handler/Objects/Guards.antt =====
-- What a write of an object has passed.
use cloodsy_s.Prelude.{◌≡◌, ltb, false, Bytes, length, bytes_eq, codes, arith}
use cloodsy_s.Prelude.Result.{Result, ok, ◌>>=◌, ◌>>◌, refuse_if, >>=-eq-ok, refuse_if-ok}
use cloodsy_s.S3Err.{Refusal, plain, key_too_long, invalid_argument, access_denied}
use cloodsy_s.Auth.Request.{HttpRequest}
use cloodsy_s.Auth.Parsing.{SigV4Auth}
use cloodsy_s.Service.Objects.{Bucket}
use cloodsy_s.Handler.Validation.{max_key_length}
use cloodsy_s.Handler.Validation.Names.{IsKey, is_valid_object_key-IsKey}
use cloodsy_s.Handler.Access.{
  BucketCredential, Context, authenticate_request, check_bucket_access, check_write_access,
}
use cloodsy_s.Handler.Access.Sound.{
  Owns, IsVouched, check_bucket_access-Owns, authenticate_request-IsVouched,
}
use cloodsy_s.Handler.Objects.{bad_key, writable_bucket, put_guards, authorize_put}

bad_key-IsKey : (key : Bytes) → bad_key key ≡ false → IsKey key
bad_key-IsKey key h = is_valid_object_key-IsKey key (ground arith)

writable_bucket-Owns :
    (x : Context) (name : Bytes) (cred : BucketCredential) (b : Bucket) (cred' : BucketCredential)
    → writable_bucket x name cred ≡ ok (b, cred')
    → (bytes_eq cred.permission (codes "read-only") ≡ false) × Owns x cred name b × (cred ≡ cred')
unfolding check_write_access
writable_bucket-Owns x name cred b cred' h =
    let granted : Result Refusal (Bucket × BucketCredential) =
      check_bucket_access x cred name >>= λ b. ok (b, cred) in
    let (writes, h1) =
      refuse_if-ok (bytes_eq cred.permission (codes "read-only")) (plain access_denied) granted h in
    let (c, p, h2) = >>=-eq-ok (check_bucket_access x cred name) (λ b. ok (b, cred)) h1 in
    let it : c ≡ b = cc in
    let who : cred ≡ cred' = cc in
    (writes, rw (← it) (check_bucket_access-Owns x cred name c p), who)

module _ (hmac_sha256 : Bytes → Bytes → Bytes) (sha256 : Bytes → Bytes) where
  -- `PutObject` goes on only with a key that is not empty, has at most 1024 bytes, no zero byte and no
  -- segment `.` or `..`, in a request that verifies under the secret of the credential that it names,
  -- which owns the bucket with the name asked for and is not read-only.
  pub authorize_put-IsKey :
      (x : Context) (r : HttpRequest) (name key : Bytes) (b : Bucket) (cred : BucketCredential)
      → authorize_put hmac_sha256 sha256 x r name key ≡ ok (b, cred)
      → IsKey key
        × (bytes_eq cred.permission (codes "read-only") ≡ false)
        × Owns x cred name b
        × ((a : SigV4Auth) × IsVouched hmac_sha256 sha256 x r (cred, a))
  unfolding authorize_put
  authorize_put-IsKey x r name key b cred h =
      let (s, p1, h1) =
        >>=-eq-ok (authenticate_request hmac_sha256 sha256 x r) (put_guards x name key) h in
      let (short, h2) =
        refuse_if-ok (ltb max_key_length (length key)) (plain key_too_long)
          (refuse_if (bad_key key) (plain invalid_argument) >> writable_bucket x name s.0) h1 in
      let (valid, h3) =
        refuse_if-ok (bad_key key) (plain invalid_argument) (writable_bucket x name s.0) h2 in
      let (writes, owns, who) = writable_bucket-Owns x name s.0 b cred h3 in
      rw (← who) (
        bad_key-IsKey key valid,
        writes,
        owns,
        (s.1, authenticate_request-IsVouched hmac_sha256 sha256 x r s p1),
      )
