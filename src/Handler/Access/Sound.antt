-- ===== src/Handler/Access/Sound.antt =====
-- What the checks of access guarantee.
use mathlib.Core.Option.{some-injective}
use cloodsy_s.Prelude.{
  ◌==◌, ==_iff, ◌≡◌, ◌⊎◌, inl, inr, true, false, not, Option, none, some, List, [], ◌∷◌, Bytes,
  bytes_eq, bytes_eq_iff, codes, non_empty, Bool-cases,
}
use cloodsy_s.S3Err.{
  Refusal, plain, with_message, access_denied, internal_error, no_such_bucket,
  invalid_access_key_id, invalid_request,
}
use cloodsy_s.Auth.Result.{
  AuthError, Result, ok, err, ◌>>=◌, ◌>>◌, refuse_if, or_refuse, >>=-eq-ok, demand-ok, refuse_if-ok,
  or_refuse-some,
}
use cloodsy_s.Auth.Request.{HttpRequest, get}
use cloodsy_s.Auth.Parsing.{SigV4Auth, parse_authorization_header, parse_presigned_query}
use cloodsy_s.Auth.Verify.{verify_signature, verify_presigned_signature}
use cloodsy_s.Service.Objects.{Bucket}
use cloodsy_s.Handler.Access.{
  BucketCredential, Context, bucket_named, credential_with, require_bucket, require_credential,
  auth_refusal, answered, malformed_header, has_auth, check_bucket_access, check_write_access,
  unsigned_refused, Signed, verified_header, verified_query, authenticate_presigned,
  authenticate_header, authenticate_request, public_bucket, owned_bucket, authenticate_or_public,
  authorize_write,
}

answered-ok {ℓ} :
    {A : Type ℓ} (f : AuthError → Refusal) (m : Result AuthError A) {a : A}
    → answered f m ≡ ok a
    → m ≡ ok a
answered-ok f (ok a) h = cc
answered-ok f (err e) h = cc

bucket_named_sound :
    (name : Bytes) (bs : List Bucket) (b : Bucket) → bucket_named name bs ≡ some b → b.name ≡ name
unfolding bucket_named
bucket_named_sound name [] b h = cc
bucket_named_sound name (c ∷ bs) b h = elim (Bool-cases (bytes_eq c.name name)) [
  | inl same ↦
      let it : c ≡ b = some-injective _ _ (rw same at h) in
      rw (← it) ((bytes_eq_iff c.name name).0 same)
  | inr other ↦ bucket_named_sound name bs b (rw other at h)
]

require_bucket_sound :
    (x : Context) (name : Bytes) (b : Bucket)
    → require_bucket x name ≡ ok b
    → (bucket_named name x.buckets ≡ some b) × (b.name ≡ name)
unfolding require_bucket
require_bucket_sound x name b h =
    let (readable, h1) =
      demand-ok x.readable (plain internal_error)
        (or_refuse (bucket_named name x.buckets) (plain no_such_bucket)) h in
    let found = or_refuse-some (bucket_named name x.buckets) (plain no_such_bucket) h1 in
    (found, bucket_named_sound name x.buckets b found)

require_credential_sound :
    (x : Context) (key : Bytes) (c : BucketCredential)
    → require_credential x key ≡ ok c
    → credential_with key x.credentials ≡ some c
unfolding require_credential
require_credential_sound x key c h =
    let (readable, h1) =
      demand-ok x.readable (plain internal_error)
        (or_refuse (credential_with key x.credentials) (plain invalid_access_key_id)) h in
    or_refuse-some (credential_with key x.credentials) (plain invalid_access_key_id) h1

-- The credential owns the bucket, which has the name.
abbrev pub Owns : Context → BucketCredential → Bytes → Bucket → Type 0
Owns x cred name b =
    (bucket_named name x.buckets ≡ some b) × (b.name ≡ name) × (cred.bucket_id ≡ b.id)

pub check_bucket_access-Owns :
    (x : Context) (cred : BucketCredential) (name : Bytes) (b : Bucket)
    → check_bucket_access x cred name ≡ ok b
    → Owns x cred name b
unfolding check_bucket_access
check_bucket_access-Owns x cred name b h =
    let (c, p1, h1) =
      >>=-eq-ok (require_bucket x name)
        (λ b. refuse_if (not (cred.bucket_id == b.id)) (plain access_denied) >> ok b) h in
    let (same, h2) = demand-ok (cred.bucket_id == c.id) (plain access_denied) (ok c) h1 in
    let it : c ≡ b = cc in
    let (found, named) = require_bucket_sound x name c p1 in
    rw (← it) (found, named, (==_iff _ _).0 same)

module _ (hmac_sha256 : Bytes → Bytes → Bytes) (sha256 : Bytes → Bytes) where
  -- The request's header or query names the credential's access key, and its secret verifies.
  abbrev pub IsVouched : Context → HttpRequest → Signed → Type 0
  IsVouched x r s =
      (parsed : SigV4Auth) × (credential_with parsed.access_key x.credentials ≡ some s.0)
      × (((parse_authorization_header (get r.headers (codes "authorization")) ≡ ok parsed)
            × (verify_signature hmac_sha256 sha256 x.now r s.0.secret_key x.region parsed ≡ ok s.1)
            × (unsigned_refused x r ≡ false))
          ⊎ ((parse_presigned_query x.now r.query ≡ ok parsed)
              × (verify_presigned_signature hmac_sha256 sha256 x.now r s.0.secret_key x.region
                    parsed
                  ≡ ok s.1)))

  authenticate_presigned-IsVouched :
      (x : Context) (r : HttpRequest) (s : Signed)
      → authenticate_presigned hmac_sha256 sha256 x r ≡ ok s
      → IsVouched x r s
  unfolding authenticate_presigned
  authenticate_presigned-IsVouched x r s h =
      let (parsed, p1, h1) =
        >>=-eq-ok (answered (auth_refusal x.region) (parse_presigned_query x.now r.query))
          (λ parsed.
            require_credential x parsed.access_key >>= verified_query hmac_sha256 sha256 x r parsed)
          h in
      let (cred, p2, h2) =
        >>=-eq-ok (require_credential x parsed.access_key)
          (verified_query hmac_sha256 sha256 x r parsed) h1 in
      let (a, p3, h3) =
        >>=-eq-ok
          (answered (auth_refusal x.region)
            (verify_presigned_signature hmac_sha256 sha256 x.now r cred.secret_key x.region parsed))
          (λ a. ok (cred, a)) h2 in
      let it : (cred, a) ≡ s = cc in
      rw (← it) (
        parsed,
        require_credential_sound x parsed.access_key cred p2,
        inr (
          answered-ok _ (parse_presigned_query x.now r.query) p1,
          answered-ok _
              (verify_presigned_signature hmac_sha256 sha256 x.now r cred.secret_key x.region
                parsed)
              p3,
        ),
      )

  authenticate_header-IsVouched :
      (x : Context) (r : HttpRequest) (s : Signed)
      → authenticate_header hmac_sha256 sha256 x r ≡ ok s
      → IsVouched x r s
  authenticate_header-IsVouched x r s h =
      let header = get r.headers (codes "authorization") in
      let next : SigV4Auth → Result Refusal Signed = λ parsed.
        require_credential x parsed.access_key >>= verified_header hmac_sha256 sha256 x r parsed in
      let (given, h1) =
        demand-ok (non_empty header) (plain access_denied)
          (answered malformed_header (parse_authorization_header header) >>= next) h in
      let (parsed, p2, h2) =
        >>=-eq-ok (answered malformed_header (parse_authorization_header header)) next h1 in
      let (cred, p3, h3) =
        >>=-eq-ok (require_credential x parsed.access_key)
          (verified_header hmac_sha256 sha256 x r parsed) h2 in
      let refused =
        with_message invalid_request (codes "UNSIGNED-PAYLOAD is not allowed on this server.") in
      let (a, p4, h4) =
        >>=-eq-ok
          (answered (auth_refusal x.region)
            (verify_signature hmac_sha256 sha256 x.now r cred.secret_key x.region parsed))
          (λ a. refuse_if (unsigned_refused x r) refused >> ok (cred, a)) h3 in
      let (p5, h5) = refuse_if-ok (unsigned_refused x r) refused (ok (cred, a)) h4 in
      let it : (cred, a) ≡ s = cc in
      rw (← it) (
        parsed,
        require_credential_sound x parsed.access_key cred p3,
        inl (
          answered-ok _ (parse_authorization_header header) p2,
          answered-ok _
              (verify_signature hmac_sha256 sha256 x.now r cred.secret_key x.region parsed) p4,
          p5,
        ),
      )

  pub authenticate_request-IsVouched :
      (x : Context) (r : HttpRequest) (s : Signed)
      → authenticate_request hmac_sha256 sha256 x r ≡ ok s
      → IsVouched x r s
  unfolding authenticate_request
  authenticate_request-IsVouched x r s h =
      elim (Bool-cases (non_empty (get r.query (codes "X-Amz-Algorithm")))) [
        | inl presigned ↦ authenticate_presigned-IsVouched x r s (rw presigned at h)
        | inr plain_request ↦ authenticate_header-IsVouched x r s (rw plain_request at h)
      ]

  -- What a reader is granted: without a signature only a public bucket, otherwise the signer's own.
  abbrev pub IsReadable : Context → HttpRequest → Bytes → Bucket → Option Signed → Type 0
  IsReadable x r name b none =
      (has_auth r ≡ false)
      × (bucket_named name x.buckets ≡ some b)
      × (b.name ≡ name)
      × (b.public_read ≡ true)
  IsReadable x r name b (some s) = (has_auth r ≡ true) × IsVouched x r s × Owns x s.0 name b

  -- A reader gets a bucket only if it is the bucket with the name asked for, and either the request has
  -- neither an Authorization header nor a presigned query and the bucket is public, or the request
  -- verifies under the secret of the credential that it names, and that credential owns the bucket.
  pub authenticate_or_public-IsReadable :
      (x : Context) (r : HttpRequest) (name : Bytes) (b : Bucket) (s : Option Signed)
      → authenticate_or_public hmac_sha256 sha256 x r name ≡ ok (b, s)
      → IsReadable x r name b s
  unfolding authenticate_or_public
  authenticate_or_public-IsReadable x r name b s h = elim (Bool-cases (has_auth r)) [
    | inl given ↦
        let (signed, p1, h1) =
          >>=-eq-ok (authenticate_request hmac_sha256 sha256 x r)
            (owned_bucket hmac_sha256 sha256 x name) (rw given at h) in
        let (c, p2, h2) =
          >>=-eq-ok (check_bucket_access x signed.0 name) (λ b. ok (b, some signed)) h1 in
        let it : c ≡ b = cc in
        let who : some signed ≡ s = cc in
        rw (← who) (
          given,
          authenticate_request-IsVouched x r signed p1,
          rw (← it) (check_bucket_access-Owns x signed.0 name c p2),
        )
    | inr anonymous ↦
        let (c, p1, h1) =
          >>=-eq-ok (require_bucket x name) (public_bucket hmac_sha256 sha256)
            (rw anonymous at h) in
        let (open_bucket, h2) = demand-ok c.public_read (plain access_denied) (ok (c, none)) h1 in
        let it : c ≡ b = cc in
        let nobody : none ≡ s = cc in
        let (found, named) = require_bucket_sound x name c p1 in
        rw (← nobody, ← it) (anonymous, found, named, open_bucket)
  ]

  -- A handler that changes a bucket goes on only if the request verifies under the secret of the
  -- credential that it names, the credential owns the bucket with the name asked for, and it is not
  -- read-only.
  pub authorize_write-IsVouched :
      (x : Context) (r : HttpRequest) (name : Bytes) (b : Bucket) (cred : BucketCredential)
      → authorize_write hmac_sha256 sha256 x r name ≡ ok (b, cred)
      → (bytes_eq cred.permission (codes "read-only") ≡ false)
        × Owns x cred name b
        × ((a : SigV4Auth) × IsVouched x r (cred, a))
  unfolding authorize_write check_write_access
  authorize_write-IsVouched x r name b cred h =
      let granted : Signed → Result Refusal (Bucket × BucketCredential) =
        λ s. check_bucket_access x s.0 name >>= λ b. ok (b, s.0) in
      let (s, p1, h1) =
        >>=-eq-ok (authenticate_request hmac_sha256 sha256 x r)
          (λ s. check_write_access s.0 >> granted s) h in
      let (writes, h2) =
        refuse_if-ok (bytes_eq s.0.permission (codes "read-only")) (plain access_denied) (granted s)
          h1 in
      let (c, p3, h3) = >>=-eq-ok (check_bucket_access x s.0 name) (λ b. ok (b, s.0)) h2 in
      let it : c ≡ b = cc in
      let who : s.0 ≡ cred = cc in
      rw (← it, ← who)
        (
          writes,
          check_bucket_access-Owns x s.0 name c p3,
          (s.1, authenticate_request-IsVouched x r s p1),
        )
