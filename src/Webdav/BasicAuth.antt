-- ===== src/Webdav/BasicAuth.antt =====
-- webdav/auth.go: HTTP Basic authentication before every WebDAV request, with the limiter of failed
-- logins.
pub mod Served
use cloodsy_s.Prelude.{
  ℕ, ◌+◌, ◌/◌, ◌==◌, Bool, true, false, not, ◌&&◌, Option, none, some, List, [], ◌∷◌, any, Bytes,
  bytes_eq, codes, if◌then◌else◌,
}
use cloodsy_s.Auth.SigTime.{nanos}
use cloodsy_s.Server.Resolve.{split_host_port, or_whole}
use cloodsy_s.Service.Objects.{Bucket}
use cloodsy_s.Handler.Access.{BucketCredential, Context, credential_with}
use cloodsy_s.Webdav.Limiter.{Limiter, blocked, fail, reset}

-- What the check reads of a request: the peer's address, `r.BasicAuth()` and the method.
pub record DavRequest : Type 0 where
  pub remote_addr : Bytes
  pub login : Option (Bytes × Bytes)
  pub dav_method : Bytes

-- 429 with the seconds to wait, 401, 403 for either reason, or the bucket with the read-only flag.
pub data LoginOutcome : Type 0 where
  locked_out : ℕ → LoginOutcome
  unauthorized webdav_disabled read_only_credential : LoginOutcome
  served : Bucket → Bool → LoginOutcome

unfoldable pub client_ip : Bytes → Bytes
client_ip remote_addr = or_whole remote_addr (split_host_port remote_addr)

unfoldable pub is_write_method : Bytes → Bool
is_write_method method = any (bytes_eq method) (
    codes "PUT"
    ∷ codes "DELETE"
    ∷ codes "MKCOL"
    ∷ codes "MOVE"
    ∷ codes "COPY"
    ∷ codes "PROPPATCH"
    ∷ codes "LOCK"
    ∷ codes "UNLOCK"
    ∷ [])

-- `GetBucketByID`
unfoldable pub bucket_with_id : ℕ → List Bucket → Option Bucket
bucket_with_id id [] = none
bucket_with_id id (b ∷ bs) = if b.id == id then some b else bucket_with_id id bs

-- A row, or none also where the query fails.
abbrev pub read_row {ℓ} : {A : Type ℓ} → Context → Option A → Option A
read_row x row = if x.readable then row else none

abbrev pub is_read_only : BucketCredential → Bool
is_read_only cred = bytes_eq cred.permission (codes "read-only")

abbrev pub granted : Bytes → BucketCredential → Bucket → LoginOutcome
granted method cred b =
    if not b.webdav_enabled
    then webdav_disabled
    else if is_read_only cred && is_write_method method
    then read_only_credential
    else served b (is_read_only cred)

module _ (now : ℕ) (x : Context) (r : DavRequest) (l : Limiter) where
  abbrev pub with_bucket : BucketCredential → Option Bucket → LoginOutcome × Limiter
  with_bucket cred none = (unauthorized, fail now (client_ip r.remote_addr) l)
  with_bucket cred (some b) = (granted r.dav_method cred b, reset (client_ip r.remote_addr) l)

  abbrev pub with_credential : Bytes → Option BucketCredential → LoginOutcome × Limiter
  with_credential pass none = (unauthorized, fail now (client_ip r.remote_addr) l)
  with_credential pass (some cred) =
      if bytes_eq cred.secret_key pass
      then with_bucket cred (read_row x (bucket_with_id cred.bucket_id x.buckets))
      else (unauthorized, fail now (client_ip r.remote_addr) l)

  abbrev pub with_login : Option (Bytes × Bytes) → LoginOutcome × Limiter
  with_login none = (unauthorized, l)
  with_login (some (user, pass)) =
      with_credential pass (read_row x (credential_with user x.credentials))

  abbrev pub with_lock : Option ℕ → LoginOutcome × Limiter
  with_lock (some d) = (locked_out (d / nanos + 1), l)
  with_lock none = with_login r.login

  -- What the middleware does with the request, and the limiter it leaves.
  unfoldable pub basic_auth : LoginOutcome × Limiter
  basic_auth = with_lock (blocked now (client_ip r.remote_addr) l)
