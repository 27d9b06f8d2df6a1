-- ===== src/Tests/Logins.antt =====
-- Logins over WebDAV, and the theorems on the limiter and on who is served applied to them.
use cloodsy_s.Prelude.{
  ◌+◌, ◌-◌, ◌≡◌, ◌<◌, ◌≤◌, refl, true, false, none, some, List, [], ◌∷◌, Bytes, codes, arith,
  lookup, bytes_eq, insert_at,
}
use cloodsy_s.Service.Objects.{Bucket}
use cloodsy_s.Handler.Access.{BucketCredential, Context, credential_with}
use cloodsy_s.Webdav.Limiter.{auth_lock_for, blocked, fail, reset, Limiter, prune, count_failure}
use cloodsy_s.Webdav.Limiter.Streak.{
  LoginEvent, fails, succeeds, apply_all, apply_all-blocked, Streak,
}
use cloodsy_s.Webdav.Limiter.Locks.{Reach, start, failed, Reach-blocked}
use cloodsy_s.Webdav.BasicAuth.{DavRequest, client_ip, basic_auth, bucket_with_id, is_write_method}
use cloodsy_s.Webdav.BasicAuth.Served.{IsServed, basic_auth-IsServed}

abbrev peer : Bytes
peer = codes "10.0.0.1"

abbrev other_peer : Bytes
other_peer = codes "10.0.0.2"

-- Five failures of the peer, a failure and a success of another address in between.
abbrev later_events : List LoginEvent
later_events =
    fails 2 peer
    ∷ fails 3 other_peer
    ∷ fails 4 peer
    ∷ succeeds other_peer
    ∷ fails 5 peer
    ∷ fails 6 peer
    ∷ []

apply_all-blocked_example :
    blocked 10 peer (apply_all (fails 1 peer ∷ later_events) []) ≡ some (6 + auth_lock_for - 10)
unfolding lookup Streak bytes_eq
apply_all-blocked_example =
    apply_all-blocked peer 1 6 10 later_events [] refl
      (
        omega arith,
        omega arith,
        (
          omega arith,
          omega arith,
          (
            omega arith,
            omega arith,
            (refl, (omega arith, omega arith, (omega arith, omega arith, refl))),
          ),
        ),
      )
      (omega arith)

abbrev locked : Limiter
locked = fail 5 peer (fail 4 peer (fail 3 peer (fail 2 peer (fail 1 peer []))))

locked-Reach : Reach locked 5
locked-Reach =
    failed
      (failed
        (failed (failed (failed start (omega arith) peer) (omega arith) peer) (omega arith) peer)
        (omega arith) peer)
      (omega arith) peer

Reach-blocked_example :
    (0 < 899999999999)
    × (899999999999 ≤ auth_lock_for)
    × (blocked (6 + 899999999999) peer locked ≡ none)
unfolding blocked lookup fail insert_at prune bytes_eq count_failure
Reach-blocked_example = Reach-blocked locked-Reach 6 peer 899999999999 (omega arith) refl

abbrev shared : Bucket
shared = record {
  id = 7;
  name = codes "shared";
  quota_bytes = 0;
  versioning = [];
  storage_dir = [];
  public_read = false;
  webdav_enabled = true;
  created_at = 0;
}

abbrev reader : BucketCredential
reader = record {
  id = 1;
  bucket_id = 7;
  name = codes "reader";
  access_key = codes "AK";
  secret_key = codes "sk";
  permission = codes "read-only";
  created_at = 0;
}

abbrev server : Context
server = record {
  buckets = shared ∷ [];
  credentials = reader ∷ [];
  readable = true;
  region = codes "us-east-1";
  require_payload_signature = false;
  now = 0;
}

abbrev login : DavRequest
login = record {
  remote_addr = codes "10.0.0.1:5000";
  login = some (codes "AK", codes "sk");
  dav_method = codes "PROPFIND";
}

basic_auth-IsServed_example :
    (blocked 3 (client_ip login.remote_addr) [] ≡ none)
    × IsServed server login shared true
    × (reset (client_ip login.remote_addr) [] ≡ reset (client_ip login.remote_addr) [])
unfolding basic_auth blocked lookup credential_with bytes_eq bucket_with_id is_write_method
basic_auth-IsServed_example =
    basic_auth-IsServed 3 server login [] shared true (reset (client_ip login.remote_addr) []) refl
