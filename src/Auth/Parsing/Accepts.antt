-- ===== src/Auth/Parsing/Accepts.antt =====
-- What the parsers accept.
use cloodsy_s.Prelude.{
  ℕ, ◌+◌, ◌*◌, ◌≤◌, ◌≡◌, refl, Bool, true, false, not, ◌||◌, Option, none, some, length, Bytes,
  bytes_eq, bytes_eq_iff, codes, non_empty, arith, has_prefix, ltb, leb, parse_int, ℤ, pos, negsuc,
}
use cloodsy_s.Auth.Result.{
  ok, refuse_if-ok, not-false, or_refuse-ok, missing_date, missing_expires, invalid_expires,
  invalid_date, presigned_not_yet, presigned_expired, unsupported_scheme, incomplete_scope,
  service_mismatch, missing_signed_headers, missing_signature, missing_host,
}
use cloodsy_s.Auth.SigTime.{parse_sig_time, nanos}
use cloodsy_s.Auth.Request.{Fields, get}
use cloodsy_s.Auth.Parsing.{
  SigV4Auth, has_host, check_components, parse_authorization_header, max_clock_skew,
  max_presigned_expires_seconds, expires_in_range, within_window, dated_within, scheme,
  validate_presigned_expiry,
}

-- The query gives a date and a number of seconds, at most a week, and the time is between 15
-- minutes before the date and those seconds after it.
abbrev pub IsCurrent : ℕ → Fields → Type 0
IsCurrent now q =
    (t : ℕ) × (seconds : ℕ) × (parse_sig_time (get q (codes "X-Amz-Date")) ≡ some t)
    × (expires_in_range (parse_int 10 (get q (codes "X-Amz-Expires"))) ≡ some seconds)
    × (1 ≤ seconds)
    × (seconds ≤ max_presigned_expires_seconds)
    × (t ≤ now + max_clock_skew)
    × (now ≤ t + seconds * nanos)

expires_bounds :
    (o : Option ℤ) (n : ℕ)
    → expires_in_range o ≡ some n
    → (1 ≤ n) × (n ≤ max_presigned_expires_seconds)
expires_bounds none n h = cc
expires_bounds (some (pos m)) n h = ground arith
expires_bounds (some (negsuc m)) n h = cc

not_below : (a b : ℕ) → ltb a b ≡ false → b ≤ a
not_below a b h = ground arith

pub validate_presigned_expiry-IsCurrent :
    (now : ℕ) (q : Fields) (t : ℕ) → validate_presigned_expiry now q ≡ ok t → IsCurrent now q
unfolding validate_presigned_expiry
validate_presigned_expiry-IsCurrent now q t h =
    let (p1, h1) = refuse_if-ok (not (non_empty (get q (codes "X-Amz-Date")))) missing_date _ h in
    let (p2, h2) =
      refuse_if-ok (not (non_empty (get q (codes "X-Amz-Expires")))) missing_expires _ h1 in
    let (seconds, p3, h3) =
      or_refuse-ok (expires_in_range (parse_int 10 (get q (codes "X-Amz-Expires")))) invalid_expires
        (dated_within now q) h2 in
    let (at, p4, h4) =
      or_refuse-ok (parse_sig_time (get q (codes "X-Amz-Date"))) invalid_date
        (within_window now seconds) h3 in
    let (p5, h5) = refuse_if-ok (ltb (now + max_clock_skew) at) presigned_not_yet _ h4 in
    let (p6, h6) = refuse_if-ok (ltb (at + seconds * nanos) now) presigned_expired (ok at) h5 in
    let (least, most) = expires_bounds (parse_int 10 (get q (codes "X-Amz-Expires"))) seconds p3 in
    (at, seconds, p4, p3, least, most, not_below _ _ p5, not_below _ _ p6)

-- A credential that names a key, a date, a region and the service S3, signed with the host.
abbrev pub IsComplete : SigV4Auth → Type 0
IsComplete a =
    (non_empty a.access_key ≡ true)
    × (non_empty a.date ≡ true)
    × (non_empty a.region ≡ true)
    × (a.service ≡ codes "s3")
    × (has_host a.signed_headers ≡ true)
    × (non_empty a.signature ≡ true)

all_given :
    (a b c d : Bool)
    → (not a || (not b || (not c || not d))) ≡ false
    → (a ≡ true) × (b ≡ true) × (c ≡ true)
all_given true true true d h = (refl, refl, refl)
all_given true true false d h = cc
all_given true false c d h = cc
all_given false b c d h = cc

check_components-IsComplete : (a a' : SigV4Auth) → check_components a ≡ ok a' → IsComplete a'
unfolding check_components
check_components-IsComplete a a' h =
    let (p1, h1) =
      refuse_if-ok
        (not (non_empty a.access_key)
          || (not (non_empty a.date) || (not (non_empty a.region) || not (non_empty a.service))))
        incomplete_scope _ h in
    let (p2, h2) = refuse_if-ok (not (bytes_eq a.service (codes "s3"))) service_mismatch _ h1 in
    let (p3, h3) = refuse_if-ok (leb (length a.signed_headers) 0) missing_signed_headers _ h2 in
    let (p4, h4) = refuse_if-ok (not (non_empty a.signature)) missing_signature _ h3 in
    let (p5, h5) = refuse_if-ok (not (has_host a.signed_headers)) missing_host (ok a) h4 in
    let same : a ≡ a' = cc in
    let (key, date, region) = all_given _ _ _ _ p1 in
    rw (← same) (
      key,
      date,
      region,
      (bytes_eq_iff a.service (codes "s3")).0 (not-false _ p2),
      not-false _ p5,
      not-false _ p4,
    )

-- Whatever the header, what `ParseAuthorizationHeader` accepts names an access key, a date and a
-- region, is for the service S3, has a signature, and signs the host.
pub parse_authorization_header-IsComplete :
    (header : Bytes) (a : SigV4Auth) → parse_authorization_header header ≡ ok a → IsComplete a
unfolding parse_authorization_header
parse_authorization_header-IsComplete header a h =
    let (p, h') = refuse_if-ok (not (has_prefix header scheme)) unsupported_scheme _ h in
    check_components-IsComplete _ a h'
