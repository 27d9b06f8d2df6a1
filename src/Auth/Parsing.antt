-- ===== src/Auth/Parsing.antt =====
-- auth/credentials.go: the Authorization header and the query of a presigned URL.
pub mod Accepts
use mathlib.Core.Option
use cloodsy_s.Prelude.{
  ℕ, ◌+◌, ◌-◌, ◌*◌, ltb, leb, Bool, true, false, not, ◌&&◌, ◌||◌, Option, none, some, List, [], ◌∷◌,
  ◌++◌, drop, length, any, Bytes, bytes_eq, codes, non_empty, has_prefix, split_on, cut_byte,
  trim_space, to_lower, parse_int, ℤ, pos, negsuc, if◌then◌else◌,
}
use cloodsy_s.Auth.Result.{
  AuthError, missing_date, invalid_date, service_mismatch, presigned_expired, presigned_not_yet,
  unsupported_scheme, incomplete_scope, missing_signed_headers, missing_signature, missing_host,
  unsupported_algorithm, missing_credential, invalid_credential, missing_expires, invalid_expires,
  Result, ok, err, ◌>>=◌, ◌>>◌, refuse_if, or_refuse,
}
use cloodsy_s.Auth.SigTime.{parse_sig_time, nanos}
use cloodsy_s.Auth.Request.{Fields, get}

pub record SigV4Auth : Type 0 where
  pub access_key : Bytes
  pub signed_headers : List Bytes
  pub signature : Bytes
  pub region : Bytes
  pub service : Bytes
  pub date : Bytes
  pub credential : Bytes
  pub amz_date : Bytes
  pub scope : Bytes

abbrev pub blank : SigV4Auth
blank = record {
  access_key = [];
  signed_headers = [];
  signature = [];
  region = [];
  service = [];
  date = [];
  credential = [];
  amz_date = [];
  scope = [];
}

-- The credential's scope, where it has at least five parts.
abbrev pub with_scope : List Bytes → SigV4Auth → SigV4Auth
with_scope (key ∷ date ∷ region ∷ service ∷ _ ∷ _) a = record a {
  access_key = key;
  date = date;
  region = region;
  service = service;
}
with_scope _ a = a

unfoldable pub set_component : Bytes → Bytes → SigV4Auth → SigV4Auth
set_component key val a =
    if bytes_eq key (codes "Credential")
    then with_scope (split_on b'/' val) (record a { credential = val })
    else if bytes_eq key (codes "SignedHeaders")
    then (record a { signed_headers = split_on b';' val })
    else if bytes_eq key (codes "Signature")
    then (record a { signature = val })
    else a

-- A part `key=value`; others are passed over.
abbrev pub add_component : Option (Bytes × Bytes) → SigV4Auth → SigV4Auth
add_component none a = a
add_component (some (key, val)) a = set_component (trim_space key) (trim_space val) a

unfoldable pub add_components : List Bytes → SigV4Auth → SigV4Auth
unfolding set_component
add_components [] a = a
add_components (p ∷ parts) a = add_components parts (add_component (cut_byte b'=' (trim_space p)) a)

-- `strings.EqualFold(h, "host")`: of the letters of the name only `s` folds with one that is not in
-- ASCII, U+017F, the bytes 197 and 191 in UTF-8.
abbrev pub folds_to_host : Bytes → Bool
folds_to_host h =
    bytes_eq (to_lower h) (codes "host")
    || bytes_eq (to_lower h) (codes "ho" ++ 197 ∷ 191 ∷ codes "t")

-- `hasHost(signed)`
unfoldable pub has_host : List Bytes → Bool
has_host signed = any folds_to_host signed

abbrev pub scheme : Bytes
scheme = codes "AWS4-HMAC-SHA256 "

-- The checks at the end of `ParseAuthorizationHeader`.
unfoldable pub check_components : SigV4Auth → Result AuthError SigV4Auth
check_components a = do
  refuse_if
      (not (non_empty a.access_key)
        || (not (non_empty a.date) || (not (non_empty a.region) || not (non_empty a.service))))
      incomplete_scope
  refuse_if (not (bytes_eq a.service (codes "s3"))) service_mismatch
  refuse_if (leb (length a.signed_headers) 0) missing_signed_headers
  refuse_if (not (non_empty a.signature)) missing_signature
  refuse_if (not (has_host a.signed_headers)) missing_host
  ok a

unfoldable pub parse_authorization_header : Bytes → Result AuthError SigV4Auth
parse_authorization_header header = do
  refuse_if (not (has_prefix header scheme)) unsupported_scheme
  check_components (add_components (split_on b',' (drop (length scheme) header)) blank)

abbrev pub max_clock_skew : ℕ
max_clock_skew = 900 * nanos

abbrev pub max_presigned_expires_seconds : ℕ
max_presigned_expires_seconds = 604800

abbrev pub expires_in_range : Option ℤ → Option ℕ
expires_in_range (some (pos n)) =
    if leb 1 n && leb n max_presigned_expires_seconds then some n else none
expires_in_range (some (negsuc n)) = none
expires_in_range none = none

-- The request's instant, unless it is too far ahead or the granted seconds have passed.
abbrev pub within_window : ℕ → ℕ → ℕ → Result AuthError ℕ
within_window now expires req_time = do
  refuse_if (ltb (now + max_clock_skew) req_time) presigned_not_yet
  refuse_if (ltb (req_time + expires * nanos) now) presigned_expired
  ok req_time

abbrev pub dated_within : ℕ → Fields → ℕ → Result AuthError ℕ
dated_within now q expires =
    or_refuse (parse_sig_time (get q (codes "X-Amz-Date"))) invalid_date
    >>= within_window now expires

-- `validatePresignedExpiry` at the time `now`: the instant of the request.
unfoldable pub validate_presigned_expiry : ℕ → Fields → Result AuthError ℕ
validate_presigned_expiry now q =
    refuse_if (not (non_empty (get q (codes "X-Amz-Date")))) missing_date
    >> (refuse_if (not (non_empty (get q (codes "X-Amz-Expires")))) missing_expires
        >> (or_refuse (expires_in_range (parse_int 10 (get q (codes "X-Amz-Expires"))))
              invalid_expires
            >>= dated_within now q))

-- The parts of the credential of a presigned URL.
abbrev pub presigned_scope : List Bytes → SigV4Auth → Option SigV4Auth
presigned_scope (key ∷ date ∷ region ∷ service ∷ _ ∷ _) a =
    some (record a { access_key = key; date = date; region = region; service = service })
presigned_scope _ a = none

unfoldable pub parse_presigned_query : ℕ → Fields → Result AuthError SigV4Auth
parse_presigned_query now q = do
  refuse_if (not (bytes_eq (get q (codes "X-Amz-Algorithm")) (codes "AWS4-HMAC-SHA256")))
      unsupported_algorithm
  refuse_if (not (non_empty (get q (codes "X-Amz-Credential")))) missing_credential
  refuse_if (not (non_empty (get q (codes "X-Amz-Signature")))) missing_signature
  refuse_if (not (non_empty (get q (codes "X-Amz-SignedHeaders")))) missing_signed_headers
  t ← validate_presigned_expiry now q
  a ←
      or_refuse
        (presigned_scope (split_on b'/' (get q (codes "X-Amz-Credential"))) (record blank {
          credential = get q (codes "X-Amz-Credential");
          signed_headers = split_on b';' (get q (codes "X-Amz-SignedHeaders"));
          signature = get q (codes "X-Amz-Signature");
        }))
        invalid_credential
  refuse_if (not (bytes_eq a.service (codes "s3"))) service_mismatch
  refuse_if (not (has_host a.signed_headers)) missing_host
  ok a
