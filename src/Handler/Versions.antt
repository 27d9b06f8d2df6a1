-- ===== src/Handler/Versions.antt =====
-- `ListObjectVersions` of handler/list_versions.go: pages of versions. Times, owners and the encoding of
-- the keys in the answer are left out.
pub mod Endless
pub mod Untruncated
use mathlib.Core.Option
use cloodsy_s.Prelude.{
  ℕ, zero, suc, ◌+◌, ltb, leb, Bool, true, false, not, ◌&&◌, ◌||◌, Option, none, some, List, [],
  ◌∷◌, ◌++◌, any, Bytes, bytes_eq, codes, non_empty, if◌then◌else◌,
}
use cloodsy_s.Prelude.Result.{Result, ok, err, ◌>>=◌, ◌>>◌, refuse_if, or_refuse}
use cloodsy_s.S3Err.{Refusal, plain, invalid_argument}
use cloodsy_s.Auth.Request.{HttpRequest, get}
use cloodsy_s.Db.Objects.{ObjectMeta, Table}
use cloodsy_s.Db.Listing.{common_prefix, last_key, batch_size}
use cloodsy_s.Db.Versions.{list_object_versions}
use cloodsy_s.Service.Objects.{Bucket}
use cloodsy_s.Handler.Access.{Context, Signed, authenticate_request, check_bucket_access}
use cloodsy_s.Handler.Validation.{api_version_id, parse_max_keys}

-- The variables that the loop fills.
pub record VersionPage : Type 0 where
  pub versions : List ObjectMeta
  pub delete_markers : List ObjectMeta
  pub common_prefixes : List Bytes
  pub count : ℕ
  pub listed_key : Bytes
  pub listed_version : Bytes
  pub is_truncated : Bool

abbrev pub no_page : VersionPage
no_page = record {
  versions = [];
  delete_markers = [];
  common_prefixes = [];
  count = 0;
  listed_key = [];
  listed_version = [];
  is_truncated = false;
}

abbrev pub add_version : ObjectMeta → VersionPage → VersionPage
add_version v st = record st {
  versions = if v.is_delete_marker then st.versions else st.versions ++ v ∷ [];
  delete_markers = if v.is_delete_marker then st.delete_markers ++ v ∷ [] else st.delete_markers;
  count = st.count + 1;
  listed_key = v.key;
  listed_version = api_version_id v.version_id;
}

-- A prefix counts once.
abbrev pub add_prefix : ObjectMeta → Bytes → VersionPage → VersionPage
add_prefix v cp st = if any (bytes_eq cp) st.common_prefixes then st else (record st {
  common_prefixes = st.common_prefixes ++ cp ∷ [];
  count = st.count + 1;
  listed_key = v.key;
  listed_version = api_version_id v.version_id;
})

abbrev pub add_row : ObjectMeta → Option Bytes → VersionPage → VersionPage
add_row v none st = add_version v st
add_row v (some cp) st = add_prefix v cp st

-- The loop over a batch.
unfoldable pub scan_versions : Bytes → Bytes → ℕ → List ObjectMeta → VersionPage → VersionPage
scan_versions prefix delimiter max_keys [] st = st
scan_versions prefix delimiter max_keys (v ∷ batch) st =
    let rest =
      scan_versions prefix delimiter max_keys batch
        (add_row v (common_prefix prefix delimiter v.key) st) in
    if leb max_keys st.count then (record st { is_truncated = true }) else rest

abbrev pub is_nil : List ObjectMeta → Bool
is_nil [] = true
is_nil (_ ∷ _) = false

abbrev pub last_version_of : List ObjectMeta → Bytes
last_version_of [] = []
last_version_of (v ∷ []) = api_version_id v.version_id
last_version_of (_ ∷ v ∷ vs) = last_version_of (v ∷ vs)

module _ (t : Table) (b : ℕ) (prefix delimiter : Bytes) (max_keys limit : ℕ) where
  -- The outer loop, `limit` being the batch size; `none` where it has not ended within the fuel.
  unfoldable pub version_loop : ℕ → Bytes → Bytes → VersionPage → Option VersionPage
  version_loop zero km vm st = none
  version_loop (suc fuel) km vm st =
      let batch = list_object_versions t b prefix km vm limit in
      let st' = scan_versions prefix delimiter max_keys batch.0 st in
      let again = version_loop fuel (last_key batch.0) (last_version_of batch.0) st' in
      if not (ltb st.count max_keys && not st.is_truncated) || is_nil batch.0
      then some st
      else if st'.is_truncated || not batch.1
      then some st'
      else again

-- What the query of a request asks for.
pub record VersionQuery : Type 0 where
  pub bucket : Bucket
  pub prefix : Bytes
  pub key_marker : Bytes
  pub version_marker : Bytes
  pub delimiter : Bytes
  pub max_keys : ℕ

abbrev pub bad_encoding : Bytes → Bool
bad_encoding e = non_empty e && not (bytes_eq e (codes "url"))

abbrev pub version_query_of : HttpRequest → Bucket → Result Refusal VersionQuery
version_query_of r b =
    refuse_if (bad_encoding (get r.query (codes "encoding-type"))) (plain invalid_argument)
    >> (or_refuse (parse_max_keys (get r.query (codes "max-keys"))) (plain invalid_argument)
        >>= λ max_keys. ok (record {
          bucket = b;
          prefix = get r.query (codes "prefix");
          key_marker = get r.query (codes "key-marker");
          version_marker = get r.query (codes "version-id-marker");
          delimiter = get r.query (codes "delimiter");
          max_keys = max_keys;
        }))

-- The checks of the handler.
unfoldable pub authorize_versions :
    (Bytes → Bytes → Bytes)
    → (Bytes → Bytes)
    → Context
    → HttpRequest
    → Bytes
    → Result Refusal VersionQuery
authorize_versions hmac_sha256 sha256 x r bucket_name =
    authenticate_request hmac_sha256 sha256 x r >>= λ s.
    check_bucket_access x s.0 bucket_name >>= version_query_of r

-- The page of a query, on fuel.
unfoldable pub list_versions : Table → ℕ → VersionQuery → Option VersionPage
list_versions t fuel q =
    version_loop t q.bucket.id q.prefix q.delimiter q.max_keys batch_size fuel q.key_marker
      q.version_marker no_page
