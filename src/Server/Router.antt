-- ===== src/Server/Router.antt =====
-- `ServeHTTP` of server/router.go from the point where bucket and key are known: the operation that
-- a request is given to, or the error that answers it. A query counts here by the names in it.
pub mod Guards
use cloodsy_s.Prelude.{
  Bool, true, false, not, ◌&&◌, ◌||◌, List, [], ◌∷◌, any, Bytes, bytes_eq, codes, non_empty,
  if◌then◌else◌,
}

pub record Request : Type 0 where
  pub method : Bytes
  pub query : List Bytes
  pub copy_source : Bytes

-- The handlers of the package handler, by the names of their methods.
pub data Operation : Type 0 where
  list_buckets : Operation
  upload_part upload_part_copy put_object put_object_acl put_object_tagging : Operation
  get_object get_object_acl get_object_tagging list_parts head_object : Operation
  delete_object delete_object_tagging abort_multipart_upload : Operation
  create_multipart_upload complete_multipart_upload : Operation
  create_bucket put_bucket_versioning put_bucket_lifecycle put_bucket_notification : Operation
  put_bucket_acl put_bucket_tagging put_bucket_encryption put_bucket_policy put_bucket_cors :
      Operation
  delete_bucket delete_bucket_lifecycle delete_bucket_notification delete_bucket_tagging : Operation
  delete_bucket_policy delete_bucket_encryption delete_bucket_cors : Operation
  head_bucket list_objects list_object_versions list_multipart_uploads : Operation
  get_bucket_location get_bucket_acl get_bucket_tagging get_bucket_encryption : Operation
  get_bucket_policy get_bucket_cors get_bucket_versioning get_bucket_lifecycle : Operation
  get_bucket_notification delete_multiple_objects : Operation

pub data Reply : Type 0 where
  handled : Operation → Reply
  method_not_allowed not_implemented invalid_argument : Reply

abbrev pub member : List Bytes → Bytes → Bool
member names k = any (bytes_eq k) names

-- `query.Has(name)`
unfoldable pub has : Request → Bytes → Bool
has r name = member r.query name

abbrev pub bucket_subresources : List Bytes
bucket_subresources =
    codes "versioning"
    ∷ codes "lifecycle"
    ∷ codes "notification"
    ∷ codes "acl"
    ∷ codes "tagging"
    ∷ codes "encryption"
    ∷ codes "policy"
    ∷ codes "cors"
    ∷ codes "location"
    ∷ codes "uploads"
    ∷ codes "versions"
    ∷ codes "delete"
    ∷ codes "list-type"
    ∷ []

abbrev pub unsupported_bucket_subresources : List Bytes
unsupported_bucket_subresources =
    codes "website"
    ∷ codes "logging"
    ∷ codes "replication"
    ∷ codes "requestPayment"
    ∷ codes "accelerate"
    ∷ codes "analytics"
    ∷ codes "inventory"
    ∷ codes "metrics"
    ∷ codes "intelligent-tiering"
    ∷ codes "object-lock"
    ∷ codes "ownershipControls"
    ∷ codes "publicAccessBlock"
    ∷ codes "policyStatus"
    ∷ codes "attributes"
    ∷ []

abbrev pub unsupported_object_subresources : List Bytes
unsupported_object_subresources =
    codes "legal-hold" ∷ codes "retention" ∷ codes "restore" ∷ codes "select" ∷ codes "torrent" ∷ []

-- `hasAnySubresource(query)`
unfoldable pub has_any_subresource : Request → Bool
has_any_subresource r = any (member bucket_subresources) r.query

-- The loops over the sub-resources that are not supported.
unfoldable pub names_one_of : List Bytes → Request → Bool
unfolding has
names_one_of subs r = any (has r) subs

unfoldable pub put_on_object : Request → Reply
put_on_object r =
    if has r (codes "partNumber") && has r (codes "uploadId")
    then handled (if non_empty r.copy_source then upload_part_copy else upload_part)
    else if has r (codes "uploadId") || has r (codes "partNumber")
    then invalid_argument
    else if has r (codes "acl")
    then handled put_object_acl
    else if has r (codes "tagging")
    then handled put_object_tagging
    else handled put_object

unfoldable pub get_on_object : Request → Reply
get_on_object r =
    if has r (codes "acl")
    then handled get_object_acl
    else if has r (codes "tagging")
    then handled get_object_tagging
    else if has r (codes "uploadId")
    then handled list_parts
    else handled get_object

unfoldable pub delete_on_object : Request → Reply
delete_on_object r =
    if has r (codes "uploadId")
    then handled abort_multipart_upload
    else if has r (codes "tagging")
    then handled delete_object_tagging
    else handled delete_object

unfoldable pub post_on_object : Request → Reply
post_on_object r =
    if has r (codes "uploadId")
    then handled complete_multipart_upload
    else if has r (codes "uploads")
    then handled create_multipart_upload
    else method_not_allowed

unfoldable pub route_object : Request → Reply
route_object r =
    if names_one_of unsupported_object_subresources r
    then not_implemented
    else if bytes_eq r.method (codes "PUT")
    then put_on_object r
    else if bytes_eq r.method (codes "GET")
    then get_on_object r
    else if bytes_eq r.method (codes "HEAD")
    then handled head_object
    else if bytes_eq r.method (codes "DELETE")
    then delete_on_object r
    else if bytes_eq r.method (codes "POST")
    then post_on_object r
    else method_not_allowed

unfoldable pub put_on_bucket : Request → Reply
put_on_bucket r =
    if has r (codes "versioning")
    then handled put_bucket_versioning
    else if has r (codes "lifecycle")
    then handled put_bucket_lifecycle
    else if has r (codes "notification")
    then handled put_bucket_notification
    else if has r (codes "acl")
    then handled put_bucket_acl
    else if has r (codes "tagging")
    then handled put_bucket_tagging
    else if has r (codes "encryption")
    then handled put_bucket_encryption
    else if has r (codes "policy")
    then handled put_bucket_policy
    else if has r (codes "cors")
    then handled put_bucket_cors
    else if has_any_subresource r
    then not_implemented
    else handled create_bucket

unfoldable pub delete_on_bucket : Request → Reply
delete_on_bucket r =
    if has r (codes "lifecycle")
    then handled delete_bucket_lifecycle
    else if has r (codes "notification")
    then handled delete_bucket_notification
    else if has r (codes "tagging")
    then handled delete_bucket_tagging
    else if has r (codes "policy")
    then handled delete_bucket_policy
    else if has r (codes "encryption")
    then handled delete_bucket_encryption
    else if has r (codes "cors")
    then handled delete_bucket_cors
    else if has_any_subresource r
    then not_implemented
    else handled delete_bucket

unfoldable pub get_on_bucket : Request → Reply
get_on_bucket r =
    if has r (codes "location")
    then handled get_bucket_location
    else if has r (codes "uploads")
    then handled list_multipart_uploads
    else if has r (codes "acl")
    then handled get_bucket_acl
    else if has r (codes "tagging")
    then handled get_bucket_tagging
    else if has r (codes "encryption")
    then handled get_bucket_encryption
    else if has r (codes "policy")
    then handled get_bucket_policy
    else if has r (codes "cors")
    then handled get_bucket_cors
    else if has r (codes "versioning")
    then handled get_bucket_versioning
    else if has r (codes "versions")
    then handled list_object_versions
    else if has r (codes "lifecycle")
    then handled get_bucket_lifecycle
    else if has r (codes "notification")
    then handled get_bucket_notification
    else handled list_objects

unfoldable pub route_bucket : Request → Reply
route_bucket r =
    if names_one_of unsupported_bucket_subresources r
    then not_implemented
    else if bytes_eq r.method (codes "PUT")
    then put_on_bucket r
    else if bytes_eq r.method (codes "DELETE")
    then delete_on_bucket r
    else if bytes_eq r.method (codes "HEAD")
    then handled head_bucket
    else if bytes_eq r.method (codes "GET")
    then get_on_bucket r
    else if bytes_eq r.method (codes "POST")
    then (if has r (codes "delete") then handled delete_multiple_objects else method_not_allowed)
    else method_not_allowed

-- The routing of a request for a bucket and a key.
unfoldable pub route : Bytes → Bytes → Request → Reply
route bucket key r =
    if not (non_empty bucket)
    then (if bytes_eq r.method (codes "GET") then handled list_buckets else method_not_allowed)
    else if non_empty key
    then route_object r
    else route_bucket r
