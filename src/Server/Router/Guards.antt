-- ===== src/Server/Router/Guards.antt =====
-- What a request must look like to reach the operations that change a whole bucket or object.
use cloodsy_s.Prelude.{
  ◌≡◌, ◌≢◌, Bool, true, false, [], ◌∷◌, arith, Bytes, bytes_eq, codes, non_empty, if◌then◌else◌,
  Bool-cases, inl, inr, List, All, All-map, All-swap, any, any-false, sym, bytes_eq_no,
}
use cloodsy_s.Server.Router.{
  Request, Operation, has, handled, method_not_allowed, not_implemented, list_buckets, put_object,
  create_bucket, delete_bucket, has_any_subresource, names_one_of, unsupported_bucket_subresources,
  unsupported_object_subresources, put_on_object, get_on_object, delete_on_object, post_on_object,
  put_on_bucket, delete_on_bucket, get_on_bucket, route_object, route_bucket, route,
}

-- The sub-resources of a bucket in the S3 API: those that the program knows, and others.
abbrev pub known_api : List Bytes
known_api =
    codes "versioning"
    ∷ codes "lifecycle"
    ∷ codes "notification"
    ∷ codes "acl"
    ∷ codes "tagging"
    ∷ codes "encryption"
    ∷ codes "policy"
    ∷ codes "cors"
    ∷ codes "location"
    ∷ codes "uploads"
    ∷ codes "versions"
    ∷ codes "delete"
    ∷ codes "list-type"
    ∷ []

abbrev pub other_api : List Bytes
other_api =
    codes "website"
    ∷ codes "logging"
    ∷ codes "replication"
    ∷ codes "requestPayment"
    ∷ codes "accelerate"
    ∷ codes "analytics"
    ∷ codes "inventory"
    ∷ codes "metrics"
    ∷ codes "intelligent-tiering"
    ∷ codes "object-lock"
    ∷ codes "ownershipControls"
    ∷ codes "publicAccessBlock"
    ∷ codes "policyStatus"
    ∷ codes "attributes"
    ∷ []

-- The query names none of them.
abbrev pub Unnamed : Request → Bytes → Type 0
Unnamed r sub = All (λ name. name ≢ sub) r.query

abbrev pub IsBare : Request → Type 0
IsBare r = All (Unnamed r) known_api × All (Unnamed r) other_api

known-Unnamed : (r : Request) → has_any_subresource r ≡ false → All (Unnamed r) known_api
unfolding has_any_subresource
known-Unnamed r h =
    All-swap (λ name sub. name ≢ sub) r.query known_api
      (All-map (λ name. any (bytes_eq name) known_api ≡ false)
        (λ name. All (λ sub. name ≢ sub) known_api) r.query
        (λ name k.
          All-map (λ sub. bytes_eq name sub ≡ false) (λ sub. name ≢ sub) known_api
            (λ sub e. bytes_eq_no name sub e) (any-false (bytes_eq name) known_api k))
        (any-false (λ name. any (bytes_eq name) known_api) r.query h))

other-Unnamed :
    (r : Request)
    → names_one_of unsupported_bucket_subresources r ≡ false
    → All (Unnamed r) other_api
unfolding names_one_of has
other-Unnamed r h =
    All-map (λ sub. any (bytes_eq sub) r.query ≡ false) (Unnamed r) other_api
      (λ sub k.
        All-map (λ name. bytes_eq sub name ≡ false) (λ name. name ≢ sub) r.query
          (λ name e same. bytes_eq_no sub name e (sym same)) (any-false (bytes_eq sub) r.query k))
      (any-false (λ sub. any (bytes_eq sub) r.query) other_api h)

abbrev pub bare_operation : Bool → Operation
bare_operation deleting = if deleting then delete_bucket else create_bucket

abbrev pub bare_method : Bool → Bytes
bare_method deleting = if deleting then codes "DELETE" else codes "PUT"

module _ (r : Request) (deleting : Bool) where
  delete_on_bucket-bare :
      delete_on_bucket r ≡ handled (bare_operation deleting)
      → (has_any_subresource r ≡ false) × (deleting ≡ true)
  unfolding delete_on_bucket
  delete_on_bucket-bare h = ground arith

  put_on_bucket-bare :
      put_on_bucket r ≡ handled (bare_operation deleting)
      → (has_any_subresource r ≡ false) × (deleting ≡ false)
  unfolding put_on_bucket
  put_on_bucket-bare h = ground arith

  get_on_bucket-bare : get_on_bucket r ≢ handled (bare_operation deleting)
  unfolding get_on_bucket
  get_on_bucket-bare h = ground arith

  route_object-bare : route_object r ≢ handled (bare_operation deleting)
  unfolding route_object put_on_object get_on_object delete_on_object post_on_object
  route_object-bare h = ground arith

  not-implemented-bare : not_implemented ≢ handled (bare_operation deleting)
  not-implemented-bare h = cc

  other_methods-bare :
      bytes_eq r.method (codes "PUT") ≡ false
      → bytes_eq r.method (codes "DELETE") ≡ false
      → names_one_of unsupported_bucket_subresources r ≡ false
      → route_bucket r ≢ handled (bare_operation deleting)
  unfolding route_bucket
  other_methods-bare p d u h =
      let g = rw (route_bucket, u, p, d) at h in ground (arith, get_on_bucket-bare)

  route_bucket-IsBare :
      route_bucket r ≡ handled (bare_operation deleting)
      → (bytes_eq r.method (bare_method deleting) ≡ true) × IsBare r
  unfolding route_bucket
  route_bucket-IsBare h = elim (Bool-cases (names_one_of unsupported_bucket_subresources r)) [
    | inl u ↦ absurd (not-implemented-bare (rw (route_bucket, u) at h))
    | inr u ↦ elim (Bool-cases (bytes_eq r.method (codes "PUT"))) [
      | inl p ↦
          let (bare, own) = put_on_bucket-bare (rw (route_bucket, u, p) at h) in
          (rw own p, (known-Unnamed r bare, other-Unnamed r u))
      | inr p ↦ elim (Bool-cases (bytes_eq r.method (codes "DELETE"))) [
        | inl d ↦
            let (bare, own) = delete_on_bucket-bare (rw (route_bucket, u, p, d) at h) in
            (rw own d, (known-Unnamed r bare, other-Unnamed r u))
        | inr d ↦ absurd (other_methods-bare p d u h)
      ]
    ]
  ]

-- `CreateBucket` and `DeleteBucket` are reached only with their own method, a bucket, no key, and a
-- query that names no sub-resource of a bucket, known or unsupported.
pub route-IsBare :
    (bucket key : Bytes) (r : Request) (deleting : Bool)
    → route bucket key r ≡ handled (bare_operation deleting)
    → (bytes_eq r.method (bare_method deleting) ≡ true)
      × (non_empty bucket ≡ true)
      × (non_empty key ≡ false)
      × IsBare r
unfolding route
route-IsBare bucket key r deleting h =
    ground (arith, route_object-bare r deleting, route_bucket-IsBare r deleting)

no_bucket :
    (r : Request)
    → (if bytes_eq r.method (codes "GET") then handled list_buckets else method_not_allowed)
      ≢ handled put_object
no_bucket r h = ground arith

put_on_object-plain :
    (r : Request)
    → put_on_object r ≡ handled put_object
    → names_one_of (codes "uploadId" ∷ codes "partNumber" ∷ codes "acl" ∷ codes "tagging" ∷ []) r
      ≡ false
unfolding put_on_object names_one_of
put_on_object-plain r h = ground arith

route_bucket-put : (r : Request) → route_bucket r ≢ handled put_object
unfolding route_bucket put_on_bucket delete_on_bucket get_on_bucket
route_bucket-put r h = ground arith

route_object-put :
    (r : Request)
    → route_object r ≡ handled put_object
    → (bytes_eq r.method (codes "PUT") ≡ true)
      × (names_one_of unsupported_object_subresources r ≡ false)
      × (put_on_object r ≡ handled put_object)
unfolding route_object get_on_object delete_on_object post_on_object
route_object-put r h = ground arith

-- `PutObject` is reached only by PUT, with a bucket and a key, and with a query that names neither
-- a part of an upload, nor the ACL or the tags, nor a sub-resource that is not supported.
pub route-put_object :
    (bucket key : Bytes) (r : Request)
    → route bucket key r ≡ handled put_object
    → (bytes_eq r.method (codes "PUT") ≡ true)
      × (non_empty bucket ≡ true)
      × (non_empty key ≡ true)
      × (names_one_of unsupported_object_subresources r ≡ false)
      × (names_one_of (codes "uploadId" ∷ codes "partNumber" ∷ codes "acl" ∷ codes "tagging" ∷ []) r
          ≡ false)
unfolding route
route-put_object bucket key r h = elim (Bool-cases (non_empty bucket)) [
  | inr e ↦ absurd (no_bucket r (rw e at h))
  | inl e ↦ elim (Bool-cases (non_empty key)) [
    | inr k ↦ absurd (route_bucket-put r (rw (e, k) at h))
    | inl k ↦
        let (m, u, p) = route_object-put r (rw (e, k) at h) in (m, e, k, u, put_on_object-plain r p)
  ]
]
