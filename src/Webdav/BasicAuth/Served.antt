-- ===== src/Webdav/BasicAuth/Served.antt =====
-- Who gets to the files.
use cloodsy_s.Prelude.{
  ℕ, ◌≡◌, ap, sym, arith, inl, inr, refl, Bool, true, false, not, ◌&&◌, Option, none, some, Bytes,
  bytes_eq, bytes_eq_iff, Bool-cases, Option-cases, List, [], ◌∷◌, All, All-map, any-false,
  bytes_eq_no, ◌≢◌, ◌⊎◌, codes,
}
use cloodsy_s.Service.Objects.{Bucket}
use cloodsy_s.Handler.Access.{BucketCredential, Context, credential_with}
use cloodsy_s.Webdav.Limiter.{Limiter, blocked, fail, reset}
use cloodsy_s.Webdav.BasicAuth.{
  DavRequest, locked_out, unauthorized, webdav_disabled, read_only_credential, served, client_ip,
  is_write_method, bucket_with_id, read_row, is_read_only, granted, with_bucket, with_credential,
  with_login, with_lock, basic_auth,
}

-- The methods of WebDAV that change a file, its properties or its locks.
abbrev pub changing_methods : List Bytes
changing_methods =
    codes "PUT"
    ∷ codes "DELETE"
    ∷ codes "MKCOL"
    ∷ codes "MOVE"
    ∷ codes "COPY"
    ∷ codes "PROPPATCH"
    ∷ codes "LOCK"
    ∷ codes "UNLOCK"
    ∷ []

-- The login names a credential by its key and secret; the bucket is the credential's, is open to
-- WebDAV, and is not changed with a read-only credential.
abbrev pub IsServed : Context → DavRequest → Bucket → Bool → Type 0
IsServed x r b read_only =
    (cred : BucketCredential) × (user : Bytes) × (r.login ≡ some (user, cred.secret_key))
    × (credential_with user x.credentials ≡ some cred)
    × (bucket_with_id cred.bucket_id x.buckets ≡ some b)
    × (b.webdav_enabled ≡ true)
    × (read_only ≡ is_read_only cred)
    × ((read_only ≡ false) ⊎ All (λ m. r.dav_method ≢ m) changing_methods)

refused_methods :
    (read_only : Bool) (method : Bytes)
    → (read_only && is_write_method method) ≡ false
    → (read_only ≡ false) ⊎ All (λ m. method ≢ m) changing_methods
unfolding is_write_method
refused_methods false method h = inl refl
refused_methods true method h = inr (
    All-map (λ m. bytes_eq method m ≡ false) (λ m. method ≢ m) changing_methods
      (λ m k. bytes_eq_no method m k) (any-false (bytes_eq method) changing_methods h))

read_row-some :
    {A : Type 0} (x : Context) (row : Option A) (a : A) → read_row x row ≡ some a → row ≡ some a
read_row-some x row a h = elim (Bool-cases x.readable) [
  | inl ok ↦ rw ok at h
  | inr bad ↦ let no : none ≡ some a = rw bad at h in cc
]

granted-served :
    (method : Bytes) (cred : BucketCredential) (b b' : Bucket) (read_only : Bool)
    → granted method cred b ≡ served b' read_only
    → (b ≡ b')
      × (b.webdav_enabled ≡ true)
      × (read_only ≡ is_read_only cred)
      × ((read_only && is_write_method method) ≡ false)
granted-served method cred b b' read_only h = elim (Bool-cases (not b.webdav_enabled)) [
  | inl shut ↦ let no : webdav_disabled ≡ served b' read_only = ground arith in cc
  | inr open_bucket ↦ elim (Bool-cases (is_read_only cred && is_write_method method)) [
    | inl refused ↦ let no : read_only_credential ≡ served b' read_only = ground arith in cc
    | inr fine ↦
        let it : served b (is_read_only cred) ≡ served b' read_only = ground arith in
        let same : b ≡ b' = cc in
        let flag : read_only ≡ is_read_only cred = cc in (same, ground arith, flag, rw flag fine)
  ]
]

module _ (now : ℕ) (x : Context) (r : DavRequest) (l : Limiter) (b : Bucket)
    (read_only : Bool) where
  with_bucket-served :
      (cred : BucketCredential) (found : Option Bucket) (l' : Limiter)
      → with_bucket now x r l cred found ≡ (served b read_only, l')
      → (c : Bucket) × (found ≡ some c)
        × (granted r.dav_method cred c ≡ served b read_only)
        × (l' ≡ reset (client_ip r.remote_addr) l)
  with_bucket-served cred none l' h =
      let no : unauthorized ≡ served b read_only = ap (λ p. p.0) h in cc
  with_bucket-served cred (some c) l' h = (c, refl, ap (λ p. p.0) h, sym (ap (λ p. p.1) h))

  with_credential-IsServed :
      (user pass : Bytes) (found : Option BucketCredential) (l' : Limiter)
      → r.login ≡ some (user, pass)
      → found ≡ read_row x (credential_with user x.credentials)
      → with_credential now x r l pass found ≡ (served b read_only, l')
      → IsServed x r b read_only × (l' ≡ reset (client_ip r.remote_addr) l)
  with_credential-IsServed user pass none l' e f h =
      let no : unauthorized ≡ served b read_only = ap (λ p. p.0) h in cc
  with_credential-IsServed user pass (some cred) l' e f h =
      elim (Bool-cases (bytes_eq cred.secret_key pass)) [
        | inr wrong ↦
            let it : (unauthorized, fail now (client_ip r.remote_addr) l)
                ≡ (served b read_only, l') =
              rw wrong at h in
            let no : unauthorized ≡ served b read_only = ap (λ p. p.0) it in cc
        | inl right ↦
            let (c, row, grant, state) =
              with_bucket-served cred (read_row x (bucket_with_id cred.bucket_id x.buckets)) l'
                (rw right at h) in
            let (same, enabled, flag, allowed) =
              granted-served r.dav_method cred c b read_only grant in
            let secret = (bytes_eq_iff cred.secret_key pass).0 right in
            (
              (
                cred,
                user,
                rw secret e,
                read_row-some x (credential_with user x.credentials) cred (sym f),
                rw (← same) (read_row-some x (bucket_with_id cred.bucket_id x.buckets) c row),
                rw (← same) enabled,
                flag,
                refused_methods read_only r.dav_method allowed,
              ),
              state,
            )
      ]

  with_login-IsServed :
      (login : Option (Bytes × Bytes)) (l' : Limiter)
      → r.login ≡ login
      → with_login now x r l login ≡ (served b read_only, l')
      → IsServed x r b read_only × (l' ≡ reset (client_ip r.remote_addr) l)
  with_login-IsServed none l' e h =
      let no : unauthorized ≡ served b read_only = ap (λ p. p.0) h in cc
  with_login-IsServed (some (user, pass)) l' e h =
      with_credential-IsServed user pass (read_row x (credential_with user x.credentials)) l' e refl
        h

  -- A request gets to the files only if its address is not locked out and it names the key and the
  -- secret of a credential, whose bucket it gets, which is open to WebDAV; a read-only credential does
  -- not get there with PUT, DELETE, MKCOL, MOVE, COPY, PROPPATCH, LOCK or UNLOCK. The address then has no failures on record.
  pub basic_auth-IsServed :
      (l' : Limiter)
      → basic_auth now x r l ≡ (served b read_only, l')
      → (blocked now (client_ip r.remote_addr) l ≡ none)
        × IsServed x r b read_only
        × (l' ≡ reset (client_ip r.remote_addr) l)
  unfolding basic_auth
  basic_auth-IsServed l' h = elim (Option-cases (blocked now (client_ip r.remote_addr) l)) [
    | inr (d, e) ↦
        let it : with_lock now x r l (some d) ≡ (served b read_only, l') = rw e at h in
        let no : locked_out _ ≡ served b read_only = ap (λ p. p.0) it in cc
    | inl e ↦
        let (serves, state) = with_login-IsServed r.login l' refl (rw e at h) in (e, serves, state)
  ]
