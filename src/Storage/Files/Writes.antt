-- ===== src/Storage/Files/Writes.antt =====
-- What a write leaves behind, whether it succeeds or not.
use mathlib.Core.Option
use mathlib.Core.Option.{some-injective}
use mathlib.Core.List.{append_cancel_left, append_cancel_right, tail-eq_of_cons-eq}
use cloodsy_s.Prelude.{
  ◌≡◌, ◌≢◌, refl, sym, ap, ◌∙◌, inl, inr, false, not, ◌&&◌, Option, none, some, [], ◌∷◌, ◌++◌,
  length, Bytes, IsBytes, has_prefix, bytes_eq, bytes_eq_iff, lookup-insert_at, lookup-insert_other,
  Bool-cases, Option-cases,
}
use cloodsy_s.Prelude.Result.{Result, ok, err, Result-cases}
use cloodsy_s.Service.Errors.{ServiceError, too_large}
use cloodsy_s.Storage.KeyPath.{encode_key_path, safe_ext}
use cloodsy_s.Storage.KeyPath.Injective.{NoCollision, encode_key_path_inj}
use cloodsy_s.Storage.Files.{
  bucket_root, safe_join, key_path, FileSystem, Files, Reader, PutOptions, exceeds, read_result,
  quote_etag, Written, write_atomic, put_at, open_regular, object_path, versioned_object_path,
  put_object, get_object, put_versioned_object, get_versioned_object,
}

module _ (md5 : Bytes → Bytes) (r : Reader) (o : PutOptions) (files : Files) where
  -- A failed write leaves the files as they were. A write that is done had a reader without an error,
  -- no more bytes than the limit, and the approval of the check; it reports their number and their MD5,
  -- and `opened` reads them again.
  abbrev pub IsStored : (Files → Result ServiceError Bytes) → Written → Type 0
  IsStored opened (err e, files') = files' ≡ files
  IsStored opened (ok (size, etag), files') =
      (opened files' ≡ ok r.bytes)
      × (r.failure ≡ none)
      × (exceeds o.max_size r.bytes ≡ false)
      × (o.verify (length r.bytes) (md5 r.bytes) ≡ ok tt)
      × (size ≡ length r.bytes)
      × (etag ≡ quote_etag (md5 r.bytes))

  pub read_result-ok :
      (content : Bytes)
      → read_result o r ≡ ok content
      → (content ≡ r.bytes) × (r.failure ≡ none) × (exceeds o.max_size r.bytes ≡ false)
  read_result-ok content h = elim (Bool-cases (exceeds o.max_size r.bytes)) [
    | inl over ↦ let no : err too_large ≡ ok content = rw over at h in cc
    | inr fits ↦ elim (Option-cases r.failure) [
      | inr (e, failed) ↦ let no : err e ≡ ok content = rw (fits, failed) at h in cc
      | inl none_failed ↦
          let it : ok r.bytes ≡ ok content = rw (fits, none_failed) at h in
          let same : content ≡ r.bytes = cc in (same, none_failed, fits)
    ]
  ]

  pub put_at-IsStored :
      (path : Option Bytes) → IsStored (open_regular path) (put_at md5 path r o files)
  unfolding write_atomic
  put_at-IsStored none = refl
  put_at-IsStored (some dst) = elim (Result-cases (read_result o r)) [
    | inl (e, failed) ↦ rw failed refl
    | inr (content, read) ↦
        let (same, fine, fits) = read_result-ok content read in
        elim (Result-cases (o.verify (length r.bytes) (md5 r.bytes))) [
          | inl (e, refused) ↦ rw (read, same, refused) refl
          | inr (u, passed) ↦
              rw (read, same, passed)
                (rw (lookup-insert_at dst r.bytes files) refl, fine, fits, passed, refl, refl)
        ]
  ]

  put_at-opened :
      (path other : Option Bytes)
      → ((p : Bytes) → path ≡ some p → other ≡ some p → ⊥)
      → open_regular other (put_at md5 path r o files).1 ≡ open_regular other files
  unfolding write_atomic
  put_at-opened path none apart = refl
  put_at-opened none (some p) apart = refl
  put_at-opened (some dst) (some p) apart = elim (Result-cases (read_result o r)) [
    | inl (e, failed) ↦ rw failed refl
    | inr (content, read) ↦ elim (Result-cases (o.verify (length content) (md5 content))) [
      | inl (e, refused) ↦ rw (read, refused) refl
      | inr (u, passed) ↦ elim (Bool-cases (bytes_eq dst p)) [
        | inl same ↦ absurd (apart p (ap some ((bytes_eq_iff dst p).0 same)) refl)
        | inr away ↦ rw (read, passed, lookup-insert_other p dst content files away) refl
      ]
    ]
  ]

safe_join-inv : (root rel p : Bytes) → safe_join root rel ≡ some p → p ≡ root ++ (b'/' ∷ rel)
unfolding safe_join
safe_join-inv root rel p h =
    elim (Bool-cases (
      not (bytes_eq (root ++ (b'/' ∷ rel)) root)
      && not (has_prefix (root ++ (b'/' ∷ rel)) (root ++ (b'/' ∷ []))))) [
        | inl escapes ↦ let no : none ≡ some p = rw escapes at h in cc
        | inr inside ↦
            let it : some (root ++ (b'/' ∷ rel)) ≡ some p = rw inside at h in
            sym (some-injective _ _ it)
      ]

module _ (sha256 : Bytes → Bytes) (fs : FileSystem) (bucket : Bytes) where
  pub key_path-inv :
      (key p : Bytes)
      → key_path sha256 fs bucket key ≡ some p
      → (root : Bytes) × (rel : Bytes) × (bucket_root fs bucket ≡ some root)
        × (encode_key_path sha256 key ≡ some rel)
        × (p ≡ root ++ (b'/' ∷ rel))
  unfolding Option.bind
  key_path-inv key p h = elim (Option-cases (bucket_root fs bucket)) [
    | inl bad ↦ let no : none ≡ some p = rw bad at h in cc
    | inr (root, found) ↦ elim (Option-cases (encode_key_path sha256 key)) [
      | inl bad ↦ let no : none ≡ some p = rw (found, bad) at h in cc
      | inr (rel, e) ↦ (root, rel, found, e, safe_join-inv root rel p (rw (found, e) at h))
    ]
  ]

  object_path-inv :
      (key path : Bytes)
      → object_path sha256 fs bucket key ≡ some path
      → (p : Bytes) × (key_path sha256 fs bucket key ≡ some p) × (path ≡ p ++ safe_ext)
  unfolding object_path
  object_path-inv key path h = elim (Option-cases (key_path sha256 fs bucket key)) [
    | inl bad ↦ let no : none ≡ some path = rw bad at h in cc
    | inr (p, e) ↦ (p, e, sym (some-injective _ _ (rw e at h)))
  ]

  -- Keys of one path are the same.
  object_path_inj :
      (key key' path : Bytes)
      → IsBytes key
      → IsBytes key'
      → NoCollision sha256 key key'
      → object_path sha256 fs bucket key ≡ some path
      → object_path sha256 fs bucket key' ≡ some path
      → key ≡ key'
  object_path_inj key key' path b b' n h h' =
      let (p, at_p, ends) = object_path-inv key path h in
      let (p', at_p', ends') = object_path-inv key' path h' in
      let (root, rel, found, e, shape) = key_path-inv key p at_p in
      let (root', rel', found', e', shape') = key_path-inv key' p' at_p' in
      let same : root ≡ root' = some-injective _ _ (sym found ∙ found') in
      let joined = sym shape ∙ append_cancel_right p p' safe_ext (sym ends ∙ ends') ∙ shape' in
      let rels : rel ≡ rel' =
        tail-eq_of_cons-eq
          (append_cancel_left root (b'/' ∷ rel) (b'/' ∷ rel') (rw (← same) at joined)) in
      encode_key_path_inj sha256 key key' rel b b' n e (rw (← rels) at e')

  module _ (md5 : Bytes → Bytes) (key : Bytes) (r : Reader) (o : PutOptions) (files : Files) where
    -- A write of an object or of a version that fails leaves every file as it was. A write that is done
    -- had a reader without an error, no more bytes than the limit, and the approval of the check, which
    -- saw their number and their MD5; it reports these, and reading the object or the version gives the
    -- bytes.
    pub put_object-IsStored :
        (version_id : Bytes)
        → IsStored md5 r o files
            (get_object sha256 fs bucket key)
            (put_object sha256 fs md5 bucket key r o files)
          × IsStored md5 r o files
              (get_versioned_object sha256 fs bucket key version_id)
              (put_versioned_object sha256 fs md5 bucket key version_id r o files)
    unfolding put_object put_versioned_object get_object get_versioned_object
    put_object-IsStored version_id = (
      put_at-IsStored md5 r o files (object_path sha256 fs bucket key),
      put_at-IsStored md5 r o files (versioned_object_path sha256 fs bucket key version_id),
    )

    -- Where SHA-256 does not collide on the segments of two different keys of bytes, a write of the one,
    -- whether it succeeds or not, changes nothing that reading the other gives.
    pub get_object-put_other :
        (other : Bytes)
        → IsBytes key
        → IsBytes other
        → NoCollision sha256 key other
        → key ≢ other
        → get_object sha256 fs bucket other (put_object sha256 fs md5 bucket key r o files).1
          ≡ get_object sha256 fs bucket other files
    unfolding put_object get_object
    get_object-put_other other b b' n differ =
        put_at-opened md5 r o files (object_path sha256 fs bucket key)
          (object_path sha256 fs bucket other)
          (λ p e e'. differ (object_path_inj key other p b b' n e e'))
