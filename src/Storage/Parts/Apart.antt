-- ===== src/Storage/Parts/Apart.antt =====
-- The staging tree lies beside the bucket's directory.
use mathlib.Core.Option
use mathlib.Core.Option.{some-injective}
use mathlib.Core.List.{append_assoc}
use cloodsy_s.Prelude.{
  ℕ, ◌==◌, ◌≡◌, refl, sym, ◌∙◌, inl, inr, Bool, true, false, not, ◌||◌, Option, none, some, [], ◌∷◌,
  ◌++◌, Bytes, bytes_eq, has_prefix, codes, lookup, lookup-keep, Bool-cases, Option-cases, arith,
}
use cloodsy_s.Prelude.Result.{ok, err, or_refuse-some}
use cloodsy_s.Handler.Validation.{matches_bucket_name, is_valid_bucket_name}
use cloodsy_s.Service.Errors.{other_error}
use cloodsy_s.Storage.KeyPath.{safe_ext, version_sep}
use cloodsy_s.Storage.Files.{
  FileSystem, Files, bucket_base_path, bucket_root, sibling_dir, key_path, object_path,
  versioned_object_path, open_regular, get_object, get_versioned_object, bad_version_id,
}
use cloodsy_s.Storage.Files.Writes.{key_path-inv}
use cloodsy_s.Storage.Parts.{is_valid_uuid, multipart_dir, remove_tree, delete_multipart_parts}

has_prefix-common : (base s p : Bytes) → has_prefix (base ++ s) (base ++ p) ≡ has_prefix s p
unfolding has_prefix
has_prefix-common [] s p = refl
has_prefix-common (x ∷ base) s p = ground (arith, has_prefix-common base s p)

bytes_eq-common : (base s p : Bytes) → bytes_eq (base ++ s) (base ++ p) ≡ bytes_eq s p
unfolding bytes_eq
bytes_eq-common [] s p = refl
bytes_eq-common (x ∷ base) s p = ground (arith, bytes_eq-common base s p)

-- A path below a directory of the base whose name does not start with a dot.
abbrev IsVisible : Bytes → Bytes → Type 0
IsVisible base path =
    (c : ℕ) × (more : Bytes) × ((c == b'.') ≡ false) × (path ≡ base ++ (b'/' ∷ c ∷ more))

abbrev in_tree : Bytes → Bytes → Bool
in_tree dir path = bytes_eq path dir || has_prefix path (dir ++ (b'/' ∷ []))

visible-apart :
    (base path rest : Bytes)
    → IsVisible base path
    → in_tree (base ++ (b'/' ∷ b'.' ∷ rest)) path ≡ false
unfolding bytes_eq has_prefix
visible-apart base path rest (c, more, plain, shape) =
    rw
      (
        shape,
        append_assoc base (b'/' ∷ b'.' ∷ rest) (b'/' ∷ []),
        bytes_eq-common base (b'/' ∷ c ∷ more) (b'/' ∷ b'.' ∷ rest),
        has_prefix-common base (b'/' ∷ c ∷ more) (b'/' ∷ b'.' ∷ rest ++ (b'/' ∷ [])),
      )
      (ground arith)

valid_head :
    (bucket : Bytes)
    → is_valid_bucket_name bucket ≡ true
    → (c : ℕ) × (s : Bytes) × (bucket ≡ c ∷ s) × ((c == b'.') ≡ false)
unfolding is_valid_bucket_name matches_bucket_name
valid_head [] h = cc
valid_head (c ∷ s) h = (c, s, refl, ground arith)

path_shape :
    (base root rel suffix p bucket : Bytes) (c : ℕ) (s : Bytes)
    → p ≡ root ++ (b'/' ∷ rel)
    → root ≡ base ++ (b'/' ∷ bucket)
    → bucket ≡ c ∷ s
    → p ++ suffix ≡ base ++ (b'/' ∷ c ∷ (s ++ ((b'/' ∷ rel) ++ suffix)))
path_shape base root rel suffix p bucket c s shape under name =
    rw (shape, under, name)
      (append_assoc (base ++ (b'/' ∷ c ∷ s)) (b'/' ∷ rel) suffix
        ∙ append_assoc base (b'/' ∷ c ∷ s) ((b'/' ∷ rel) ++ suffix))

-- A file outside of a tree stays.
remove_tree-opened :
    (dir p : Bytes) (files : Files) (content : Bytes)
    → in_tree dir p ≡ false
    → open_regular (some p) files ≡ ok content
    → open_regular (some p) (remove_tree (some dir) files) ≡ ok content
remove_tree-opened dir p files content out h =
    let found = or_refuse-some (lookup p files) other_error h in
    rw (lookup-keep (λ f. not (in_tree dir f.0)) p files content found (rw out refl)) refl

module _ (sha256 : Bytes → Bytes) (fs : FileSystem) (bucket : Bytes) where
  bucket_root-inv :
      (root : Bytes)
      → bucket_root fs bucket ≡ some root
      → (is_valid_bucket_name bucket ≡ true)
        × (root ≡ bucket_base_path fs bucket ++ (b'/' ∷ bucket))
  unfolding bucket_root
  bucket_root-inv root h = elim (Bool-cases (is_valid_bucket_name bucket)) [
    | inl valid ↦ (valid, sym (some-injective _ _ (rw valid at h)))
    | inr bad ↦ let no : none ≡ some root = rw bad at h in cc
  ]

  key_path-IsVisible :
      (key p suffix : Bytes)
      → key_path sha256 fs bucket key ≡ some p
      → IsVisible (bucket_base_path fs bucket) (p ++ suffix)
  key_path-IsVisible key p suffix h =
      let (root, rel, found, _, shape) = key_path-inv sha256 fs bucket key p h in
      let (valid, under) = bucket_root-inv root found in
      let (c, s, name, plain) = valid_head bucket valid in
      let base_path = bucket_base_path fs bucket in
      (
        c,
        s ++ ((b'/' ∷ rel) ++ suffix),
        plain,
        path_shape base_path root rel suffix p bucket c s shape under name,
      )

  open_regular-removed :
      (p : Bytes) (upload_id : Bytes) (files : Files) (content : Bytes)
      → IsVisible (bucket_base_path fs bucket) p
      → open_regular (some p) files ≡ ok content
      → open_regular (some p) (delete_multipart_parts fs bucket upload_id files) ≡ ok content
  unfolding delete_multipart_parts multipart_dir sibling_dir
  open_regular-removed p upload_id files content v h = elim (Bool-cases (is_valid_uuid upload_id)) [
    | inr bad ↦ rw bad h
    | inl good ↦ elim (Bool-cases (is_valid_bucket_name bucket)) [
      | inr bad ↦ rw (good, bad) h
      | inl valid ↦
          rw (good, valid)
            (let base_path = bucket_base_path fs bucket in
              let name : Bytes = b'/' ∷ b'.' ∷ (bucket ++ (b'-' ∷ codes "multipart")) in
              let out : in_tree ((base_path ++ name) ++ (b'/' ∷ upload_id)) p ≡ false =
                rw (append_assoc base_path name (b'/' ∷ upload_id))
                  (visible-apart base_path p _ v) in
              remove_tree-opened ((base_path ++ name) ++ (b'/' ∷ upload_id)) p files content out h)
    ]
  ]

  opened-kept :
      (key suffix upload_id : Bytes) (files : Files) (content : Bytes) (path : Option Bytes)
      → path ≡ Option.map (λ (p : Bytes). p ++ suffix) (key_path sha256 fs bucket key)
      → open_regular path files ≡ ok content
      → open_regular path (delete_multipart_parts fs bucket upload_id files) ≡ ok content
  opened-kept key suffix upload_id files content path e h =
      elim (Option-cases (key_path sha256 fs bucket key)) [
        | inl bad ↦
            let none_at : path ≡ none = rw bad at e in
            let no : err other_error ≡ ok content = rw none_at at h in cc
        | inr (p, found) ↦
            let at_p : path ≡ some (p ++ suffix) = rw found at e in
            rw at_p (
              open_regular-removed (p ++ suffix) upload_id files content
                (key_path-IsVisible key p suffix found) (rw at_p at h))
      ]

  pub get_object-kept :
      (key upload_id : Bytes) (files : Files) (content : Bytes)
      → get_object sha256 fs bucket key files ≡ ok content
      → get_object sha256 fs bucket key (delete_multipart_parts fs bucket upload_id files)
        ≡ ok content
  unfolding get_object object_path
  get_object-kept key upload_id files content h =
      opened-kept key safe_ext upload_id files content (object_path sha256 fs bucket key) refl h

  pub get_versioned_object-kept :
      (key version_id upload_id : Bytes) (files : Files) (content : Bytes)
      → get_versioned_object sha256 fs bucket key version_id files ≡ ok content
      → get_versioned_object sha256 fs bucket key version_id
          (delete_multipart_parts fs bucket upload_id files)
        ≡ ok content
  unfolding get_versioned_object versioned_object_path
  get_versioned_object-kept key version_id upload_id files content h =
      elim (Bool-cases (bad_version_id version_id)) [
        | inl bad ↦ let no : err other_error ≡ ok content = rw bad at h in cc
        | inr good ↦
            opened-kept key (version_sep ++ (version_id ++ safe_ext)) upload_id files content
              (versioned_object_path sha256 fs bucket key version_id) (rw good refl) h
      ]
