-- ===== src/Storage/Parts/Assembly.antt =====
-- The object that a multipart upload becomes.
use cloodsy_s.Prelude.{
  ℕ, ◌≡◌, refl, ap, ◌∙◌, inl, inr, false, Option, none, some, List, [], ◌∷◌, ◌++◌, length, Bytes,
  map, lookup-insert_at,
}
use cloodsy_s.Prelude.Result.{Result, ok, err, Result-cases}
use cloodsy_s.Service.Errors.{ServiceError}
use cloodsy_s.Storage.Files.{
  FileSystem, Files, Reader, PutOptions, Written, exceeds, read_result, write_atomic, open_regular,
  object_path, versioned_object_path, get_object, get_versioned_object,
}
use cloodsy_s.Storage.Files.Writes.{read_result-ok}
use cloodsy_s.Storage.Parts.{
  multipart_dir, part_path, concatenate, multipart_etag, assemble_from, assemble,
  assemble_multipart_parts, assemble_multipart_parts_versioned,
}

-- One content for each part number, found at the part's path.
abbrev pub AreStaged : Bytes → Files → List ℕ → List Bytes → Type 0
AreStaged dir files [] [] = Unit
AreStaged dir files (n ∷ numbers) (c ∷ contents) =
    (open_regular (part_path dir n) files ≡ ok c) × AreStaged dir files numbers contents
AreStaged dir files [] (_ ∷ _) = ⊥
AreStaged dir files (_ ∷ _) [] = ⊥

abbrev pub join_all : List Bytes → Bytes
join_all [] = []
join_all (c ∷ contents) = c ++ join_all contents

module _ (md5 : Bytes → Bytes) (files : Files) where
  concatenate-AreStaged :
      (dir : Bytes) (numbers : List ℕ)
      → (concatenate md5 dir numbers files).reader.failure ≡ none
      → (contents : List Bytes) × AreStaged dir files numbers contents
        × ((concatenate md5 dir numbers files).reader.bytes ≡ join_all contents)
        × ((concatenate md5 dir numbers files).digests ≡ join_all (map md5 contents))
  unfolding concatenate
  concatenate-AreStaged dir [] h = ([], tt, refl, refl)
  concatenate-AreStaged dir (n ∷ numbers) h =
      elim (Result-cases (open_regular (part_path dir n) files)) [
        | inl (e, missing) ↦ let no : some e ≡ none = rw missing at h in cc
        | inr (c, found) ↦
            let (contents, staged, joined, sums) =
              concatenate-AreStaged dir numbers (rw found at h) in
            (c ∷ contents, (found, staged), rw (found, joined) refl, rw (found, sums) refl)
      ]

  -- What an assembly that is done has done.
  abbrev pub IsJoined :
      Bytes → List ℕ → PutOptions → (Files → Result ServiceError Bytes) → ℕ → Bytes → Files → Type 0
  IsJoined dir numbers o opened size etag files' =
      (contents : List Bytes) × AreStaged dir files numbers contents
      × (opened files' ≡ ok (join_all contents))
      × (size ≡ length (join_all contents))
      × (exceeds o.max_size (join_all contents) ≡ false)
      × (o.verify size (md5 (join_all contents)) ≡ ok tt)
      × (etag ≡ multipart_etag md5 (join_all (map md5 contents)) (length numbers))

  -- A failed assembly leaves the files as they were.
  abbrev pub IsAssembled :
      Option Bytes → List ℕ → PutOptions → (Files → Result ServiceError Bytes) → Written → Type 0
  IsAssembled staging numbers o opened (err e, files') = files' ≡ files
  IsAssembled staging numbers o opened (ok (size, etag), files') =
      (dir : Bytes) × (staging ≡ some dir) × IsJoined dir numbers o opened size etag files'

  assemble_from-IsAssembled :
      (dst : Bytes) (staging : Option Bytes) (numbers : List ℕ) (o : PutOptions)
      → IsAssembled staging numbers o
          (open_regular (some dst))
          (assemble_from md5 dst staging numbers o files)
  unfolding write_atomic
  assemble_from-IsAssembled dst none numbers o = refl
  assemble_from-IsAssembled dst (some dir) numbers o =
      let r : Reader = (concatenate md5 dir numbers files).reader in
      elim (Result-cases (read_result o r)) [
        | inl (e, failed) ↦ rw failed refl
        | inr (content, read) ↦
            let (same, fine, fits) = read_result-ok md5 r o files content read in
            let (contents, staged, joined, sums) = concatenate-AreStaged dir numbers fine in
            let it : content ≡ join_all contents = same ∙ joined in
            elim (Result-cases (o.verify (length (join_all contents)) (md5 (join_all contents)))) [
              | inl (e, refused) ↦ rw (read, it, refused) refl
              | inr (u, passed) ↦
                  rw (read, it, passed)
                    (
                      dir,
                      refl,
                      (
                        contents,
                        staged,
                        rw (lookup-insert_at dst (join_all contents) files) refl,
                        refl,
                        rw (← joined) fits,
                        passed,
                        ap (λ d. multipart_etag md5 d (length numbers)) sums,
                      ),
                    )
            ]
      ]

  assemble-IsAssembled :
      (fs : FileSystem) (dst : Option Bytes) (bucket upload_id : Bytes) (numbers : List ℕ)
      (o : PutOptions)
      → IsAssembled
          (multipart_dir fs bucket upload_id)
          numbers
          o
          (open_regular dst)
          (assemble md5 fs dst bucket upload_id numbers o files)
  assemble-IsAssembled fs none bucket upload_id numbers o = refl
  assemble-IsAssembled fs (some dst) bucket upload_id numbers o =
      assemble_from-IsAssembled dst (multipart_dir fs bucket upload_id) numbers o

  -- An assembly that fails leaves every file as it was. One that is done found a file for every part
  -- number, and reading the object or the version then gives their contents, joined in the order of the
  -- numbers: within the limit, approved by the check, and with the size and the ETag that it reports,
  -- the MD5 of the parts' MD5 sums and their number.
  pub assemble_multipart_parts-IsAssembled :
      (sha256 : Bytes → Bytes) (fs : FileSystem) (bucket key version_id upload_id : Bytes)
      (numbers : List ℕ) (o : PutOptions)
      → IsAssembled
          (multipart_dir fs bucket upload_id)
          numbers
          o
          (get_object sha256 fs bucket key)
          (assemble_multipart_parts md5 sha256 fs bucket key upload_id numbers o files)
        × IsAssembled
            (multipart_dir fs bucket upload_id)
            numbers
            o
            (get_versioned_object sha256 fs bucket key version_id)
            (assemble_multipart_parts_versioned md5 sha256 fs bucket key version_id upload_id
              numbers o files)
  unfolding assemble_multipart_parts assemble_multipart_parts_versioned get_object
      get_versioned_object
  assemble_multipart_parts-IsAssembled sha256 fs bucket key version_id upload_id numbers o = (
    assemble-IsAssembled fs (object_path sha256 fs bucket key) bucket upload_id numbers o,
    assemble-IsAssembled fs (versioned_object_path sha256 fs bucket key version_id) bucket upload_id
        numbers o,
  )
