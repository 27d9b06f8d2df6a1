-- ===== src/Service/Writes/Readback.antt =====
-- What a write leaves to be read.
use cloodsy_s.Prelude.{
  ℕ, ◌≤◌, ◌==◌, ==_iff, ◌≡◌, ◌⊎◌, refl, inl, inr, Bool, true, false, some, length, Bytes, codes,
  if◌then◌else◌, Bool-cases, arith,
}
use cloodsy_s.Prelude.Result.{Result, ok, err, ◌>>◌, Result-cases, demand-ok}
use cloodsy_s.Db.Objects.{
  ObjectMeta, Table, get_object_meta, get_bucket_usage, put_object_meta_versioned,
}
use cloodsy_s.Db.Objects.WellFormed.{IsWellFormed, of_key_self}
use cloodsy_s.Db.Objects.Latest.{put-IsWellFormed}
use cloodsy_s.Db.Objects.Lookup.{get-put, stored}
use cloodsy_s.Service.Errors.{ServiceError, over_quota}
use cloodsy_s.Service.Objects.{Bucket, is_real_version, version_id_for_put}
use cloodsy_s.Service.Quota.{check_quota, object_row, or_default, check_quota-bound}
use cloodsy_s.Storage.Files.{
  FileSystem, Files, Reader, PutOptions, Written, put_object, get_object, put_versioned_object,
  get_versioned_object,
}
use cloodsy_s.Storage.Files.Writes.{IsStored, put_object-IsStored}
use cloodsy_s.Service.Writes.{
  ImageConfig, PutInput, PutResult, State, Outcome, check_room, check_declared, put_options, commit,
  open_object, put_bytes, record_written, put,
}

check_room-ok :
    (b : Bucket) (key : Bytes) (t : Table) (size : ℕ) (rest : Result ServiceError (Unit {0}))
    → (check_room b key t size >> rest) ≡ ok tt
    → check_quota b key size t ≡ true
unfolding check_room
check_room-ok b key t size rest h = (demand-ok (check_quota b key size t) over_quota rest h).0

module _ (md5 sha256 : Bytes → Bytes) (cfg : ImageConfig) (fs : FileSystem) (b : Bucket)
    (key : Bytes) where
  -- The key's object has the bytes, with their size and the reported ETag and version; a quota holds.
  abbrev pub IsWritten : Bytes → PutResult → State → Type 0
  IsWritten content r s =
      (m : ObjectMeta) × (get_object_meta s.table b.id key ≡ some m)
      × (open_object sha256 fs b m s.files ≡ ok content)
      × (m.size ≡ length content)
      × (m.size ≡ r.size)
      × (m.etag ≡ r.etag)
      × (m.version_id ≡ r.version_id)
      × ((b.quota_bytes ≡ 0) ⊎ (get_bucket_usage s.table b.id ≤ b.quota_bytes))
      × IsWellFormed s.table

  -- The file of a version, or the one slot of the others.
  abbrev pub open_version : Bytes → Files → Result ServiceError Bytes
  open_version version_id files =
      if is_real_version version_id
      then get_versioned_object sha256 fs b.name key version_id files
      else get_object sha256 fs b.name key files

  pub commit-IsWritten :
      (version_id : Bytes) (size : ℕ) (etag content_type metadata event : Bytes) (skip : Bool)
      (now : ℕ) (s : State) (content : Bytes)
      → IsWellFormed s.table
      → open_version version_id s.files ≡ ok content
      → size ≡ length content
      → check_quota b key size s.table ≡ true
      → (r : PutResult) × (s' : State) × (commit cfg b key version_id size etag content_type
            metadata event skip now s
          ≡ (ok r, s'))
        × (r.etag ≡ etag)
        × (r.version_id ≡ version_id)
        × (s'.files ≡ s.files)
        × IsWritten content r s'
  unfolding commit open_object
  commit-IsWritten version_id size etag content_type metadata event skip now s content wf opened
        sized room =
      let row = object_row b key version_id size etag content_type metadata now in
      let found : get_object_meta (put_object_meta_versioned row s.table) b.id key
          ≡ some (stored row s.table) =
        rw (get-put row s.table b.id key refl, of_key_self row) refl in
      let quota : (b.quota_bytes ≡ 0)
          ⊎ (get_bucket_usage (put_object_meta_versioned row s.table) b.id ≤ b.quota_bytes) =
        elim (Bool-cases (b.quota_bytes == 0)) [
          | inl e ↦ inl ((==_iff b.quota_bytes 0).0 e)
          | inr e ↦ inr (
              check_quota-bound b key size s.table version_id etag content_type metadata now wf
                (ground arith) room)
        ] in
      (
        _,
        _,
        refl,
        refl,
        refl,
        refl,
        (
          stored row s.table,
          found,
          opened,
          sized,
          refl,
          refl,
          refl,
          quota,
          put-IsWellFormed row s.table wf refl,
        ),
      )

  -- Either way that a version's file is chosen.
  IsStored-at :
      (versioned : Bool) (version_id : Bytes) (r : Reader) (o : PutOptions) (files : Files)
      → IsStored md5 r o files
          (λ (after : Files).
            if versioned
            then get_versioned_object sha256 fs b.name key version_id after
            else get_object sha256 fs b.name key after)
          (if versioned
            then put_versioned_object sha256 fs md5 b.name key version_id r o files
            else put_object sha256 fs md5 b.name key r o files)
  IsStored-at true version_id r o files =
      (put_object-IsStored sha256 fs b.name md5 key r o files version_id).1
  IsStored-at false version_id r o files =
      (put_object-IsStored sha256 fs b.name md5 key r o files version_id).0

  put_bytes-IsStored :
      (version_id : Bytes) (r : Reader) (o : PutOptions) (files : Files)
      → IsStored md5 r o files
          (open_version version_id)
          (put_bytes md5 sha256 cfg fs b key version_id r o files)
  put_bytes-IsStored version_id r o files =
      IsStored-at (is_real_version version_id) version_id r o files

  -- An operation that fails changes nothing.
  abbrev pub IsRecorded : Bytes → State → Outcome → Type 0
  IsRecorded content s (err e, s') = s' ≡ s
  IsRecorded content s (ok r, s') = IsWritten content r s'

module _ (md5 sha256 : Bytes → Bytes) (cfg : ImageConfig) (fs : FileSystem) (b : Bucket)
    (i : PutInput) (now : ℕ) (s : State) where
  record_written-IsRecorded :
      (version_id : Bytes) (w : Written)
      → IsWellFormed s.table
      → IsStored md5 i.body
          (put_options b i s.table)
          s.files
          (open_version md5 sha256 cfg fs b i.key version_id)
          w
      → IsRecorded md5 sha256 cfg fs b i.key i.body.bytes s
          (record_written md5 sha256 cfg fs b i version_id now s w)
  unfolding put_options
  record_written-IsRecorded version_id (err e, files) wf same = rw same refl
  record_written-IsRecorded version_id (ok (size, etag), files) wf
        (opened, fine, fits, passed, sized, summed) =
      let (r, s', done, tag, version, kept, written) =
        commit-IsWritten md5 sha256 cfg fs b i.key version_id size etag i.content_type i.metadata
          (or_default i.event_type (codes "s3:ObjectCreated:Put")) i.skip_image now
          (record s { files = files }) i.body.bytes wf opened sized
          (rw sized (
            check_room-ok b i.key s.table (length i.body.bytes)
              (i.verify (length i.body.bytes) (md5 i.body.bytes)) passed)) in
      rw done written

  -- From a well-formed table, a write of an object that fails changes nothing. After one that is done
  -- the key's object opens to the bytes that were sent, its row has their number, and the ETag and the
  -- version that were reported; the table is well-formed, and the bucket's usage is within its quota,
  -- where it has one.
  pub put-IsRecorded :
      (new_version : Bytes)
      → IsWellFormed s.table
      → IsRecorded md5 sha256 cfg fs b i.key i.body.bytes s
          (put md5 sha256 cfg fs b i now new_version s)
  unfolding put
  put-IsRecorded new_version wf = elim (Result-cases (check_declared b i s.table i.declared_size)) [
    | inl (e, refused) ↦ rw refused refl
    | inr (u, passed) ↦ rw passed (
        let version_id = version_id_for_put b new_version in
        record_written-IsRecorded version_id
          (put_bytes md5 sha256 cfg fs b i.key version_id i.body (put_options b i s.table) s.files)
          wf
          (put_bytes-IsStored md5 sha256 cfg fs b i.key version_id i.body (put_options b i s.table)
            s.files))
  ]
