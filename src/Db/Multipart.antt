-- ===== src/Db/Multipart.antt =====
-- The multipart tables (db/metadata.go): uploads, and their parts. Rows of the uploads stand in the
-- order of their creation; times are numbers.
pub mod Reachable
use mathlib.Core.Option
use cloodsy_s.Prelude.{
  ℕ, ◌+◌, ◌==◌, ltb, leb, Bool, true, false, not, ◌&&◌, ◌||◌, Option, none, some, List, [], ◌∷◌,
  ◌++◌, keep, take, length, Bytes, bytes_eq, bytes_lt, non_empty, if◌then◌else◌,
}
use cloodsy_s.Db.Query.{last_match, update_where, delete_where}
use cloodsy_s.Db.Prefix.{in_prefix_range}

pub record MultipartUpload : Type 0 where
  pub id : Bytes
  pub bucket_id : ℕ
  pub key : Bytes
  pub content_type : Bytes
  pub metadata : Bytes
  pub created_at : ℕ

pub record MultipartPart : Type 0 where
  pub upload_id : Bytes
  pub part_number : ℕ
  pub size : ℕ
  pub etag : Bytes
  pub created_at : ℕ

pub record Staging : Type 0 where
  pub uploads : List MultipartUpload
  pub parts : List MultipartPart

-- `WHERE id = ?`
abbrev pub is_upload : Bytes → MultipartUpload → Bool
is_upload id u = bytes_eq u.id id

-- `WHERE upload_id = ?`
abbrev pub is_part_of : Bytes → MultipartPart → Bool
is_part_of id p = bytes_eq p.upload_id id

abbrev pub is_part : Bytes → ℕ → MultipartPart → Bool
is_part id number p = is_part_of id p && p.part_number == number

abbrev pub is_some {ℓ} : {A : Type ℓ} → Option A → Bool
is_some none = false
is_some (some _) = true

unfoldable pub get_multipart_upload : Bytes → Staging → Option MultipartUpload
get_multipart_upload id s = last_match (is_upload id) s.uploads

-- A row that an upload id refers to: for the primary key `id` and for the foreign key of the parts.
abbrev pub upload_exists : Bytes → Staging → Bool
upload_exists id s = is_some (last_match (is_upload id) s.uploads)

-- `ON DELETE CASCADE` of the parts' foreign key.
abbrev pub cascade : Bytes → List MultipartPart → List MultipartPart
cascade id parts = delete_where (is_part_of id) parts

-- `none` is a violated primary key; the time is the table's default.
unfoldable pub create_multipart_upload : ℕ → MultipartUpload → Staging → Option Staging
create_multipart_upload now u s =
    if upload_exists u.id s
    then none
    else some (record s { uploads = s.uploads ++ record u { created_at = now } ∷ [] })

-- `DO UPDATE SET`
abbrev pub replace_part : ℕ → MultipartPart → MultipartPart → MultipartPart
replace_part now p q = record q { size = p.size; etag = p.etag; created_at = now }

abbrev pub upsert_part : ℕ → MultipartPart → List MultipartPart → List MultipartPart
upsert_part now p parts =
    if is_some (last_match (is_part p.upload_id p.part_number) parts)
    then update_where (is_part p.upload_id p.part_number) (replace_part now p) parts
    else parts ++ record p { created_at = now } ∷ []

-- `none` is a violated foreign key.
unfoldable pub put_multipart_part_row : ℕ → MultipartPart → Staging → Option Staging
put_multipart_part_row now p s =
    if upload_exists p.upload_id s
    then some (record s { parts = upsert_part now p s.parts })
    else none

-- `ORDER BY part_number`
unfoldable pub insert_part : MultipartPart → List MultipartPart → List MultipartPart
insert_part p [] = p ∷ []
insert_part p (q ∷ parts) =
    if ltb q.part_number p.part_number then q ∷ insert_part p parts else p ∷ q ∷ parts

unfoldable pub order_parts : List MultipartPart → List MultipartPart
unfolding insert_part
order_parts [] = []
order_parts (p ∷ parts) = insert_part p (order_parts parts)

unfoldable pub list_multipart_parts : Bytes → Staging → List MultipartPart
list_multipart_parts id s = keep (is_part_of id) (order_parts s.parts)

-- Whether a row was deleted, and the tables; the parts go by the cascade.
unfoldable pub delete_multipart_upload : Bytes → Staging → Bool × Staging
delete_multipart_upload id s = (
  upload_exists id s,
  record { uploads = delete_where (is_upload id) s.uploads; parts = cascade id s.parts },
)

-- `ORDER BY key, id`
abbrev pub upload_precedes : MultipartUpload → MultipartUpload → Bool
upload_precedes u v = bytes_lt u.key v.key || (bytes_eq u.key v.key && bytes_lt u.id v.id)

unfoldable pub insert_upload : MultipartUpload → List MultipartUpload → List MultipartUpload
insert_upload u [] = u ∷ []
insert_upload u (v ∷ uploads) =
    if upload_precedes v u then v ∷ insert_upload u uploads else u ∷ v ∷ uploads

unfoldable pub order_uploads : List MultipartUpload → List MultipartUpload
unfolding insert_upload
order_uploads [] = []
order_uploads (u ∷ uploads) = insert_upload u (order_uploads uploads)

abbrev pub behind_markers : Bytes → Bytes → MultipartUpload → Bool
behind_markers key_marker id_marker u =
    if non_empty key_marker
    then (if non_empty id_marker
        then bytes_lt key_marker u.key || (bytes_eq u.key key_marker && bytes_lt id_marker u.id)
        else bytes_lt key_marker u.key)
    else true

-- The uploads of a bucket in order, behind the markers, and whether there are more.
unfoldable pub list_multipart_uploads :
    ℕ → Bytes → Bytes → Bytes → ℕ → Staging → List MultipartUpload × Bool
list_multipart_uploads b prefix key_marker id_marker max_uploads s =
    let rows : List MultipartUpload =
      keep
        (λ u.
          (u.bucket_id == b && in_prefix_range prefix u.key)
          && behind_markers key_marker id_marker u)
        (order_uploads s.uploads) in
    (take max_uploads rows, ltb max_uploads (length (take (max_uploads + 1) rows)))

-- The uploads created before a time, of all buckets and under a prefix of one.
unfoldable pub list_stale_multipart_uploads : ℕ → Staging → List MultipartUpload
list_stale_multipart_uploads before s = keep (λ u. ltb u.created_at before) s.uploads

unfoldable pub list_stale_multipart_uploads_for_bucket :
    ℕ → Bytes → ℕ → Staging → List MultipartUpload
list_stale_multipart_uploads_for_bucket b prefix before s =
    keep (λ u. (u.bucket_id == b && ltb u.created_at before) && in_prefix_range prefix u.key)
      s.uploads
