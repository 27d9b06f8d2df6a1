-- ===== src/Db/Versions/Resume.antt =====
-- Where a listing of versions goes on behind a marker.
use cloodsy_s.Prelude.{
  ℕ, ◌≡◌, refl, sym, ◌∙◌, inl, inr, Bool, true, ◌&&◌, some, List, [], ◌∷◌, ◌++◌, keep, Bytes,
  non_empty, Bool-cases, &&-eq-true,
}
use mathlib.Core.Path.{fun_ext}
use cloodsy_s.Db.Query.{last_match}
use cloodsy_s.Db.Objects.{ObjectMeta, Table}
use cloodsy_s.Db.Objects.WellFormed.{IsWellFormed, of_key→eq}
use cloodsy_s.Db.Query.Laws.{last_match_sound}
use cloodsy_s.Db.Versions.{
  precedes, order_versions, is_marker_row, marker_id, after_marker, in_bucket_range,
  matching_versions,
}
use cloodsy_s.Db.Versions.Ordering.{order_versions-IsOrdered, IsOrdered-keep, keep-precedes}

keep-keep :
    (p q : ObjectMeta → Bool) (rows : List ObjectMeta)
    → keep (λ r. p r && q r) rows ≡ keep q (keep (λ r. p r && true) rows)
keep-keep p q [] = refl
keep-keep p q (r ∷ rows) = elim (Bool-cases (p r)) [
  | inl e ↦ rw (e, keep-keep p q rows) refl
  | inr e ↦ rw (e, keep-keep p q rows) refl
]

matching_versions-unmarked :
    (t : Table) (b : ℕ) (prefix : Bytes)
    → matching_versions t b prefix [] []
      ≡ keep (λ r. in_bucket_range b prefix r && true) (order_versions t.rows)
unfolding matching_versions after_marker
matching_versions-unmarked t b prefix = refl

module _ (t : Table) (b : ℕ) (key version : Bytes) where
  -- The condition behind a marker is to come after the row that answers to it.
  after_marker-eq-precedes :
      (n : ObjectMeta)
      → non_empty key ≡ true
      → non_empty version ≡ true
      → last_match (is_marker_row b key version) t.rows ≡ some n
      → (r : ObjectMeta) → after_marker t b key version r ≡ precedes n r
  unfolding after_marker precedes marker_id is_marker_row
  after_marker-eq-precedes n k v found r =
      let hit = last_match_sound (is_marker_row b key version) t.rows n found in
      let (same, _) = &&-eq-true _ _ hit in
      let (_, e) = of_key→eq b key n same in rw (k, v, found, ← e) refl

  -- A listing that goes on behind a marker, whose version is not empty, gives exactly the rows behind
  -- the row that answers to the marker: the newest of the key's rows with the marker's version or with
  -- version "null".
  pub matching_versions-resume :
      (prefix : Bytes) (n : ObjectMeta) (xs ys : List ObjectMeta)
      → IsWellFormed t
      → non_empty key ≡ true
      → non_empty version ≡ true
      → last_match (is_marker_row b key version) t.rows ≡ some n
      → matching_versions t b prefix [] [] ≡ xs ++ n ∷ ys
      → matching_versions t b prefix key version ≡ ys
  unfolding matching_versions
  matching_versions-resume prefix n xs ys wf k v found split =
      let ordered =
        IsOrdered-keep (λ r. in_bucket_range b prefix r && true) (order_versions t.rows)
          (order_versions-IsOrdered t.rows wf.unique_ids) in
      let all_rows = sym (matching_versions-unmarked t b prefix) ∙ split in
      rw
        (
          fun_ext (after_marker-eq-precedes n k v found),
          keep-keep (λ r. in_bucket_range b prefix r) (λ r. precedes n r) (order_versions t.rows),
          all_rows,
        )
        (keep-precedes xs ys n (rw all_rows at ordered))
