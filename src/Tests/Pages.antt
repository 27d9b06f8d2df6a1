-- ===== src/Tests/Pages.antt =====
-- A key with a version "null" that is newer than its real versions, and the theorems on pages of
-- versions applied to it.
use cloodsy_s.Db.Listing.{common_prefix}
use cloodsy_s.Handler.Validation.{api_version_id}
use cloodsy_s.Db.Prefix.{in_prefix_range}
use cloodsy_s.Db.Query.{last_match, update_where}
use cloodsy_s.Prelude.{
  ℕ, ◌≡◌, refl, false, none, some, [], ◌∷◌, Bytes, codes, arith, bytes_eq, bytes_lt, index_of,
  has_prefix,
}
use cloodsy_s.Db.Objects.{ObjectMeta, Table, put_object_meta_versioned, of_version}
use cloodsy_s.Db.Objects.WellFormed.{IsWellFormed}
use cloodsy_s.Db.Objects.Latest.{put-IsWellFormed}
use cloodsy_s.Db.Versions.{matching_versions, is_marker_row, order_versions, precedes, after_marker}
use cloodsy_s.Db.Versions.Resume.{matching_versions-resume}
use cloodsy_s.Handler.Versions.{VersionPage, no_page, version_loop}
use cloodsy_s.Handler.Versions.Endless.{version_loop-endless}
use cloodsy_s.Handler.Versions.Untruncated.{version_loop-untruncated}
use cloodsy_s.Tests.{row, empty, empty-IsWellFormed}

abbrev deep : Bytes
deep = codes "a/k"

abbrev older : Table
older =
    put_object_meta_versioned (row deep (codes "v2"))
      (put_object_meta_versioned (row deep (codes "v1")) empty)

abbrev suspended_later : Table
suspended_later =
    put_object_meta_versioned (row deep (codes "null"))
      (put_object_meta_versioned (row deep (codes "v3")) older)

suspended_later-IsWellFormed : IsWellFormed suspended_later
suspended_later-IsWellFormed =
    put-IsWellFormed (row deep (codes "null"))
      (put_object_meta_versioned (row deep (codes "v3")) older)
      (put-IsWellFormed (row deep (codes "v3")) older
        (put-IsWellFormed (row deep (codes "v2"))
          (put_object_meta_versioned (row deep (codes "v1")) empty)
          (put-IsWellFormed (row deep (codes "v1")) empty empty-IsWellFormed refl) refl)
        refl)
      refl

-- The rows as they stand then.
abbrev old : Bytes → ℕ → ObjectMeta
old version id = record (row deep version) { id = id; is_latest = false }

abbrev newest : ObjectMeta
newest = record (row deep (codes "null")) { id = 4 }

-- The page behind version "v2" starts with "v3" once more.
matching_versions-resume_example :
    matching_versions suspended_later 1 [] deep (codes "v2")
    ≡ old (codes "v3") 3 ∷ old (codes "v2") 2 ∷ old (codes "v1") 1 ∷ []
unfolding last_match put_object_meta_versioned update_where of_version bytes_eq is_marker_row
    matching_versions order_versions precedes bytes_lt in_prefix_range after_marker
matching_versions-resume_example =
    matching_versions-resume suspended_later 1 deep (codes "v2") [] newest []
      (old (codes "v3") 3 ∷ old (codes "v2") 2 ∷ old (codes "v1") 1 ∷ [])
      suspended_later-IsWellFormed refl refl refl refl

abbrev rolled_up : VersionPage
rolled_up = record no_page { common_prefixes = codes "a/" ∷ []; count = 1; listed_key = deep }

version_loop-endless_example :
    version_loop suspended_later 1 [] (codes "/") 10 2 1000000 deep (codes "v2") rolled_up ≡ none
unfolding last_match put_object_meta_versioned update_where of_version bytes_eq is_marker_row
    api_version_id matching_versions order_versions precedes bytes_lt in_prefix_range after_marker
    common_prefix index_of has_prefix
version_loop-endless_example =
    version_loop-endless suspended_later 1 [] (codes "/") 10 2 1000000 rolled_up newest
      (old (codes "v2") 2) (old (codes "v1") 1) [] (old (codes "v3") 3 ∷ []) []
      suspended_later-IsWellFormed refl refl refl refl
      ((codes "a/", refl, refl), ((codes "a/", refl, refl), tt)) (omega arith) refl

version_loop-untruncated_example :
    (page : VersionPage) × (version_loop suspended_later 1 [] [] 2 2 2 [] [] no_page ≡ some page)
    × (page.is_truncated ≡ false)
version_loop-untruncated_example = version_loop-untruncated suspended_later 1 [] 2 0 [] []
