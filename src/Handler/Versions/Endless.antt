-- ===== src/Handler/Versions/Endless.antt =====
-- Where the pages of versions go wrong.
use cloodsy_s.Prelude.{
  ℕ, zero, suc, ◌+◌, ◌<◌, ◌≡◌, refl, ap, ltb, leb, true, false, not, ◌&&◌, ◌||◌, none, some, List,
  [], ◌∷◌, ◌++◌, any, All, length, take, Bytes, bytes_eq, non_empty, lt→ltb, arith,
}
use cloodsy_s.Db.Query.{last_match}
use cloodsy_s.Db.Objects.{ObjectMeta, Table}
use cloodsy_s.Db.Objects.WellFormed.{IsWellFormed}
use cloodsy_s.Db.Listing.{common_prefix, last_key}
use cloodsy_s.Db.Versions.{is_marker_row, matching_versions, list_object_versions}
use cloodsy_s.Db.Versions.Resume.{matching_versions-resume}
use cloodsy_s.Handler.Validation.{api_version_id}
use cloodsy_s.Handler.Versions.{VersionPage, scan_versions, is_nil, last_version_of, version_loop}

-- The row is under a prefix that the page has.
abbrev pub IsSeen : Bytes → Bytes → VersionPage → ObjectMeta → Type 0
IsSeen prefix delimiter st v =
    (cp : Bytes) × (common_prefix prefix delimiter v.key ≡ some cp)
    × (any (bytes_eq cp) st.common_prefixes ≡ true)

scan_versions-seen :
    (prefix delimiter : Bytes) (max_keys : ℕ) (batch : List ObjectMeta) (st : VersionPage)
    → All (IsSeen prefix delimiter st) batch
    → st.count < max_keys
    → scan_versions prefix delimiter max_keys batch st ≡ st
unfolding scan_versions
scan_versions-seen prefix delimiter max_keys [] st h room = refl
scan_versions-seen prefix delimiter max_keys (v ∷ batch) st ((cp, found, seen), h) room =
    let open_page : leb max_keys st.count ≡ false = ground arith in
    rw (open_page, found, seen) (scan_versions-seen prefix delimiter max_keys batch st h room)

last_key-snoc : (xs : List ObjectMeta) (m : ObjectMeta) → last_key (xs ++ m ∷ []) ≡ m.key
last_key-snoc [] m = refl
last_key-snoc (x ∷ []) m = refl
last_key-snoc (x ∷ y ∷ xs) m = last_key-snoc (y ∷ xs) m

last_version-snoc :
    (xs : List ObjectMeta) (m : ObjectMeta)
    → last_version_of (xs ++ m ∷ []) ≡ api_version_id m.version_id
last_version-snoc [] m = refl
last_version-snoc (x ∷ []) m = refl
last_version-snoc (x ∷ y ∷ xs) m = last_version-snoc (y ∷ xs) m

is_nil-snoc : (xs : List ObjectMeta) (m : ObjectMeta) → is_nil (xs ++ m ∷ []) ≡ false
is_nil-snoc [] m = refl
is_nil-snoc (x ∷ xs) m = refl

take-snoc :
    (xs zs : List ObjectMeta) (m : ObjectMeta) (n : ℕ)
    → length (xs ++ m ∷ []) ≡ n
    → take n (xs ++ m ∷ zs) ≡ xs ++ m ∷ []
take-snoc [] zs m (suc n) h = let e : n ≡ 0 = omega arith in rw e refl
take-snoc [] zs m zero h = absurd (omega arith)
take-snoc (x ∷ xs) zs m zero h = absurd (omega arith)
take-snoc (x ∷ xs) zs m (suc n) h = ap (λ r. x ∷ r) (take-snoc xs zs m n (omega arith))

length-take_more :
    (xs zs : List ObjectMeta) (m z : ObjectMeta) (n : ℕ)
    → length (xs ++ m ∷ []) ≡ n
    → length (take (suc n) (xs ++ m ∷ z ∷ zs)) ≡ suc n
length-take_more [] zs m z n h = let e : n ≡ 1 = omega arith in rw e refl
length-take_more (x ∷ xs) zs m z zero h = absurd (omega arith)
length-take_more (x ∷ xs) zs m z (suc n) h = ap suc (length-take_more xs zs m z n (omega arith))

api_version_id-non_empty : (v : Bytes) → non_empty (api_version_id v) ≡ true
unfolding api_version_id
api_version_id-non_empty [] = refl
api_version_id-non_empty (c ∷ v) = refl

module _ (t : Table) (b : ℕ) (prefix delimiter : Bytes) (max_keys limit : ℕ) where
  same_batch :
      (km vm : Bytes) (m z : ObjectMeta) (ys zs : List ObjectMeta)
      → length (ys ++ m ∷ []) ≡ limit
      → matching_versions t b prefix km vm ≡ ys ++ m ∷ z ∷ zs
      → list_object_versions t b prefix km vm limit ≡ (ys ++ m ∷ [], true)
  unfolding list_object_versions
  same_batch km vm m z ys zs full rows =
      let next : limit + 1 ≡ suc limit = omega arith in
      rw (rows, next, take-snoc ys (z ∷ zs) m limit full, length-take_more ys zs m z limit full)
        (ap (λ more. (ys ++ m ∷ [], more)) (lt→ltb limit (suc limit) (omega arith)))

  -- Where the rows that follow a newer row "null" of a key fill a batch that ends in a version of the key,
  -- with more rows behind it, and they are all under prefixes that the page has, the loop that goes on
  -- from that version never ends: every query gives the same batch again, and adds nothing.
  pub version_loop-endless :
      (fuel : ℕ) (st : VersionPage) (n m z : ObjectMeta) (xs ys zs : List ObjectMeta)
      → IsWellFormed t
      → non_empty m.key ≡ true
      → last_match (is_marker_row b m.key (api_version_id m.version_id)) t.rows ≡ some n
      → matching_versions t b prefix [] [] ≡ xs ++ n ∷ (ys ++ m ∷ z ∷ zs)
      → length (ys ++ m ∷ []) ≡ limit
      → All (IsSeen prefix delimiter st) (ys ++ m ∷ [])
      → st.count < max_keys
      → st.is_truncated ≡ false
      → version_loop t b prefix delimiter max_keys limit fuel m.key (api_version_id m.version_id) st
        ≡ none
  unfolding version_loop
  version_loop-endless zero st n m z xs ys zs wf k found split full seen room open_page = refl
  version_loop-endless (suc fuel) st n m z xs ys zs wf k found split full seen room open_page =
      let page = same_batch m.key (api_version_id m.version_id) m z ys zs full (
        matching_versions-resume t b m.key (api_version_id m.version_id) prefix n xs
          (ys ++ m ∷ z ∷ zs) wf k (api_version_id-non_empty m.version_id) found split) in
      let below : ltb st.count max_keys ≡ true = lt→ltb st.count max_keys room in
      let some_rows = is_nil-snoc ys m in
      let goes_on : (not (ltb st.count max_keys && not st.is_truncated) || is_nil (ys ++ m ∷ []))
          ≡ false =
        ground arith in
      let unfinished : (st.is_truncated || not true) ≡ false = ground arith in
      rw
        (
          page,
          goes_on,
          scan_versions-seen prefix delimiter max_keys (ys ++ m ∷ []) st seen room,
          unfinished,
          last_key-snoc ys m,
          last_version-snoc ys m,
        )
        (version_loop-endless fuel st n m z xs ys zs wf k found split full seen room open_page)
