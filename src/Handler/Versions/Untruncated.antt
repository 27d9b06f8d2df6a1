-- ===== src/Handler/Versions/Untruncated.antt =====
-- The end of a page that a batch fills.
use cloodsy_s.Prelude.{
  ℕ, zero, suc, ◌+◌, ◌≤◌, ◌<◌, ◌≡◌, ◌⊎◌, refl, ap, inl, inr, ltb, leb, ltb→lt, Bool, true, false,
  not, ◌&&◌, ◌||◌, some, List, [], ◌∷◌, take, length, Bytes, Bool-cases, arith,
}
use cloodsy_s.Db.Objects.{ObjectMeta, Table}
use cloodsy_s.Db.Listing.{common_prefix}
use cloodsy_s.Db.Versions.{matching_versions, list_object_versions}
use cloodsy_s.Handler.Versions.{
  VersionPage, no_page, add_version, scan_versions, is_nil, version_loop,
}

scan_versions-room :
    (prefix : Bytes) (max_keys : ℕ) (batch : List ObjectMeta) (st : VersionPage)
    → st.count + length batch ≤ max_keys
    → ((scan_versions prefix [] max_keys batch st).is_truncated ≡ st.is_truncated)
      × ((scan_versions prefix [] max_keys batch st).count ≡ st.count + length batch)
unfolding scan_versions common_prefix
scan_versions-room prefix max_keys [] st h = (refl, omega arith)
scan_versions-room prefix max_keys (v ∷ batch) st h =
    let open_page : leb max_keys st.count ≡ false = ground arith in
    let (same, grown) = scan_versions-room prefix max_keys batch (add_version v st) (omega arith) in
    (rw open_page same, rw open_page (omega (arith, grown)))

length-take_le : (n : ℕ) (xs : List ObjectMeta) → length (take n xs) ≤ n
length-take_le zero xs = omega arith
length-take_le (suc n) [] = omega arith
length-take_le (suc n) (x ∷ xs) = omega (arith, length-take_le n xs)

length-take_full :
    (n : ℕ) (xs : List ObjectMeta) → n < length (take (suc n) xs) → length (take n xs) ≡ n
length-take_full zero xs h = refl
length-take_full (suc n) [] h = absurd (omega arith)
length-take_full (suc n) (x ∷ xs) h = ap suc (length-take_full n xs (omega arith))

module _ (t : Table) (b : ℕ) (prefix : Bytes) (limit : ℕ) where
  -- The batch of a query fits the limit, and fills it where there is more.
  batch_lengths :
      (km vm : Bytes)
      → (length (list_object_versions t b prefix km vm limit).0 ≤ limit)
        × ((list_object_versions t b prefix km vm limit).1 ≡ false
            ⊎ length (list_object_versions t b prefix km vm limit).0 ≡ limit)
  unfolding list_object_versions
  batch_lengths km vm =
      let rows : List ObjectMeta = matching_versions t b prefix km vm in
      let next : limit + 1 ≡ suc limit = omega arith in
      (
        length-take_le limit rows,
        elim (Bool-cases (ltb limit (length (take (limit + 1) rows)))) [
          | inr last ↦ inl last
          | inl more ↦ inr (length-take_full limit rows (ltb→lt _ _ (rw next at more)))
        ],
      )

  -- A full page ends the loop.
  filled :
      (count : ℕ) (more : Bool) (n : ℕ) (done nothing : Bool)
      → done ≡ false
      → count ≡ 0 + n
      → (more ≡ false) ⊎ (n ≡ limit)
      → (done || not more) ≡ false
      → (not (ltb count limit && not done) || nothing) ≡ true
  filled count more n done nothing h k f g = ground arith

  -- A listing without a delimiter whose max-keys is the size of a batch, as is the default, ends within two
  -- rounds and is never said to be truncated, whatever rows are left.
  pub version_loop-untruncated :
      (fuel : ℕ) (km vm : Bytes)
      → (page : VersionPage) × (version_loop t b prefix [] limit limit
            (suc (suc fuel))
            km
            vm
            no_page
          ≡ some page)
        × (page.is_truncated ≡ false)
  unfolding version_loop
  version_loop-untruncated fuel km vm =
      let batch : List ObjectMeta = (list_object_versions t b prefix km vm limit).0 in
      let (fits, fills) = batch_lengths km vm in
      let (open_page, counted) = scan_versions-room prefix limit batch no_page (omega arith) in
      let page : VersionPage = scan_versions prefix [] limit batch no_page in
      let more : Bool = (list_object_versions t b prefix km vm limit).1 in
      elim (Bool-cases (not (ltb 0 limit && true) || is_nil batch)) [
        | inl stop ↦ (no_page, rw stop refl, refl)
        | inr go ↦ elim (Bool-cases (page.is_truncated || not more)) [
          | inl ends ↦ (page, rw (go, ends) refl, open_page)
          | inr on ↦ (
            page,
            rw
                (
                  go,
                  on,
                  filled page.count more (length batch) page.is_truncated _ open_page counted fills
                      on,
                )
                refl,
            open_page,
          )
        ]
      ]
