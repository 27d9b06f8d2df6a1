-- ===== src/Db/Listing/Common.antt =====
-- Common prefixes: which keys are rolled up into one.
use mathlib.Core.Option
use cloodsy_s.Prelude.{
  ℕ, zero, suc, ◌+◌, ◌≤◌, ◌<◌, ◌≡◌, refl, ap, ◌∙◌, true, none, some, [], ◌∷◌, ◌++◌, take, drop,
  length, arith, Bytes, has_prefix, index_of, non_empty, Bool-cases, inl, inr, index_of-shared,
  has_prefix-append, has_prefix-append_right, has_prefix-take, index_of-bound,
}
use cloodsy_s.Db.Objects.{ObjectMeta}
use cloodsy_s.Db.Listing.{object, common, entry_of, common_prefix}

module _ (prefix delimiter : Bytes) where
  pub common_prefix-inv :
      (key cp : Bytes)
      → common_prefix prefix delimiter key ≡ some cp
      → (non_empty delimiter ≡ true)
        × ((i : ℕ) × (index_of (drop (length prefix) key) delimiter ≡ some i)
            × (prefix ++ take (i + length delimiter) (drop (length prefix) key) ≡ cp))
  unfolding common_prefix
  common_prefix-inv key cp h = elim (Bool-cases (non_empty delimiter)) [
    | inl e ↦ (e, (Option.map-eq-some_iff _ _).0 (rw e at h))
    | inr e ↦ absurd (ground arith)
  ]

  -- A key that starts with a common prefix is rolled up into it.
  pub common_prefix-shared :
      (key key' cp : Bytes)
      → common_prefix prefix delimiter key ≡ some cp
      → has_prefix key' cp ≡ true
      → common_prefix prefix delimiter key' ≡ some cp
  unfolding common_prefix
  common_prefix-shared key key' cp h g =
      let (e, (i, found, same)) = common_prefix-inv key cp h in
      let (found', taken) =
        index_of-shared (drop (length prefix) key) (drop (length prefix) key') delimiter i found
          (has_prefix-append_right key' prefix _ (rw (← same) at g)) in
      rw (e, found') (ap some (ap (λ r. prefix ++ r) taken ∙ same))

  -- A key starts with the common prefix into which it is rolled up.
  pub has_prefix-common_prefix :
      (key cp : Bytes)
      → has_prefix key prefix ≡ true
      → common_prefix prefix delimiter key ≡ some cp
      → has_prefix key cp ≡ true
  has_prefix-common_prefix key cp p h =
      let (e, (i, found, same)) = common_prefix-inv key cp h in
      rw (← same) (
        has_prefix-append key prefix _ p
          (has_prefix-take (i + length delimiter) (drop (length prefix) key)))

  non_empty-append_take :
      (n : ℕ) (p s : Bytes) → 0 < n → n ≤ length s → non_empty (p ++ take n s) ≡ true
  non_empty-append_take n (x ∷ p) s h k = refl
  non_empty-append_take zero [] s h k = absurd (omega arith)
  non_empty-append_take (suc n) [] [] h k = absurd (omega arith)
  non_empty-append_take (suc n) [] (x ∷ s) h k = refl

  non_empty-length : (s : Bytes) → non_empty s ≡ true → 0 < length s
  non_empty-length [] h = cc
  non_empty-length (x ∷ s) h = omega arith

  pub common_prefix-non_empty :
      (key cp : Bytes) → common_prefix prefix delimiter key ≡ some cp → non_empty cp ≡ true
  common_prefix-non_empty key cp h =
      let (e, (i, found, same)) = common_prefix-inv key cp h in
      rw (← same) (
        non_empty-append_take _ prefix _ (omega (arith, non_empty-length delimiter e))
          (index_of-bound _ delimiter i found))

  pub entry_of-some :
      (o : ObjectMeta) (cp : Bytes)
      → common_prefix prefix delimiter o.key ≡ some cp
      → entry_of prefix delimiter o ≡ common cp
  unfolding entry_of
  entry_of-some o cp h = rw h

  pub entry_of-none :
      (o : ObjectMeta)
      → common_prefix prefix delimiter o.key ≡ none
      → entry_of prefix delimiter o ≡ object o
  unfolding entry_of
  entry_of-none o h = rw h
