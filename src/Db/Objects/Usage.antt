-- ===== src/Db/Objects/Usage.antt =====
-- The usage of a bucket: what a write changes in the sum of the sizes of its current objects.
use cloodsy_s.Prelude.{
  ℕ, ◌+◌, ◌≤◌, ◌≡◌, refl, ap, ◌∙◌, Bool, true, false, Option, none, some, List, [], ◌∷◌, ◌++◌,
  arith, if◌then◌else◌, Bool-cases, Option-cases, inl, inr,
}
use cloodsy_s.Db.Query.{count, last_match, update_where, or_else}
use cloodsy_s.Db.Query.Laws.{count-last_match-none, last_match-count_zero, last_match_sound}
use cloodsy_s.Db.Objects.{
  ObjectMeta, Table, of_key, of_version, is_current, is_object, sum_sizes, get_bucket_usage,
  get_object_meta, put_object_meta_versioned,
}
use cloodsy_s.Db.Objects.Put.{replaced, cleared, rewritten, inserted, found-cleared, absent-cleared}
use cloodsy_s.Db.Objects.WellFormed.{IsWellFormed}

unfoldable total : (ObjectMeta → ℕ) → List ObjectMeta → ℕ
total f [] = 0
total f (r ∷ rows) = f r + total f rows

abbrev weight : ℕ → ObjectMeta → ℕ
weight b r = if is_object b r then r.size else 0

abbrev only : (ObjectMeta → Bool) → (ObjectMeta → ℕ) → ObjectMeta → ℕ
only p f r = if p r then f r else 0

-- The size of an object that a key has, and 0 for a delete marker.
abbrev pub object_size : Option ObjectMeta → ℕ
object_size none = 0
object_size (some r) = if r.is_delete_marker then 0 else r.size

abbrev size_of : (ObjectMeta → ℕ) → Option ObjectMeta → ℕ
size_of f none = 0
size_of f (some r) = f r

sum_sizes-total : (b : ℕ) (rows : List ObjectMeta) → sum_sizes b rows ≡ total (weight b) rows
unfolding sum_sizes total
sum_sizes-total b [] = refl
sum_sizes-total b (r ∷ rows) = ap (λ n. weight b r + n) (sum_sizes-total b rows)

total-append :
    (f : ObjectMeta → ℕ) (xs ys : List ObjectMeta) → total f (xs ++ ys) ≡ total f xs + total f ys
unfolding total
total-append f [] ys = omega arith
total-append f (x ∷ xs) ys = omega (arith, total-append f xs ys)

total-update_where :
    (f : ObjectMeta → ℕ) (w : ObjectMeta → Bool) (g : ObjectMeta → ObjectMeta)
    (rows : List ObjectMeta)
    → total f (update_where w g rows) ≡ total (λ x. f (if w x then g x else x)) rows
unfolding total update_where
total-update_where f w g [] = refl
total-update_where f w g (x ∷ rows) =
    ap (λ n. f (if w x then g x else x) + n) (total-update_where f w g rows)

-- Sums of functions that balance row by row balance.
total_balance :
    (f g h k : ObjectMeta → ℕ) (rows : List ObjectMeta)
    → ((r : ObjectMeta) → f r + g r ≡ h r + k r)
    → total f rows + total g rows ≡ total h rows + total k rows
unfolding total
total_balance f g h k [] e = refl
total_balance f g h k (r ∷ rows) e = omega (arith, e r, total_balance f g h k rows e)

total_nothing :
    (p : ObjectMeta → Bool) (f : ObjectMeta → ℕ) (rows : List ObjectMeta)
    → count p rows ≡ 0
    → total (only p f) rows ≡ 0
unfolding total count
total_nothing p f [] h = refl
total_nothing p f (r ∷ rows) h = ground (arith, total_nothing p f rows)

or_else-none :
    (f : ObjectMeta → ℕ) (o : Option ObjectMeta) {n : ℕ}
    → n ≡ size_of f o
    → 0 + n ≡ size_of f (or_else o none)
or_else-none f none h = omega (arith, h)
or_else-none f (some r) h = omega (arith, h)

-- The sum over the only row that matches is the value there.
total-only :
    (p : ObjectMeta → Bool) (f : ObjectMeta → ℕ) (rows : List ObjectMeta)
    → count p rows ≤ 1
    → total (only p f) rows ≡ size_of f (last_match p rows)
unfolding total count last_match
total-only p f [] h = refl
total-only p f (r ∷ rows) h = elim (Bool-cases (p r)) [
  | inr e ↦ rw e (or_else-none f (last_match p rows) (total-only p f rows (ground arith)))
  | inl e ↦
      let none_left : count p rows ≡ 0 = ground arith in
      rw (e, last_match-count_zero p rows none_left)
        (omega (arith, total_nothing p f rows none_left))
]

module _ (m : ObjectMeta) (t : Table) where
  total-put_found :
      (f : ObjectMeta → ℕ) (r : ObjectMeta)
      → replaced m t ≡ some r
      → total f (put_object_meta_versioned m t).rows ≡ total (λ x. f (rewritten m x)) t.rows
  unfolding put_object_meta_versioned
  total-put_found f r e = rw (found-cleared m t r e, total-update_where, total-update_where)

  total-put_absent :
      (f : ObjectMeta → ℕ)
      → replaced m t ≡ none
      → total f (put_object_meta_versioned m t).rows
        ≡ total (λ x. f (cleared m x)) t.rows + f (inserted m t)
  unfolding put_object_meta_versioned total
  total-put_absent f e = rw (absent-cleared m t e, total-append, total-update_where) (omega arith)

  module _ (latest : m.is_latest ≡ true) (object : m.is_delete_marker ≡ false) where
    abbrev own : ObjectMeta → Bool
    own = of_version m.bucket_id m.key m.version_id

    abbrev current : ObjectMeta → Bool
    current = is_current m.bucket_id m.key

    balance-found :
        (x : ObjectMeta)
        → weight m.bucket_id (rewritten m x) + only current (weight m.bucket_id) x
          ≡ weight m.bucket_id x + only own (λ r. m.size) x
    unfolding is_object of_version is_current of_key
    balance-found x = ground arith

    balance-absent :
        (x : ObjectMeta)
        → weight m.bucket_id (cleared m x) + only current (weight m.bucket_id) x
          ≡ weight m.bucket_id x + only own (weight m.bucket_id) x
    unfolding is_object of_version is_current of_key
    balance-absent x = ground arith

    weight-current :
        (r : ObjectMeta) → current r ≡ true → weight m.bucket_id r ≡ object_size (some r)
    unfolding is_object is_current of_key
    weight-current r h = ground arith

    size_of-current :
        (o : Option ObjectMeta)
        → ((r : ObjectMeta) → o ≡ some r → current r ≡ true)
        → size_of (weight m.bucket_id) o ≡ object_size o
    size_of-current none h = refl
    size_of-current (some r) h = weight-current r (h r refl)

    weight-inserted : weight m.bucket_id (inserted m t) ≡ m.size
    unfolding is_object
    weight-inserted = ground arith

    module _ (w : IsWellFormed t) where
      total-current :
          total (only current (weight m.bucket_id)) t.rows
          ≡ object_size (get_object_meta t m.bucket_id m.key)
      unfolding get_object_meta
      total-current =
          total-only current (weight m.bucket_id) t.rows
            (let h = w.one_latest m.bucket_id m.key in omega arith)
          ∙ size_of-current (last_match current t.rows) (λ r e. last_match_sound current t.rows r e)

      total-put :
          total (weight m.bucket_id) (put_object_meta_versioned m t).rows
            + total (only current (weight m.bucket_id)) t.rows
          ≡ total (weight m.bucket_id) t.rows + m.size
      total-put = elim (Option-cases (replaced m t)) [
        | inr (r, e) ↦
            let one_own : total (only own (λ x. m.size)) t.rows ≡ m.size =
              total-only own (λ x. m.size) t.rows (w.unique_versions m.bucket_id m.key m.version_id)
              ∙ ap (size_of (λ x. m.size)) e in
            rw (total-put_found (weight m.bucket_id) r e) (
              total_balance _ _ _ (only own (λ x. m.size)) t.rows balance-found
              ∙ ap (λ n. total (weight m.bucket_id) t.rows + n) one_own)
        | inl e ↦
            let none_own =
              total_nothing own (weight m.bucket_id) t.rows (count-last_match-none own t.rows e) in
            let balance =
              total_balance (λ x. weight m.bucket_id (cleared m x))
                (only current (weight m.bucket_id)) (weight m.bucket_id)
                (only own (weight m.bucket_id)) t.rows balance-absent in
            rw (total-put_absent (weight m.bucket_id) e, weight-inserted) (omega arith)
      ]

      -- In a well-formed table, after a write of an object as the latest row, the usage of its bucket
      -- has grown by its size, less the size of the object that the key had.
      pub usage-put :
          get_bucket_usage (put_object_meta_versioned m t) m.bucket_id
            + object_size (get_object_meta t m.bucket_id m.key)
          ≡ get_bucket_usage t m.bucket_id + m.size
      unfolding get_bucket_usage
      usage-put =
          rw
            (
              sum_sizes-total m.bucket_id (put_object_meta_versioned m t).rows,
              sum_sizes-total m.bucket_id t.rows,
              ← total-current,
            )
            total-put
