-- ===== src/Db/Listing/Ordering.antt =====
-- The rows that a listing reads from a well-formed table: ordered, each key once.
use cloodsy_s.Prelude.{
  ℕ, ◌≤◌, ◌≡◌, refl, sym, ◌∙◌, Bool, true, false, List, [], ◌∷◌, keep, All, All-map, All-keep,
  arith, Bytes, IsBytes, bytes_lt, bytes_eq, bytes_eq_iff, bytes_lt_trans, bytes_lt_total,
  bytes_lt_asym, bytes_eq_refl, non_empty, Bool-cases, inl, inr, &&-eq-true,
}
use cloodsy_s.Db.Query.{count}
use cloodsy_s.Db.Prefix.{in_prefix_range}
use cloodsy_s.Db.Prefix.Bounds.{in_prefix_range-eq-has_prefix}
use cloodsy_s.Db.Objects.{ObjectMeta, Table, of_key, is_current, is_object}
use cloodsy_s.Db.Objects.WellFormed.{IsWellFormed}
use cloodsy_s.Db.Listing.{insert_by_key, order_by_key, in_range, selected}
use cloodsy_s.Db.Listing.Entries.{Ascending}
use cloodsy_s.Db.Listing.Resume.{IsListed}
use cloodsy_s.Db.Listing.Refinement.{IsListable}

-- The keys of a table are not empty and consist of bytes.
abbrev pub HasKeys : List ObjectMeta → Type 0
HasKeys rows = All (λ r. IsBytes r.key × (non_empty r.key ≡ true)) rows

-- Ascending keys, equal ones allowed.
abbrev Ordered : List ObjectMeta → Type 0
Ordered [] = Unit
Ordered (r ∷ rows) = All (λ x. bytes_lt x.key r.key ≡ false) rows × Ordered rows

All-insert :
    (P : ObjectMeta → Type 0) (r : ObjectMeta) (rows : List ObjectMeta)
    → P r
    → All P rows
    → All P (insert_by_key r rows)
unfolding insert_by_key
All-insert P r [] p h = (p, tt)
All-insert P r (x ∷ rows) p (q, h) = elim (Bool-cases (bytes_lt x.key r.key)) [
  | inl e ↦ rw e (q, All-insert P r rows p h)
  | inr e ↦ rw e (p, (q, h))
]

All-order :
    (P : ObjectMeta → Type 0) (rows : List ObjectMeta) → All P rows → All P (order_by_key rows)
unfolding order_by_key
All-order P [] h = tt
All-order P (r ∷ rows) (p, h) = All-insert P r (order_by_key rows) p (All-order P rows h)

count-insert :
    (p : ObjectMeta → Bool) (r : ObjectMeta) (rows : List ObjectMeta)
    → count p (insert_by_key r rows) ≡ count p (r ∷ rows)
unfolding insert_by_key count
count-insert p r [] = refl
count-insert p r (x ∷ rows) = ground (arith, count-insert p r rows)

count-order :
    (p : ObjectMeta → Bool) (rows : List ObjectMeta) → count p (order_by_key rows) ≡ count p rows
unfolding order_by_key count
count-order p [] = refl
count-order p (r ∷ rows) = ground (arith, count-insert p r (order_by_key rows), count-order p rows)

not_below_trans :
    (r x y : Bytes) → bytes_lt x r ≡ false → bytes_lt y x ≡ false → bytes_lt y r ≡ false
not_below_trans r x y h g = elim (Bool-cases (bytes_lt y r)) [
  | inr e ↦ e
  | inl e ↦ elim (Bool-cases (bytes_eq x r)) [
    | inl same ↦ let eq = (bytes_eq_iff x r).0 same in cc
    | inr other ↦ let lt = bytes_lt_total x r h other in let yx = bytes_lt_trans y r x e lt in cc
  ]
]

lt_not_below : (x r : Bytes) → bytes_lt x r ≡ true → bytes_lt r x ≡ false
lt_not_below x r h = bytes_lt_asym x r h

Ordered-insert :
    (r : ObjectMeta) (rows : List ObjectMeta) → Ordered rows → Ordered (insert_by_key r rows)
unfolding insert_by_key
Ordered-insert r [] h = (tt, tt)
Ordered-insert r (x ∷ rows) (below, h) = elim (Bool-cases (bytes_lt x.key r.key)) [
  | inl e ↦ rw e (All-insert _ r rows (bytes_lt_asym x.key r.key e) below, Ordered-insert r rows h)
  | inr e ↦
      rw e ((e, All-map _ _ rows (λ y g. not_below_trans r.key x.key y.key e g) below), (below, h))
]

order_by_key-Ordered : (rows : List ObjectMeta) → Ordered (order_by_key rows)
unfolding order_by_key
order_by_key-Ordered [] = tt
order_by_key-Ordered (r ∷ rows) = Ordered-insert r (order_by_key rows) (order_by_key-Ordered rows)

module _ (b : ℕ) (prefix : Bytes) where
  Ordered-keep : (rows : List ObjectMeta) → Ordered rows → Ordered (keep (in_range b prefix) rows)
  Ordered-keep [] h = tt
  Ordered-keep (r ∷ rows) (below, h) = elim (Bool-cases (in_range b prefix r)) [
    | inl e ↦ rw e (All-keep _ (in_range b prefix) rows below, Ordered-keep rows h)
    | inr e ↦ rw e (Ordered-keep rows h)
  ]

  count-keep :
      (p q : ObjectMeta → Bool) (rows : List ObjectMeta) → count p (keep q rows) ≤ count p rows
  unfolding count
  count-keep p q [] = omega arith
  count-keep p q (r ∷ rows) = ground (arith, count-keep p q rows)

  in_range-current : (r : ObjectMeta) → in_range b prefix r ≡ true → is_current b r.key r ≡ true
  unfolding in_range is_object is_current of_key
  in_range-current r h = ground (arith, bytes_eq_refl r.key)

  in_range-under :
      (r : ObjectMeta) → in_range b prefix r ≡ true → in_prefix_range prefix r.key ≡ true
  unfolding in_range
  in_range-under r h = (&&-eq-true _ _ h).1

  IsListed-keep :
      (rows : List ObjectMeta)
      → HasKeys rows
      → All (IsListed prefix) (keep (in_range b prefix) rows)
  IsListed-keep [] h = tt
  IsListed-keep (r ∷ rows) ((bytes, named), h) = elim (Bool-cases (in_range b prefix r)) [
    | inl e ↦ rw e (
      record {
        bytes = bytes;
        named = named;
        under = sym (in_prefix_range-eq-has_prefix prefix r.key bytes) ∙ in_range-under r e;
      },
      IsListed-keep rows h,
    )
    | inr e ↦ rw e (IsListed-keep rows h)
  ]

  current-keep :
      (rows : List ObjectMeta)
      → All (λ r. is_current b r.key r ≡ true) (keep (in_range b prefix) rows)
  current-keep [] = tt
  current-keep (r ∷ rows) = elim (Bool-cases (in_range b prefix r)) [
    | inl e ↦ rw e (in_range-current r e, current-keep rows)
    | inr e ↦ rw e (current-keep rows)
  ]

  other_key-of_current :
      (r x : ObjectMeta)
      → is_current b x.key x ≡ true
      → is_current b r.key x ≡ false
      → bytes_eq x.key r.key ≡ false
  unfolding is_current of_key
  other_key-of_current r x h g = ground arith

  ascends-head :
      (r : ObjectMeta) (rows : List ObjectMeta)
      → All (λ x. bytes_lt x.key r.key ≡ false) rows
      → All (λ x. is_current b x.key x ≡ true) rows
      → count (is_current b r.key) rows ≡ 0
      → All (λ x. bytes_lt r.key x.key ≡ true) rows
  unfolding count
  ascends-head r [] below cur h = tt
  ascends-head r (x ∷ rows) (p, below) (c, cur) h =
      let other : is_current b r.key x ≡ false = ground arith in
      (
        bytes_lt_total x.key r.key p (other_key-of_current r x c other),
        ascends-head r rows below cur (ground arith),
      )

  -- Ordered rows, each current and none of a key twice, ascend strictly.
  ascends :
      (rows : List ObjectMeta)
      → Ordered rows
      → All (λ x. is_current b x.key x ≡ true) rows
      → ((k : Bytes) → count (is_current b k) rows ≤ 1)
      → Ascending rows
  unfolding count
  ascends [] o c u = tt
  ascends (r ∷ rows) (below, o) (c, cur) u =
      let own = u r.key in
      (
        ascends-head r rows below cur (ground arith),
        ascends rows o cur (λ k. let h = u k in ground arith),
      )

-- In a well-formed table whose keys are not empty and consist of bytes, the rows that a listing
-- reads, for every bucket and prefix, have strictly ascending keys under the prefix, so that the
-- theorems on listings apply.
pub selected-IsListable :
    (t : Table) (b : ℕ) (prefix : Bytes) → IsWellFormed t → HasKeys t.rows → IsListable t b prefix
unfolding selected
selected-IsListable t b prefix w keys = record {
  ascending =
      ascends b prefix (keep (in_range b prefix) (order_by_key t.rows))
        (Ordered-keep b prefix (order_by_key t.rows) (order_by_key-Ordered t.rows))
        (current-keep b prefix (order_by_key t.rows))
        (λ k. omega (
          arith,
          count-keep b prefix (is_current b k) (in_range b prefix) (order_by_key t.rows),
          count-order (is_current b k) t.rows,
          w.one_latest b k,
        ));
  listed = IsListed-keep b prefix (order_by_key t.rows) (All-order _ t.rows keys);
}
