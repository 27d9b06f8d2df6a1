-- ===== src/Db/Versions/Ordering.antt =====
-- The order of versions is strict and total on rows of different ids.
use cloodsy_s.Prelude.{
  ℕ, ◌≤◌, ◌≡◌, ap, inl, inr, Bool, true, false, List, [], ◌∷◌, ◌++◌, keep, All, All-append_right,
  bytes_eq_iff, bytes_lt_irrefl, bytes_lt_asym, bytes_lt_trans, bytes_lt_total, arith, Bool-cases,
  keep-All, All-keep, All-map,
}
use cloodsy_s.Db.Query.{count}
use cloodsy_s.Db.Objects.{ObjectMeta, has_id}
use cloodsy_s.Db.Objects.Rows.{one, count-cons, has_id_self}
use cloodsy_s.Db.Versions.{precedes, insert_version, order_versions}

precedes_trans :
    (x y z : ObjectMeta) → precedes x y ≡ true → precedes y z ≡ true → precedes x z ≡ true
unfolding precedes
precedes_trans x y z h k = ground (
  arith,
  bytes_lt_trans x.key y.key z.key,
  bytes_eq_iff y.key x.key,
  bytes_eq_iff z.key y.key,
  bytes_eq_iff z.key x.key,
)

pub precedes_asym : (x y : ObjectMeta) → precedes x y ≡ true → precedes y x ≡ false
unfolding precedes
precedes_asym x y h = ground (
  arith,
  bytes_lt_asym x.key y.key,
  bytes_lt_irrefl x.key,
  bytes_lt_irrefl y.key,
  bytes_eq_iff y.key x.key,
  bytes_eq_iff x.key y.key,
)

precedes_total :
    (x y : ObjectMeta) → has_id y.id x ≡ false → precedes x y ≡ false → precedes y x ≡ true
unfolding precedes
precedes_total x y h k =
    ground (arith, bytes_lt_total x.key y.key, bytes_eq_iff y.key x.key, bytes_eq_iff x.key y.key)

pub precedes_irrefl : (x : ObjectMeta) → precedes x x ≡ false
unfolding precedes
precedes_irrefl x = ground (arith, bytes_lt_irrefl x.key)

abbrev pub IsOrdered : List ObjectMeta → Type 0
IsOrdered [] = Unit
IsOrdered (x ∷ xs) = All (λ y. precedes x y ≡ true) xs × IsOrdered xs

insert_version-All :
    (P : ObjectMeta → Type 0) (r : ObjectMeta) (xs : List ObjectMeta)
    → P r
    → All P xs
    → All P (insert_version r xs)
unfolding insert_version
insert_version-All P r [] p h = (p, tt)
insert_version-All P r (x ∷ xs) p (q, h) = elim (Bool-cases (precedes x r)) [
  | inl e ↦ rw e (q, insert_version-All P r xs p h)
  | inr e ↦ rw e (p, (q, h))
]

order_versions-All :
    (P : ObjectMeta → Type 0) (rows : List ObjectMeta) → All P rows → All P (order_versions rows)
unfolding order_versions
order_versions-All P [] h = tt
order_versions-All P (r ∷ rows) (p, h) =
    insert_version-All P r (order_versions rows) p (order_versions-All P rows h)

insert_version-IsOrdered :
    (r : ObjectMeta) (xs : List ObjectMeta)
    → All (λ x. has_id r.id x ≡ false) xs
    → IsOrdered xs
    → IsOrdered (insert_version r xs)
unfolding insert_version
insert_version-IsOrdered r [] h s = (tt, tt)
insert_version-IsOrdered r (x ∷ xs) (d, h) (a, s) = elim (Bool-cases (precedes x r)) [
  | inl e ↦
      rw e
        (insert_version-All (λ y. precedes x y ≡ true) r xs e a, insert_version-IsOrdered r xs h s)
  | inr e ↦
      let before = precedes_total x r d e in
      let rest =
        All-map (λ y. precedes x y ≡ true) (λ y. precedes r y ≡ true) xs
          (λ y k. precedes_trans r x y before k) a in
      rw e ((before, rest), (a, s))
]

-- No other row has the id of a row that counts once.
count-none :
    (p : ObjectMeta → Bool) (rows : List ObjectMeta)
    → count p rows ≡ 0
    → All (λ x. p x ≡ false) rows
unfolding count
count-none p [] h = tt
count-none p (r ∷ rows) h = elim (Bool-cases (p r)) [
  | inl e ↦ absurd (ground arith)
  | inr e ↦ (e, count-none p rows (rw e at h))
]

pub order_versions-IsOrdered :
    (rows : List ObjectMeta)
    → ((i : ℕ) → count (has_id i) rows ≤ 1)
    → IsOrdered (order_versions rows)
unfolding order_versions
order_versions-IsOrdered [] u = tt
order_versions-IsOrdered (r ∷ rows) u =
    let alone : count (has_id r.id) rows ≡ 0 =
      (let h = u r.id in omega (arith, count-cons (has_id r.id) r rows, ap one (has_id_self r))) in
    let others =
      order_versions-All (λ x. has_id r.id x ≡ false) rows (count-none (has_id r.id) rows alone) in
    let fewer : (i : ℕ) → count (has_id i) rows ≤ 1 =
      (λ i. let h = u i in omega (arith, count-cons (has_id i) r rows)) in
    insert_version-IsOrdered r (order_versions rows) others (order_versions-IsOrdered rows fewer)

pub IsOrdered-keep :
    (p : ObjectMeta → Bool) (xs : List ObjectMeta) → IsOrdered xs → IsOrdered (keep p xs)
IsOrdered-keep p [] s = tt
IsOrdered-keep p (x ∷ xs) (a, s) = elim (Bool-cases (p x)) [
  | inl e ↦ rw e (All-keep (λ y. precedes x y ≡ true) p xs a, IsOrdered-keep p xs s)
  | inr e ↦ rw e (IsOrdered-keep p xs s)
]

-- Of an ordered list, the rows behind one of them are those that come after it in the order.
pub keep-precedes :
    (xs ys : List ObjectMeta) (m : ObjectMeta)
    → IsOrdered (xs ++ m ∷ ys)
    → keep (λ r. precedes m r) (xs ++ m ∷ ys) ≡ ys
keep-precedes [] ys m (a, s) = rw (precedes_irrefl m) (keep-All (λ r. precedes m r) ys a)
keep-precedes (x ∷ xs) ys m (a, s) =
    let (before, _) = All-append_right (λ y. precedes x y ≡ true) xs (m ∷ ys) a in
    rw (precedes_asym x m before) (keep-precedes xs ys m s)
