-- ===== src/Db/Objects/Rows.antt =====
-- One row of a table whose ids are unique: what changes when it is deleted or updated.
use cloodsy_s.Prelude.{
  ℕ, ◌+◌, ◌≤◌, ◌≡◌, refl, ap, ◌∙◌, Bool, true, not, some, List, [], ◌∷◌, ◌++◌, arith, if◌then◌else◌,
  Bool-cases, Option-cases, inl, inr, ==_iff, keep-append,
}
use cloodsy_s.Db.Query.{count, last_match, update_where, delete_where}
use cloodsy_s.Db.Query.Laws.{count-append}
use cloodsy_s.Db.Objects.{ObjectMeta, has_id}

abbrev pub one : Bool → ℕ
one b = if b then 1 else 0

pub count-cons :
    (p : ObjectMeta → Bool) (r : ObjectMeta) (rows : List ObjectMeta)
    → count p (r ∷ rows) ≡ one (p r) + count p rows
unfolding count
count-cons p r rows = ground arith

-- The rows around a row that a query finds.
last_match-split :
    (q : ObjectMeta → Bool) (rows : List ObjectMeta) (m : ObjectMeta)
    → last_match q rows ≡ some m
    → (xs : List ObjectMeta) × (ys : List ObjectMeta) × (rows ≡ xs ++ m ∷ ys)
unfolding last_match
last_match-split q [] m h = cc
last_match-split q (r ∷ rows) m h = elim (Option-cases (last_match q rows)) [
  | inr (m', e) ↦
      let g = rw e at h in
      let same : m' ≡ m = ground arith in
      let (xs, ys, split) = last_match-split q rows m (e ∙ ap some same) in
      (r ∷ xs, ys, ap (λ rs. r ∷ rs) split)
  | inl e ↦ elim (Bool-cases (q r)) [
    | inl k ↦ ([], rows, ap (λ x. x ∷ rows) ((let g = rw (e, k) at h in ground arith)))
    | inr k ↦ (let g = rw (e, k) at h in cc)
  ]
]

delete_where-none :
    (w : ObjectMeta → Bool) (rows : List ObjectMeta) → count w rows ≡ 0 → delete_where w rows ≡ rows
unfolding count
delete_where-none w [] h = refl
delete_where-none w (r ∷ rows) h = elim (Bool-cases (w r)) [
  | inl e ↦ absurd (ground arith)
  | inr e ↦ rw e (ap (λ rs. r ∷ rs) (delete_where-none w rows (ground arith)))
]

update_where-none :
    (w : ObjectMeta → Bool) (f : ObjectMeta → ObjectMeta) (rows : List ObjectMeta)
    → count w rows ≡ 0
    → update_where w f rows ≡ rows
unfolding count update_where
update_where-none w f [] h = refl
update_where-none w f (r ∷ rows) h = elim (Bool-cases (w r)) [
  | inl e ↦ absurd (ground arith)
  | inr e ↦ rw e (ap (λ rs. r ∷ rs) (update_where-none w f rows (ground arith)))
]

delete_where-append :
    (w : ObjectMeta → Bool) (xs ys : List ObjectMeta)
    → delete_where w (xs ++ ys) ≡ delete_where w xs ++ delete_where w ys
delete_where-append w xs ys = keep-append (λ r. not (w r)) xs ys

update_where-append :
    (w : ObjectMeta → Bool) (f : ObjectMeta → ObjectMeta) (xs ys : List ObjectMeta)
    → update_where w f (xs ++ ys) ≡ update_where w f xs ++ update_where w f ys
unfolding update_where
update_where-append w f [] ys = refl
update_where-append w f (x ∷ xs) ys =
    ap (λ rs. (if w x then f x else x) ∷ rs) (update_where-append w f xs ys)

pub has_id_self : (m : ObjectMeta) → has_id m.id m ≡ true
has_id_self m = (==_iff m.id m.id).1 refl

module _ (xs ys : List ObjectMeta) (m : ObjectMeta)
    (u : count (has_id m.id) (xs ++ m ∷ ys) ≤ 1) where
  own_ids : count (has_id m.id) xs + (1 + count (has_id m.id) ys) ≤ 1
  own_ids = rw (count-append, count-cons, has_id_self m) at u

  delete-isolated : delete_where (has_id m.id) (xs ++ m ∷ ys) ≡ xs ++ ys
  delete-isolated =
      let h = own_ids in
      rw
        (
          delete_where-append,
          delete_where-none (has_id m.id) xs (omega arith),
          has_id_self m,
          delete_where-none (has_id m.id) ys (omega arith),
        )
        refl

  update-isolated :
      (f : ObjectMeta → ObjectMeta) → update_where (has_id m.id) f (xs ++ m ∷ ys) ≡ xs ++ f m ∷ ys
  unfolding update_where
  update-isolated f =
      let h = own_ids in
      rw
        (
          update_where-append,
          update_where-none (has_id m.id) f xs (omega arith),
          has_id_self m,
          update_where-none (has_id m.id) f ys (omega arith),
        )
        refl

module _ (q : ObjectMeta → Bool) (rows : List ObjectMeta) (m : ObjectMeta)
    (found : last_match q rows ≡ some m) (unique : count (has_id m.id) rows ≤ 1) where
  -- A row whose id is unique counts once less when it is deleted.
  pub count-deleted :
      (p : ObjectMeta → Bool) → count p rows ≡ one (p m) + count p (delete_where (has_id m.id) rows)
  count-deleted p =
      let (xs, ys, e) = last_match-split q rows m found in
      let u = rw e at unique in
      rw e (rw (delete-isolated xs ys m u, count-append, count-append, count-cons) (omega arith))

  -- Only the row counts differently when it is updated.
  pub count-updated :
      (p : ObjectMeta → Bool) (f : ObjectMeta → ObjectMeta)
      → count p (update_where (has_id m.id) f rows) + one (p m) ≡ count p rows + one (p (f m))
  count-updated p f =
      let (xs, ys, e) = last_match-split q rows m found in
      let u = rw e at unique in
      rw e (
        rw (update-isolated xs ys m u f, count-append, count-append, count-cons, count-cons)
          (omega arith))
