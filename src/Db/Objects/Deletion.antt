-- ===== src/Db/Objects/Deletion.antt =====
-- `DeleteVersionAndPromote`: deletion of a version and promotion of the newest one that is left.
use cloodsy_s.Prelude.{
  ℕ, ◌+◌, ◌≤◌, ◌≡◌, refl, sym, ◌∙◌, Bool, true, false, none, some, arith, Bytes, Bool-cases,
  Option-cases, inl, inr, min, bytes_eq,
}
use cloodsy_s.Db.Query.{count, last_match, update_where, delete_where}
use cloodsy_s.Db.Query.Laws.{
  count_mono, count-last_match-none, count-last_match-some, last_match_sound,
}
use cloodsy_s.Db.Objects.{
  ObjectMeta, Table, of_key, of_version, is_current, has_id, set_latest, version_query,
  delete_found, delete_version_and_promote, is_null_version, null_version,
}
use cloodsy_s.Db.Objects.WellFormed.{IsWellFormed, of_key→eq}
use cloodsy_s.Db.Objects.Rows.{one, count-deleted, count-updated}

pub current→key :
    (b : ℕ) (k : Bytes) (r : ObjectMeta) → is_current b k r ≡ true → of_key b k r ≡ true
unfolding is_current
current→key b k r h = ground arith

not-current : (b : ℕ) (k : Bytes) (r : ObjectMeta) → of_key b k r ≡ false → is_current b k r ≡ false
unfolding is_current
not-current b k r h = rw h

is_current-latest :
    (b : ℕ) (k : Bytes) (r : ObjectMeta) → r.is_latest ≡ true → is_current b k r ≡ of_key b k r
unfolding is_current
is_current-latest b k r h = ground arith

is_current-old :
    (b : ℕ) (k : Bytes) (r : ObjectMeta) → r.is_latest ≡ false → is_current b k r ≡ false
unfolding is_current
is_current-old b k r h = ground arith

-- Rows of one key are of the same keys.
pub same_keys :
    (b b' : ℕ) (k k' : Bytes) (m : ObjectMeta)
    → of_key b k m ≡ true
    → of_key b' k' m ≡ true
    → (b' ≡ b) × (k' ≡ k)
same_keys b b' k k' m h g =
    let (eb, ek) = of_key→eq b k m h in
    let (eb', ek') = of_key→eq b' k' m g in (sym eb' ∙ eb, sym ek' ∙ ek)

version_query→key :
    (b : ℕ) (k v : Bytes) (m : ObjectMeta) → version_query b k v m ≡ true → of_key b k m ≡ true
unfolding is_null_version of_version
version_query→key b k v m h = elim (Bool-cases (bytes_eq v null_version)) [
  | inl e ↦ let h' = rw e at h in ground arith
  | inr e ↦ let h' = rw e at h in ground arith
]

module _ (t : Table) (w : IsWellFormed t) (b : ℕ) (k : Bytes) (q : ObjectMeta → Bool)
    (m : ObjectMeta) (found : last_match q t.rows ≡ some m) (own : of_key b k m ≡ true) where
  abbrev left : Table
  left = record t { rows = delete_where (has_id m.id) t.rows }

  count-left : (p : ObjectMeta → Bool) → count p t.rows ≡ one (p m) + count p left.rows
  count-left p = count-deleted q t.rows m found (w.unique_ids m.id) p

  at_most-left : (p : ObjectMeta → Bool) → count p left.rows ≤ count p t.rows
  at_most-left p = omega (arith, count-left p)

  -- The keys other than the deleted row's keep their latest row.
  one_latest-other :
      (b' : ℕ) (k' : Bytes)
      → of_key b' k' m ≡ false
      → count (is_current b' k') left.rows ≡ min 1 (count (of_key b' k') left.rows)
  one_latest-other b' k' h = ground (
    arith,
    w.one_latest b' k',
    count-left (is_current b' k'),
    count-left (of_key b' k'),
    not-current b' k' m,
  )

  left-IsWellFormed :
      ((b' : ℕ) (k' : Bytes)
        → of_key b' k' m ≡ true
        → count (is_current b' k') left.rows ≡ min 1 (count (of_key b' k') left.rows))
      → IsWellFormed left
  left-IsWellFormed h = record {
    unique_versions =
        λ b' k' v. omega (arith, w.unique_versions b' k' v, at_most-left (of_version b' k' v));
    one_latest = λ b' k'. elim (Bool-cases (of_key b' k' m)) [
      | inl e ↦ h b' k' e
      | inr e ↦ one_latest-other b' k' e
    ];
    unique_ids = λ i. omega (arith, w.unique_ids i, at_most-left (has_id i));
    fresh_ids = λ i g. omega (arith, w.fresh_ids i g, at_most-left (has_id i));
  }

  -- A row that was not the latest leaves the latest one.
  left-IsWellFormed_old : m.is_latest ≡ false → IsWellFormed left
  left-IsWellFormed_old old = left-IsWellFormed (λ b' k' e. ground (
    arith,
    w.one_latest b' k',
    count-left (is_current b' k'),
    count-left (of_key b' k'),
    is_current-old b' k' m old,
    count_mono _ _ left.rows (current→key b' k'),
  ))

  -- Without its latest row a key has none.
  no_current-left :
      m.is_latest ≡ true
      → (b' : ℕ) (k' : Bytes) → of_key b' k' m ≡ true
      → count (is_current b' k') left.rows ≡ 0
  no_current-left latest b' k' e =
      ground
        (arith, w.one_latest b' k', count-left (is_current b' k'), is_current-latest b' k' m latest)

  left-IsWellFormed_last :
      m.is_latest ≡ true → last_match (of_key b k) left.rows ≡ none → IsWellFormed left
  left-IsWellFormed_last latest h = left-IsWellFormed (λ b' k' e.
      let (eb, ek) = same_keys b b' k k' m own e in
      let gone : count (of_key b' k') left.rows ≡ 0 =
        rw (eb, ek) (count-last_match-none (of_key b k) left.rows h) in
      ground (arith, no_current-left latest b' k' e))

  module _ (latest : m.is_latest ≡ true) (p : ObjectMeta)
      (newest : last_match (of_key b k) left.rows ≡ some p) where
    abbrev promoted : Table
    promoted = record left { rows = update_where (has_id p.id) set_latest left.rows }

    unique-left : count (has_id p.id) left.rows ≤ 1
    unique-left = omega (arith, w.unique_ids p.id, at_most-left (has_id p.id))

    count-promoted :
        (c : ObjectMeta → Bool)
        → count c promoted.rows + one (c p) ≡ count c left.rows + one (c (set_latest p))
    count-promoted c = count-updated (of_key b k) left.rows p newest unique-left c set_latest

    count-kept :
        (c : ObjectMeta → Bool) → c (set_latest p) ≡ c p → count c promoted.rows ≡ count c left.rows
    count-kept c h = ground (arith, count-promoted c)

    counted : (c : ObjectMeta → Bool) → one (c p) ≤ count c left.rows
    counted c = omega (arith, count-deleted (of_key b k) left.rows p newest unique-left c)

    of_key-set_latest :
        (b' : ℕ) (k' : Bytes) (r : ObjectMeta) → of_key b' k' (set_latest r) ≡ of_key b' k' r
    unfolding of_key
    of_key-set_latest b' k' r = refl

    of_version-set_latest :
        (b' : ℕ) (k' v : Bytes) (r : ObjectMeta)
        → of_version b' k' v (set_latest r) ≡ of_version b' k' v r
    unfolding of_version
    of_version-set_latest b' k' v r = refl

    own-promoted : of_key b k p ≡ true
    own-promoted = last_match_sound (of_key b k) left.rows p newest

    -- The promoted row is the only latest row of its key.
    one_current-promoted : count (is_current b k) promoted.rows ≡ 1
    one_current-promoted = ground (
      arith,
      no_current-left latest b k own,
      counted (is_current b k),
      count-promoted (is_current b k),
      is_current-latest b k (set_latest p) refl,
      of_key-set_latest b k p,
      own-promoted,
    )

    one_latest-promoted_own :
        count (is_current b k) promoted.rows ≡ min 1 (count (of_key b k) promoted.rows)
    one_latest-promoted_own =
        let some_left = count-last_match-some (of_key b k) left.rows p newest in
        let kept = count-kept (of_key b k) (of_key-set_latest b k p) in
        rw one_current-promoted (omega arith)

    other-promoted : (b' : ℕ) (k' : Bytes) → of_key b' k' m ≡ false → of_key b' k' p ≡ false
    other-promoted b' k' h = elim (Bool-cases (of_key b' k' p)) [
      | inr e ↦ e
      | inl e ↦
          let (eb, ek) = same_keys b b' k k' p own-promoted e in
          let g = rw (eb, ek) at h in absurd (ground (arith, own))
    ]

    one_latest-promoted_other :
        (b' : ℕ) (k' : Bytes)
        → of_key b' k' m ≡ false
        → count (is_current b' k') promoted.rows ≡ min 1 (count (of_key b' k') promoted.rows)
    one_latest-promoted_other b' k' h =
        let other = other-promoted b' k' h in
        let key = of_key-set_latest b' k' p in
        let same =
          count-kept (is_current b' k')
            (not-current b' k' (set_latest p) (key ∙ other) ∙ sym (not-current b' k' p other)) in
        rw (same, count-kept (of_key b' k') key) (one_latest-other b' k' h)

    one_latest-promoted :
        (b' : ℕ) (k' : Bytes)
        → count (is_current b' k') promoted.rows ≡ min 1 (count (of_key b' k') promoted.rows)
    one_latest-promoted b' k' = elim (Bool-cases (of_key b' k' m)) [
      | inr e ↦ one_latest-promoted_other b' k' e
      | inl e ↦ let (eb, ek) = same_keys b b' k k' m own e in rw (eb, ek) one_latest-promoted_own
    ]

    promoted-IsWellFormed : IsWellFormed promoted
    promoted-IsWellFormed = record {
      unique_versions = λ b' k' v. omega (
        arith,
        w.unique_versions b' k' v,
        at_most-left (of_version b' k' v),
        count-kept (of_version b' k' v) (of_version-set_latest b' k' v p),
      );
      one_latest = one_latest-promoted;
      unique_ids =
          λ i. omega (arith, w.unique_ids i, at_most-left (has_id i), count-kept (has_id i) refl);
      fresh_ids = λ i g.
          omega (arith, w.fresh_ids i g, at_most-left (has_id i), count-kept (has_id i) refl);
    }

  found-IsWellFormed : IsWellFormed (delete_found (some m) b k t).table
  found-IsWellFormed = elim (Bool-cases m.is_latest) [
    | inr old ↦ rw old (left-IsWellFormed_old old)
    | inl latest ↦ rw latest (elim (Option-cases (last_match (of_key b k) left.rows)) [
      | inl e ↦ rw e (left-IsWellFormed_last latest e)
      | inr (p, e) ↦ rw e (promoted-IsWellFormed latest p e)
    ])
  ]

-- From a well-formed table, deleting a version leaves a well-formed table, whether the version
-- exists, whether it is the latest one, and whether another version is left: every key that still
-- has rows has exactly one latest row.
pub delete_version_and_promote-IsWellFormed :
    (t : Table) (b : ℕ) (k v : Bytes)
    → IsWellFormed t
    → IsWellFormed (delete_version_and_promote b k v t).table
unfolding delete_version_and_promote
delete_version_and_promote-IsWellFormed t b k v w =
    elim (Option-cases (last_match (version_query b k v) t.rows)) [
      | inl e ↦ rw e w
      | inr (m, e) ↦ rw e (
          found-IsWellFormed t w b k (version_query b k v) m e
            (version_query→key b k v m (last_match_sound (version_query b k v) t.rows m e)))
    ]
