-- ===== src/Db/Objects/WellFormed.antt =====
-- The invariant of the `objects` table: versions and ids are unique, and a key that has rows has
-- exactly one latest row; and when two rows are of one key.
use cloodsy_s.Prelude.{ℕ, ◌≤◌, ◌≡◌, true, arith, Bytes, bytes_eq_iff, bytes_eq_refl, min}
use cloodsy_s.Db.Query.{count}
use cloodsy_s.Db.Objects.{ObjectMeta, Table, of_key, of_version, is_current, has_id}

pub record IsWellFormed (t : Table) : Type 0 where
  pub unique_versions : (b : ℕ) (k v : Bytes) → count (of_version b k v) t.rows ≤ 1
  pub one_latest :
      (b : ℕ) (k : Bytes) → count (is_current b k) t.rows ≡ min 1 (count (of_key b k) t.rows)
  pub unique_ids : (i : ℕ) → count (has_id i) t.rows ≤ 1
  pub fresh_ids : (i : ℕ) → t.next_id ≤ i → count (has_id i) t.rows ≡ 0

-- Two rows of one key are of the same keys.
pub of_key_trans :
    (b : ℕ) (k : Bytes) (m r : ObjectMeta)
    → of_key b k r ≡ true
    → of_key m.bucket_id m.key r ≡ true
    → of_key b k m ≡ true
unfolding of_key
of_key_trans b k m r h g =
    ground (arith, bytes_eq_iff r.key k, bytes_eq_iff r.key m.key, bytes_eq_iff m.key k)

pub of_key_self : (m : ObjectMeta) → of_key m.bucket_id m.key m ≡ true
unfolding of_key
of_key_self m = ground (arith, bytes_eq_refl m.key)

pub of_key→eq :
    (b : ℕ) (k : Bytes) (m : ObjectMeta) → of_key b k m ≡ true → (m.bucket_id ≡ b) × (m.key ≡ k)
unfolding of_key
of_key→eq b k m h = ground (arith, bytes_eq_iff m.key k)

pub of_version→eq :
    (b : ℕ) (k v : Bytes) (m : ObjectMeta)
    → of_version b k v m ≡ true
    → (m.bucket_id ≡ b) × (m.key ≡ k) × (m.version_id ≡ v)
unfolding of_version
of_version→eq b k v m h = ground (arith, bytes_eq_iff m.key k, bytes_eq_iff m.version_id v)
