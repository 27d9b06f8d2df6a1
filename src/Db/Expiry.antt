-- ===== src/Db/Expiry.antt =====
-- The queries of db/metadata.go and db/bucket.go for the lifecycle cleaner. The bucket of a name is given
-- by its id; times are nanoseconds. The text of a stored time, in UTC with its fraction, is
-- compared with a text to the second, so that whole seconds are.
use cloodsy_s.Prelude.{
  ℕ, ◌+◌, ◌*◌, ◌/◌, ◌==◌, ltb, Bool, true, not, ◌&&◌, Option, none, some, List, [], ◌∷◌, keep, take,
  length, Bytes, bytes_eq, codes, has_prefix, if◌then◌else◌,
}
use cloodsy_s.Auth.SigTime.{nanos}
use cloodsy_s.Db.Query.{last_match}
use cloodsy_s.Db.Prefix.{in_prefix_range}
use cloodsy_s.Db.Objects.{ObjectMeta, Table, of_key}
use cloodsy_s.Db.Multipart.{is_some}

-- `last_modified < datetime('now', '-' || ? || ' days')`
abbrev pub is_older : ℕ → ℕ → ObjectMeta → Bool
is_older now days r = ltb (r.last_modified / nanos + days * 86400) (now / nanos)

-- The conditions that the queries share: the bucket, the id cursor and the prefix.
abbrev pub is_next : ℕ → Bytes → ℕ → ObjectMeta → Bool
is_next b prefix after_id r =
    r.bucket_id == b && (ltb after_id r.id && in_prefix_range prefix r.key)

unfoldable pub get_expired_objects : Table → ℕ → Bytes → ℕ → ℕ → ℕ → ℕ → List ObjectMeta
get_expired_objects t b prefix days now after_id limit = take limit (
    keep
      (λ r.
        is_next b prefix after_id r
        && ((r.is_latest && not r.is_delete_marker) && is_older now days r))
      t.rows)

unfoldable pub get_expired_noncurrent_versions : Table → ℕ → Bytes → ℕ → ℕ → ℕ → ℕ → List ObjectMeta
get_expired_noncurrent_versions t b prefix days now after_id limit =
    take limit
      (keep (λ r. is_next b prefix after_id r && (not r.is_latest && is_older now days r)) t.rows)

-- `NOT EXISTS` another row of the key.
abbrev pub is_alone : Table → ObjectMeta → Bool
is_alone t r = not (
    is_some
      (last_match (λ (x : ObjectMeta). of_key r.bucket_id r.key x && not (x.id == r.id)) t.rows))

unfoldable pub get_orphan_delete_markers : Table → ℕ → Bytes → ℕ → ℕ → List ObjectMeta
get_orphan_delete_markers t b prefix after_id limit = take limit (
    keep (λ r. is_next b prefix after_id r && ((r.is_latest && r.is_delete_marker) && is_alone t r))
      t.rows)

pub record LifecycleRule : Type 0 where
  pub bucket_name : Bytes
  pub rule_prefix : Bytes
  pub status : Bytes
  pub expiration_days : ℕ
  pub noncurrent_days : ℕ
  pub abort_multipart_days : ℕ
  pub expire_markers : Bool

abbrev pub is_enabled : LifecycleRule → Bool
is_enabled r = bytes_eq r.status (codes "Enabled")

-- Whether a rule is more specific than the best so far.
abbrev pub improves : Option LifecycleRule → LifecycleRule → Bool
improves none r = true
improves (some best) r = ltb (length best.rule_prefix) (length r.rule_prefix)

unfoldable pub best_rule : Bytes → Option LifecycleRule → List LifecycleRule → Option LifecycleRule
best_rule key best [] = best
best_rule key best (r ∷ rules) =
    let kept = best_rule key best rules in
    let better = best_rule key (some r) rules in
    if (is_enabled r && ltb 0 r.expiration_days)
      && (has_prefix key r.rule_prefix && improves best r)
    then better
    else kept

-- `GetMatchingLifecycleRule`, over the rules of the bucket
unfoldable pub get_matching_lifecycle_rule : Bytes → List LifecycleRule → Option LifecycleRule
unfolding best_rule
get_matching_lifecycle_rule key rules = best_rule key none rules
