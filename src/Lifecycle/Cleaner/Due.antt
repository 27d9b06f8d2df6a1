-- ===== src/Lifecycle/Cleaner/Due.antt =====
-- When a row is to be deleted by a rule, and the rows that the queries find.
use cloodsy_s.Prelude.{
  ℕ, zero, suc, ltb, ltb→lt, ◌+◌, ◌*◌, ◌/◌, ◌<◌, ◌≡◌, ◌≢◌, ◌⊎◌, inl, inr, refl, Bool, true, false,
  not, ◌&&◌, some, List, [], ◌∷◌, map, keep, take, All, Bytes, codes, ==_iff, ◌==◌, non_empty,
  Bool-cases, &&-eq-true, if◌then◌else◌, arith,
}
use cloodsy_s.Prelude.Result.{not-true}
use cloodsy_s.Auth.SigTime.{nanos}
use cloodsy_s.Db.Query.{last_match}
use cloodsy_s.Db.Prefix.{in_prefix_range}
use cloodsy_s.Db.Objects.{ObjectMeta, Table, of_key}
use cloodsy_s.Db.Multipart.{is_some}
use cloodsy_s.Db.Expiry.{
  LifecycleRule, is_next, is_alone, get_expired_objects, get_expired_noncurrent_versions,
  get_orphan_delete_markers,
}
use cloodsy_s.Service.Objects.{Bucket}
use cloodsy_s.Handler.Access.{bucket_named}
use cloodsy_s.Lifecycle.Cleaner.{version_for_delete}

pub data Among {A : Type 0} (x : A) : List A → Type 0 where
  here : {xs : List A} → Among x (x ∷ xs)
  later : {y : A} {xs : List A} → Among x xs → Among x (y ∷ xs)

-- The rule is one of the rules, is enabled, and is for the bucket and the row's key.
pub record Covers (rules : List LifecycleRule) (buckets : List Bucket) (rule : LifecycleRule)
    (b : Bucket) (r : ObjectMeta) : Type 0 where
  pub listed : Among rule rules
  pub on : rule.status ≡ codes "Enabled"
  pub named : bucket_named rule.bucket_name buckets ≡ some b
  pub owned : r.bucket_id ≡ b.id
  pub under : in_prefix_range rule.rule_prefix r.key ≡ true

-- More than the days, in whole seconds, lie between the row's time and now.
abbrev pub Aged : ℕ → ℕ → ObjectMeta → Type 0
Aged now days r = r.last_modified / nanos + days * 86400 < now / nanos

-- The version id that names the row.
abbrev pub Names : ObjectMeta → Bytes → Type 0
Names r v = ((r.version_id ≢ []) × (v ≡ r.version_id)) ⊎ ((r.version_id ≡ []) × (v ≡ codes "null"))

-- The row of the table is to be deleted by a rule: the key's current object without a version, a row that
-- is not the latest by its version, and a delete marker that is the key's only row by its version.
pub data Due (rules : List LifecycleRule) (buckets : List Bucket) (now : ℕ) (b : Bucket) (t : Table)
    : ObjectMeta × Bytes → Type 0 where
  current :
      {rule : LifecycleRule} {r : ObjectMeta}
      → Among r t.rows
      → Covers rules buckets rule b r
      → 0 < rule.expiration_days
      → (r.is_latest ≡ true) × (r.is_delete_marker ≡ false)
      → Aged now rule.expiration_days r
      → Due rules buckets now b t (r, [])
  noncurrent :
      {rule : LifecycleRule} {r : ObjectMeta} {v : Bytes}
      → Among r t.rows
      → Covers rules buckets rule b r
      → 0 < rule.noncurrent_days
      → r.is_latest ≡ false
      → Aged now rule.noncurrent_days r
      → Names r v
      → Due rules buckets now b t (r, v)
  orphan :
      {rule : LifecycleRule} {r : ObjectMeta} {v : Bytes}
      → Among r t.rows
      → Covers rules buckets rule b r
      → rule.expire_markers ≡ true
      → (r.is_latest ≡ true) × (r.is_delete_marker ≡ true)
      → ((x : ObjectMeta) → Among x t.rows → of_key r.bucket_id r.key x ≡ true → x.id ≡ r.id)
      → Names r v
      → Due rules buckets now b t (r, v)

Among-later_or : {A : Type 0} {x y : A} {xs : List A} → Among x (y ∷ xs) → (x ≡ y) ⊎ Among x xs
Among-later_or here = inl refl
Among-later_or (later m) = inr m

All-keep_among :
    {A : Type 0} (P : A → Type 0) (p : A → Bool) (xs : List A)
    → ((x : A) → Among x xs → p x ≡ true → P x)
    → All P (keep p xs)
All-keep_among P p [] h = tt
All-keep_among P p (x ∷ xs) h = elim (Bool-cases (p x)) [
  | inl e ↦ rw e (h x here e, All-keep_among P p xs (λ y m. h y (later m)))
  | inr e ↦ rw e (All-keep_among P p xs (λ y m. h y (later m)))
]

All-take : {A : Type 0} (P : A → Type 0) (n : ℕ) (xs : List A) → All P xs → All P (take n xs)
All-take P zero xs h = tt
All-take P (suc n) [] h = tt
All-take P (suc n) (x ∷ xs) (p, h) = (p, All-take P n xs h)

pub All-paired :
    {A B : Type 0} (P : A × B → Type 0) (f : A → B) (xs : List A)
    → All (λ x. P (x, f x)) xs
    → All P (map (λ x. (x, f x)) xs)
All-paired P f [] h = tt
All-paired P f (x ∷ xs) (p, h) = (p, All-paired P f xs h)

version_for_delete-Names : (r : ObjectMeta) → Names r (version_for_delete r.version_id)
unfolding version_for_delete
version_for_delete-Names r = named r.version_id
  where
    named :
        (v : Bytes)
        → ((v ≢ []) × ((if non_empty v then v else codes "null") ≡ v))
          ⊎ ((v ≡ []) × ((if non_empty v then v else codes "null") ≡ codes "null"))
    named [] = inr (refl, refl)
    named (c ∷ v) = inl (λ e. cc, refl)

no_match :
    (p : ObjectMeta → Bool) (x : ObjectMeta) {xs : List ObjectMeta}
    → is_some (last_match p xs) ≡ false
    → Among x xs
    → p x ≡ false
unfolding last_match
no_match p x h (here {xs = xs}) = ground arith
no_match p x h (later {xs = xs} m) =
    let rest : is_some (last_match p xs) ≡ false = ground arith in no_match p x rest m

only_row :
    (t : Table) (r x : ObjectMeta)
    → is_alone t r ≡ true
    → Among x t.rows
    → of_key r.bucket_id r.key x ≡ true
    → x.id ≡ r.id
only_row t r x h m own =
    let no =
      no_match (λ (y : ObjectMeta). of_key r.bucket_id r.key y && not (y.id == r.id)) x
        (not-true _ h) m in
    elim (Bool-cases (x.id == r.id)) [
      | inl same ↦ (==_iff x.id r.id).0 same
      | inr other ↦ let bad : true ≡ false = rw (own, other) at no in cc
    ]

module _ (rules : List LifecycleRule) (buckets : List Bucket) (rule : LifecycleRule) (b : Bucket)
    (now : ℕ) (listed : Among rule rules) (on : rule.status ≡ codes "Enabled")
    (named : bucket_named rule.bucket_name buckets ≡ some b) where
  covers :
      (after_id : ℕ) (r : ObjectMeta)
      → is_next b.id rule.rule_prefix after_id r ≡ true
      → Covers rules buckets rule b r
  covers after_id r h =
      let (own, rest) = &&-eq-true (r.bucket_id == b.id) _ h in
      record {
        listed = listed;
        on = on;
        named = named;
        owned = (==_iff r.bucket_id b.id).0 own;
        under = (&&-eq-true (ltb after_id r.id) _ rest).1;
      }

  pub expired-Due :
      (t : Table) (after_id limit : ℕ)
      → ltb 0 rule.expiration_days ≡ true
      → All
          (λ r. Due rules buckets now b t (r, []))
          (get_expired_objects t b.id rule.rule_prefix rule.expiration_days now after_id limit)
  unfolding get_expired_objects
  expired-Due t after_id limit d = All-take _ limit _ (
      All-keep_among _ _ t.rows (λ r m h.
        let (next, rest) = &&-eq-true (is_next b.id rule.rule_prefix after_id r) _ h in
        let (live, old) = &&-eq-true (r.is_latest && not r.is_delete_marker) _ rest in
        let (latest, object) = &&-eq-true r.is_latest _ live in
        current m (covers after_id r next) (ltb→lt _ _ d) (latest, not-true _ object)
          (ltb→lt _ _ old)))

  pub noncurrent-Due :
      (t : Table) (after_id limit : ℕ)
      → ltb 0 rule.noncurrent_days ≡ true
      → All
          (λ r. Due rules buckets now b t (r, version_for_delete r.version_id))
          (get_expired_noncurrent_versions t b.id rule.rule_prefix rule.noncurrent_days now after_id
            limit)
  unfolding get_expired_noncurrent_versions
  noncurrent-Due t after_id limit d = All-take _ limit _ (
      All-keep_among _ _ t.rows (λ r m h.
        let (next, rest) = &&-eq-true (is_next b.id rule.rule_prefix after_id r) _ h in
        let (older, old) = &&-eq-true (not r.is_latest) _ rest in
        noncurrent m (covers after_id r next) (ltb→lt _ _ d) (not-true _ older) (ltb→lt _ _ old)
          (version_for_delete-Names r)))

  pub orphan-Due :
      (t : Table) (after_id limit : ℕ)
      → rule.expire_markers ≡ true
      → All
          (λ r. Due rules buckets now b t (r, version_for_delete r.version_id))
          (get_orphan_delete_markers t b.id rule.rule_prefix after_id limit)
  unfolding get_orphan_delete_markers
  orphan-Due t after_id limit d = All-take _ limit _ (
      All-keep_among _ _ t.rows (λ r m h.
        let (next, rest) = &&-eq-true (is_next b.id rule.rule_prefix after_id r) _ h in
        let (marker, alone) = &&-eq-true (r.is_latest && r.is_delete_marker) _ rest in
        orphan m (covers after_id r next) d (&&-eq-true r.is_latest _ marker)
          (λ x n own. only_row t r x alone n own) (version_for_delete-Names r)))
