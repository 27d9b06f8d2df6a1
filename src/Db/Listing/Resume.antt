-- ===== src/Db/Listing/Resume.antt =====
-- Where a listing goes on: the rows after an entry roll up into the entries after it.
use mathlib.Core.Option
use cloodsy_s.Prelude.{
  ◌≡◌, refl, sym, ap, ◌∙◌, true, false, not, Option, none, some, List, [], ◌∷◌, ◌++◌, keep, All,
  arith, Bytes, IsBytes, bytes_lt, bytes_le, bytes_lt_trans, bytes_lt_asym, bytes_lt_irrefl,
  has_prefix, non_empty, Bool-cases, Option-cases, inl, inr, All-map, All-append_right, keep-append,
  keep_none, keep-All,
}
use cloodsy_s.Db.Prefix.{prefix_upper_bound}
use cloodsy_s.Db.Prefix.Bounds.{bounded, has_prefix-eq-bounded}
use cloodsy_s.Db.Objects.{ObjectMeta}
use cloodsy_s.Db.Listing.{
  Entry, object, common, entry_of, skip_of, skips, common_prefix, Cursor, from_cursor,
}
use cloodsy_s.Db.Listing.Entries.{roll_up, Ascending, Ascending-before, Ascending-append_right}
use cloodsy_s.Db.Listing.Common.{
  entry_of-none, entry_of-some, common_prefix-non_empty, has_prefix-common_prefix,
}

-- The cursor behind an entry; `none` where nothing can follow.
abbrev pub behind : Entry → Option Cursor
behind (object o) = some (record { lower = o.key; inclusive = false })
behind (common cp) =
    Option.map (λ ub. record { lower = ub; inclusive = true }) (prefix_upper_bound cp)

abbrev pub rows_from : Option Cursor → List ObjectMeta → List ObjectMeta
rows_from none rows = []
rows_from (some c) rows = keep (from_cursor c) rows

-- What the table's keys are in the theorems on listings: bytes, not empty, under the prefix.
pub record IsListed (prefix : Bytes) (r : ObjectMeta) : Type 0 where
  pub bytes : IsBytes r.key
  pub named : non_empty r.key ≡ true
  pub under : has_prefix r.key prefix ≡ true

bounded→le : (p k : Bytes) (o : Option Bytes) → bounded p k o ≡ true → bytes_le p k ≡ true
bounded→le p k none h = h
bounded→le p k (some ub) h = ground arith

bounded→lt : (p k ub : Bytes) → bounded p k (some ub) ≡ true → bytes_lt k ub ≡ true
bounded→lt p k ub h = ground arith

pub bytes_lt-non_empty : (k ub : Bytes) → bytes_lt k ub ≡ true → non_empty ub ≡ true
unfolding bytes_lt
bytes_lt-non_empty [] [] h = cc
bytes_lt-non_empty (x ∷ k) [] h = cc
bytes_lt-non_empty k (y ∷ ub) h = refl

pub bytes_le_trans :
    (a b c : Bytes) → bytes_le a b ≡ true → bytes_lt b c ≡ true → bytes_le a c ≡ true
bytes_le_trans a b c h k = ground (arith, bytes_lt_trans b c a)

pub from_cursor_bound :
    (ub : Bytes) (r : ObjectMeta)
    → non_empty ub ≡ true
    → from_cursor (record { lower = ub; inclusive = true }) r ≡ bytes_le ub r.key
unfolding from_cursor
from_cursor_bound ub r n = rw n

from_cursor_key :
    (k : Bytes) (r : ObjectMeta)
    → non_empty k ≡ true
    → from_cursor (record { lower = k; inclusive = false }) r ≡ bytes_lt k r.key
unfolding from_cursor
from_cursor_key k r n = rw n

module _ (prefix delimiter : Bytes) where
  abbrev entries : Bytes → List ObjectMeta → List Entry
  entries skipping rows = roll_up prefix delimiter skipping rows

  pub roll_up-skip :
      (cp : Bytes) (x : ObjectMeta) (rows : List ObjectMeta)
      → skips cp x ≡ true
      → entries cp (x ∷ rows) ≡ entries cp rows
  unfolding roll_up
  roll_up-skip cp x rows h = rw h

  pub roll_up-emit :
      (cp : Bytes) (x : ObjectMeta) (rows : List ObjectMeta)
      → skips cp x ≡ false
      → entries cp (x ∷ rows)
        ≡ entry_of prefix delimiter x ∷ entries (skip_of (entry_of prefix delimiter x)) rows
  unfolding roll_up
  roll_up-emit cp x rows h = rw h

  -- Rows from the common prefix on: those under it are passed over, by the skip or by the bound.
  module _ (cp ub : Bytes) (n : non_empty cp ≡ true) (n' : non_empty ub ≡ true)
      (e : prefix_upper_bound cp ≡ some ub) where
    abbrev cursor : Cursor
    cursor = record { lower = ub; inclusive = true }

    under-bound :
        (x : ObjectMeta)
        → IsBytes x.key
        → bytes_le cp x.key ≡ true
        → has_prefix x.key cp ≡ not (from_cursor cursor x)
    under-bound x b g =
        let h = has_prefix-eq-bounded cp x.key b ∙ ap (bounded cp x.key) e in
        let c = from_cursor_bound ub x n' in rw c (ground arith)

    past-bound :
        (x : ObjectMeta) (rows : List ObjectMeta)
        → from_cursor cursor x ≡ true
        → All (λ r. bytes_lt x.key r.key ≡ true) rows
        → keep (from_cursor cursor) (x ∷ rows) ≡ x ∷ rows
    past-bound x rows h before = keep-All (from_cursor cursor) (x ∷ rows) (
      h,
      All-map _ _ rows
          (λ r lt.
            from_cursor_bound ub r n'
            ∙ bytes_le_trans ub x.key r.key (sym (from_cursor_bound ub x n') ∙ h) lt)
          before,
    )

    roll_up-from_bound :
        (rows : List ObjectMeta)
        → All (λ r. IsBytes r.key) rows
        → All (λ r. bytes_le cp r.key ≡ true) rows
        → Ascending rows
        → entries [] (keep (from_cursor cursor) rows) ≡ entries cp rows
    roll_up-from_bound [] bs ge asc = unfold roll_up in refl
    roll_up-from_bound (x ∷ rows) (b, bs) (g, gs) (before, asc) =
        let same = under-bound x b g in
        elim (Bool-cases (has_prefix x.key cp)) [
          | inl under ↦
              let dropped : from_cursor cursor x ≡ false = ground arith in
              rw (roll_up-skip cp x rows (rw (n, under)), dropped)
                (roll_up-from_bound rows bs gs asc)
          | inr past ↦
              rw (roll_up-emit cp x rows (rw (n, past)), past-bound x rows (ground arith) before)
                (roll_up-emit [] x rows refl)
        ]

  roll_up-no_bound :
      (cp : Bytes) (rows : List ObjectMeta)
      → non_empty cp ≡ true
      → prefix_upper_bound cp ≡ none
      → All (λ r. IsBytes r.key) rows
      → All (λ r. bytes_le cp r.key ≡ true) rows
      → entries cp rows ≡ []
  roll_up-no_bound cp [] n e bs ge = unfold roll_up in refl
  roll_up-no_bound cp (x ∷ rows) n e (b, bs) (g, gs) =
      let under = has_prefix-eq-bounded cp x.key b ∙ ap (bounded cp x.key) e ∙ g in
      roll_up-skip cp x rows (rw (n, under)) ∙ roll_up-no_bound cp rows n e bs gs

  bytes_le-of_prefix : (cp k : Bytes) → IsBytes k → has_prefix k cp ≡ true → bytes_le cp k ≡ true
  bytes_le-of_prefix cp k b h = bounded→le cp k _ (sym (has_prefix-eq-bounded cp k b) ∙ h)

  module _ (before : List ObjectMeta) (o : ObjectMeta) (after : List ObjectMeta)
      (asc : Ascending (before ++ o ∷ after)) where
    smaller : All (λ x. bytes_lt x.key o.key ≡ true) before
    smaller = Ascending-before before o after asc

    larger : All (λ x. bytes_lt o.key x.key ≡ true) after
    larger = (Ascending-append_right before (o ∷ after) asc).0

    keep-behind_key :
        non_empty o.key ≡ true
        → keep (from_cursor (record { lower = o.key; inclusive = false })) (before ++ o ∷ after)
          ≡ after
    keep-behind_key n =
        rw
          (
            keep-append,
            keep_none (from_cursor (record { lower = o.key; inclusive = false })) before (
                All-map _ _ before (λ x h. from_cursor_key o.key x n ∙ bytes_lt_asym x.key o.key h)
                  smaller),
            from_cursor_key o.key o n,
            bytes_lt_irrefl o.key,
          )
          (keep-All _ after (All-map _ _ after (λ x h. from_cursor_key o.key x n ∙ h) larger))

    keep-behind_bound :
        (ub : Bytes)
        → bytes_lt o.key ub ≡ true
        → keep (from_cursor (record { lower = ub; inclusive = true })) (before ++ o ∷ after)
          ≡ keep (from_cursor (record { lower = ub; inclusive = true })) after
    keep-behind_bound ub h =
        let n = bytes_lt-non_empty o.key ub h in
        rw (
          keep-append,
          keep_none (from_cursor (record { lower = ub; inclusive = true })) before (
              All-map _ _ before
                (λ x g. from_cursor_bound ub x n ∙ ap not (bytes_lt_trans x.key o.key ub g h))
                smaller),
          from_cursor_bound ub o n,
          h,
        )

    roll_up-behind_common :
        (cp : Bytes)
        → IsBytes o.key
        → All (λ r. IsBytes r.key) after
        → non_empty cp ≡ true
        → has_prefix o.key cp ≡ true
        → entries [] (rows_from (behind (common cp)) (before ++ o ∷ after)) ≡ entries cp after
    roll_up-behind_common cp b bs n h =
        let same = sym (has_prefix-eq-bounded cp o.key b) ∙ h in
        let ge =
          All-map _ _ after (λ x lt. bytes_le_trans cp o.key x.key (bounded→le cp o.key _ same) lt)
            larger in
        elim (Option-cases (prefix_upper_bound cp)) [
          | inl e ↦ rw e (unfold roll_up in sym (roll_up-no_bound cp after n e bs ge))
          | inr (ub, e) ↦
              let lt = bounded→lt cp o.key ub (rw e at same) in
              rw (e, keep-behind_bound ub lt)
                (roll_up-from_bound cp ub n (bytes_lt-non_empty o.key ub lt) e after bs ge
                  (Ascending-append_right before (o ∷ after) asc).1)
        ]

    -- The rows behind an entry of the table roll up to the entries that follow it.
    pub roll_up-behind :
        All (IsListed prefix) (before ++ o ∷ after)
        → entries [] (rows_from (behind (entry_of prefix delimiter o)) (before ++ o ∷ after))
          ≡ entries (skip_of (entry_of prefix delimiter o)) after
    roll_up-behind listed =
        let (here, rest) = All-append_right _ before (o ∷ after) listed in
        elim (Option-cases (common_prefix prefix delimiter o.key)) [
          | inl e ↦
              rw (entry_of-none prefix delimiter o e) (ap (entries []) (keep-behind_key here.named))
          | inr (cp, e) ↦ rw (entry_of-some prefix delimiter o cp e) (
              roll_up-behind_common cp here.bytes (All-map _ _ after (λ x l. l.bytes) rest)
                (common_prefix-non_empty prefix delimiter o.key cp e)
                (has_prefix-common_prefix prefix delimiter o.key cp here.under e))
        ]
