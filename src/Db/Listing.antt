-- ===== src/Db/Listing.antt =====
-- `ListObjectsMeta` of db/metadata.go: one page of a bucket's current objects in byte order, keys
-- that share a prefix up to the delimiter rolled up into one entry.
pub mod Entries
pub mod Common
pub mod Resume
pub mod Scanning
pub mod Cursors
pub mod Loop
pub mod Page
pub mod Refinement
pub mod Pages
pub mod Ordering
use mathlib.Core.Option
use cloodsy_s.Prelude.{
  ℕ, zero, suc, ◌+◌, ◌==◌, Bool, true, false, not, ◌&&◌, Option, none, some, List, [], ◌∷◌, ◌++◌,
  keep, take, drop, length, ltb, leb, Bytes, bytes_lt, bytes_le, bytes_eq, has_prefix, has_suffix,
  index_of, non_empty, if◌then◌else◌,
}
use cloodsy_s.Db.Prefix.{prefix_upper_bound, in_prefix_range}
use cloodsy_s.Db.Objects.{ObjectMeta, Table, is_object}

-- `ORDER BY key`; rows of equal keys stay in the order of their ids.
unfoldable pub insert_by_key : ObjectMeta → List ObjectMeta → List ObjectMeta
insert_by_key r [] = r ∷ []
insert_by_key r (x ∷ xs) = if bytes_lt x.key r.key then x ∷ insert_by_key r xs else r ∷ x ∷ xs

unfoldable pub order_by_key : List ObjectMeta → List ObjectMeta
unfolding insert_by_key
order_by_key [] = []
order_by_key (r ∷ rows) = insert_by_key r (order_by_key rows)

-- The current objects of the bucket in the prefix range, ordered by key.
unfoldable pub in_range : ℕ → Bytes → ObjectMeta → Bool
in_range b prefix r = is_object b r && in_prefix_range prefix r.key

unfoldable pub selected : Table → ℕ → Bytes → List ObjectMeta
selected t b prefix = keep (in_range b prefix) (order_by_key t.rows)

-- Where a query starts: no bound for the empty string, else `key >= lower` or `key > lower`.
pub record Cursor : Type 0 where
  pub lower : Bytes
  pub inclusive : Bool

unfoldable pub from_cursor : Cursor → ObjectMeta → Bool
from_cursor c r =
    if non_empty c.lower
    then (if c.inclusive then bytes_le c.lower r.key else bytes_lt c.lower r.key)
    else true

-- `listBatch`
unfoldable pub list_batch : Table → ℕ → Bytes → Cursor → ℕ → List ObjectMeta
list_batch t b prefix c limit = take limit (keep (from_cursor c) (selected t b prefix))

-- An entry of a listing: an object, or a common prefix.
pub data Entry : Type 0 where
  object : ObjectMeta → Entry
  common : Bytes → Entry

-- `prefix + rest[:idx+len(delimiter)]`, where the rest of the key holds the delimiter.
unfoldable pub common_prefix : Bytes → Bytes → Bytes → Option Bytes
common_prefix prefix delimiter key =
    let rest : Bytes = drop (length prefix) key in
    if non_empty delimiter
    then Option.map (λ idx. prefix ++ take (idx + length delimiter) rest) (index_of rest delimiter)
    else none

abbrev pub as_entry : ObjectMeta → Option Bytes → Entry
as_entry o none = object o
as_entry o (some cp) = common cp

unfoldable pub entry_of : Bytes → Bytes → ObjectMeta → Entry
entry_of prefix delimiter o = as_entry o (common_prefix prefix delimiter o.key)

-- The variables that the function has filled so far.
pub record Progress : Type 0 where
  pub objects : List ObjectMeta
  pub common_prefixes : List Bytes
  pub count : ℕ
  pub last_entry : Bytes

unfoldable pub add_entry : Entry → Progress → Progress
add_entry (object o) st = record st {
  objects = st.objects ++ o ∷ [];
  count = st.count + 1;
  last_entry = o.key;
}
add_entry (common cp) st = record st {
  common_prefixes = st.common_prefixes ++ cp ∷ [];
  count = st.count + 1;
  last_entry = cp;
}

-- The common prefix that is skipped after an entry.
abbrev pub skip_of : Entry → Bytes
skip_of (object o) = []
skip_of (common cp) = cp

pub record Scan : Type 0 where
  pub progress : Progress
  pub skipping : Bytes
  pub consumed_all : Bool

-- `skipping != "" && strings.HasPrefix(obj.Key, skipping)`
abbrev pub skips : Bytes → ObjectMeta → Bool
skips skipping o = non_empty skipping && has_prefix o.key skipping

module _ (prefix delimiter : Bytes) (max_keys : ℕ) where
  -- The loop over one batch.
  unfoldable pub scan_batch : Bytes → List ObjectMeta → Progress → Scan
  scan_batch skipping [] st = record { progress = st; skipping = skipping; consumed_all = true }
  scan_batch skipping (o ∷ batch) st =
      let skipped = scan_batch skipping batch st in
      let e : Entry = entry_of prefix delimiter o in
      let emitted = scan_batch (skip_of e) batch (add_entry e st) in
      if skips skipping o
      then skipped
      else if leb max_keys st.count
      then (record { progress = st; skipping = []; consumed_all = false })
      else emitted

abbrev pub batch_size : ℕ
batch_size = 1000

abbrev pub last_key : List ObjectMeta → Bytes
last_key [] = []
last_key (o ∷ []) = o.key
last_key (_ ∷ o ∷ os) = last_key (o ∷ os)

-- What one round of the outer loop decides: stop, or query again from a cursor.
abbrev pub next_cursor : ℕ → List ObjectMeta → Scan → Option Cursor
next_cursor limit batch s =
    if s.consumed_all
    then (if non_empty s.skipping
        then Option.map (λ ub. record { lower = ub; inclusive = true })
            (prefix_upper_bound s.skipping)
        else if ltb (length batch) limit
        then none
        else some (record { lower = last_key batch; inclusive = false }))
    else none

module _ (t : Table) (b : ℕ) (prefix delimiter : Bytes) (max_keys limit : ℕ) where
  -- The outer loop, `limit` being the batch size: each round adds an entry, so `max_keys` rounds
  -- are enough.
  unfoldable pub list_loop : ℕ → Cursor → Progress → Progress
  list_loop zero c st = st
  list_loop (suc fuel) c st =
      let batch = list_batch t b prefix c limit in
      let s = scan_batch prefix delimiter max_keys [] batch st in
      if ltb st.count max_keys && not (leb (length batch) 0)
      then elim (next_cursor limit batch s) [
        | none ↦ s.progress
        | some c' ↦ list_loop fuel c' s.progress
      ]
      else st

-- A marker that is itself a common prefix.
abbrev pub is_prefix_marker : Bytes → Bytes → Bytes → Bool
is_prefix_marker prefix marker delimiter =
    non_empty delimiter
    && (non_empty marker && (has_suffix marker delimiter && has_prefix marker prefix))

-- Where the first query starts; `none` where nothing can follow the marker.
unfoldable pub start_cursor : Bytes → Bytes → Bytes → Option Cursor
start_cursor prefix marker delimiter =
    if is_prefix_marker prefix marker delimiter
    then Option.map (λ ub. record { lower = ub; inclusive = true }) (prefix_upper_bound marker)
    else some (record { lower = marker; inclusive = false })

abbrev pub last_prefix_is : Bytes → List Bytes → Bool
last_prefix_is e [] = false
last_prefix_is e (p ∷ []) = bytes_eq p e
last_prefix_is e (_ ∷ p ∷ ps) = last_prefix_is e (p ∷ ps)

-- Where the probe for a further entry starts; `none` where nothing can follow.
abbrev pub probe_cursor : Progress → Option Cursor
probe_cursor st =
    if last_prefix_is st.last_entry st.common_prefixes
    then Option.map (λ ub. record { lower = ub; inclusive = true })
        (prefix_upper_bound st.last_entry)
    else some (record { lower = st.last_entry; inclusive = false })

-- `len(more) > 0` for a query of one row
abbrev pub has_row : Table → ℕ → Bytes → Option Cursor → Bool
has_row t b prefix none = false
has_row t b prefix (some c) = not (leb (length (list_batch t b prefix c 1)) 0)

unfoldable pub truncated : Table → ℕ → Bytes → ℕ → Cursor → Progress → Bool
truncated t b prefix max_keys c st =
    if max_keys == 0
    then has_row t b prefix (some c)
    else if leb max_keys st.count && non_empty st.last_entry
    then has_row t b prefix (probe_cursor st)
    else false

pub record ListResult : Type 0 where
  pub objects : List ObjectMeta
  pub common_prefixes : List Bytes
  pub is_truncated : Bool
  pub next_marker : Bytes

abbrev pub no_progress : Progress
no_progress = record { objects = []; common_prefixes = []; count = 0; last_entry = [] }

abbrev pub finish : Progress → Bool → ListResult
finish st more = record {
  objects = st.objects;
  common_prefixes = st.common_prefixes;
  is_truncated = more;
  next_marker = if more then st.last_entry else [];
}

abbrev pub list_from : Table → ℕ → Bytes → Bytes → ℕ → Option Cursor → ListResult
list_from t b prefix delimiter max_keys none = finish no_progress false
list_from t b prefix delimiter max_keys (some c) =
    let st = list_loop t b prefix delimiter max_keys batch_size max_keys c no_progress in
    finish st (truncated t b prefix max_keys c st)

unfoldable pub list_objects_meta : Table → ℕ → Bytes → Bytes → Bytes → ℕ → ListResult
list_objects_meta t b prefix marker delimiter max_keys =
    list_from t b prefix delimiter max_keys (start_cursor prefix marker delimiter)
