-- ===== src/Db/Prefix.antt =====
-- Prefix ranges of db/metadata.go: `prefixUpperBound` and the SQL conditions that use it.
pub mod Bounds
use cloodsy_s.Prelude.{
  ◌+◌, Bool, true, ◌&&◌, Option, none, some, [], ◌∷◌, reverse, Bytes, ltb, bytes_lt, bytes_le,
  if◌then◌else◌,
}

-- The loop of `prefixUpperBound`, over the bytes still to scan, last byte first.
bump_last : Bytes → Option Bytes
bump_last [] = none
bump_last (b ∷ before) =
    let rest = bump_last before in if ltb b 255 then some (reverse ((b + 1) ∷ before)) else rest

unfoldable pub prefix_upper_bound : Bytes → Option Bytes
unfolding bump_last
prefix_upper_bound p = bump_last (reverse p)

-- `AND key >= prefix AND key < ub`, with the second condition only where a bound exists; no
-- condition for the empty prefix.
unfoldable pub in_prefix_range : Bytes → Bytes → Bool
in_prefix_range [] key = true
in_prefix_range (b ∷ bs) key = elim (prefix_upper_bound (b ∷ bs)) [
  | none ↦ bytes_le (b ∷ bs) key
  | some ub ↦ bytes_le (b ∷ bs) key && bytes_lt key ub
]
