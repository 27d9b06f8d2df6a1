-- ===== src/Db/Prefix/Bounds.antt =====
-- The range that `prefixUpperBound` closes holds exactly the keys with the prefix.
use mathlib.Core.List.{reverse-cons, reverse-append}
use cloodsy_s.Prelude.{
  ℕ, ◌+◌, ◌<◌, ◌≡◌, refl, sym, Bool, false, ◌&&◌, Option, none, some, [], ◌∷◌, ◌++◌, arith, Bytes,
  IsBytes, ltb, bytes_lt, bytes_le, has_prefix, if◌then◌else◌,
}
use cloodsy_s.Db.Prefix.{bump_last, prefix_upper_bound, in_prefix_range}

-- One more byte in front of a bound.
abbrev cons_bound : ℕ → Option Bytes → Option Bytes
cons_bound b (some r) = some (b ∷ r)
cons_bound b none = if ltb b 255 then some ((b + 1) ∷ []) else none

-- The bound by recursion from the front.
front_bound : Bytes → Option Bytes
front_bound [] = none
front_bound (b ∷ bs) = cons_bound b (front_bound bs)

bump_last-append : (xs : Bytes) (y : ℕ) → bump_last (xs ++ y ∷ []) ≡ cons_bound y (bump_last xs)
unfolding bump_last
bump_last-append [] y = refl
bump_last-append (x ∷ xs) y =
    ground (arith, bump_last-append xs y, reverse-append ((x + 1) ∷ xs) (y ∷ []))

prefix_upper_bound-eq-front : (p : Bytes) → prefix_upper_bound p ≡ front_bound p
unfolding prefix_upper_bound front_bound
prefix_upper_bound-eq-front [] = refl
prefix_upper_bound-eq-front (b ∷ bs) =
    rw (reverse-cons, bump_last-append, prefix_upper_bound-eq-front bs)

abbrev pub bounded : Bytes → Bytes → Option Bytes → Bool
bounded p key none = bytes_le p key
bounded p key (some ub) = bytes_le p key && bytes_lt key ub

bytes_lt-nil : (s : Bytes) → bytes_lt s [] ≡ false
unfolding bytes_lt
bytes_lt-nil [] = refl
bytes_lt-nil (x ∷ xs) = refl

bounded_step :
    (b x : ℕ) (bs xs : Bytes) (o : Option Bytes)
    → x < 256
    → bounded bs xs o ≡ has_prefix xs bs
    → bounded (b ∷ bs) (x ∷ xs) (cons_bound b o) ≡ has_prefix (x ∷ xs) (b ∷ bs)
unfolding bytes_lt has_prefix
bounded_step b x bs xs none h e = ground (arith, bytes_lt-nil xs)
bounded_step b x bs xs (some r) h e = ground arith

bounded-front_bound :
    (p key : Bytes) → IsBytes key → bounded p key (front_bound p) ≡ has_prefix key p
unfolding front_bound bytes_lt has_prefix
bounded-front_bound [] [] h = refl
bounded-front_bound [] (x ∷ xs) h = refl
bounded-front_bound (b ∷ bs) [] h = ground arith
bounded-front_bound (b ∷ bs) (x ∷ xs) h =
    bounded_step b x bs xs (front_bound bs) h.0 (bounded-front_bound bs xs h.1)

pub has_prefix-eq-bounded :
    (p key : Bytes) → IsBytes key → has_prefix key p ≡ bounded p key (prefix_upper_bound p)
has_prefix-eq-bounded p key h =
    rw (prefix_upper_bound-eq-front p) (sym (bounded-front_bound p key h))

-- For every prefix and every key of bytes, the SQL range condition built with `prefixUpperBound`
-- holds exactly when the key starts with the prefix, also where no upper bound exists.
pub in_prefix_range-eq-has_prefix :
    (p key : Bytes) → IsBytes key → in_prefix_range p key ≡ has_prefix key p
unfolding in_prefix_range has_prefix
in_prefix_range-eq-has_prefix [] [] h = refl
in_prefix_range-eq-has_prefix [] (x ∷ xs) h = refl
in_prefix_range-eq-has_prefix (b ∷ bs) key h =
    ground (arith, prefix_upper_bound-eq-front (b ∷ bs), bounded-front_bound (b ∷ bs) key h)
