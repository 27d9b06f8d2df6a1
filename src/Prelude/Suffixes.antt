-- ===== src/Prelude/Suffixes.antt =====
-- Laws of `strings.HasSuffix`, and of what an occurrence of a substring ends in.
use Prim.Native.Nat.{ℕ, ◌+◌, ◌-◌}
use mathlib.Core.Path.{◌≡◌, refl, ap}
use mathlib.Core.Bool.{true}
use mathlib.Core.Logic.{inl, inr}
use mathlib.Core.Option.{some}
use mathlib.Core.List.{[], ◌∷◌, ◌++◌, append_assoc}
use native.Mathlib.Omega.{arith}
use native.Mathlib.Nat.{suc-add, zero-add}
use cloodsy_s.Prelude.Tests.{Bool-cases, leb}
use cloodsy_s.Prelude.Lists.{length, take, drop}
use cloodsy_s.Prelude.ListLaws.{length-append}
use cloodsy_s.Prelude.ByteStrings.{Bytes, has_prefix, has_suffix, index_of, bytes_eq_refl}
use cloodsy_s.Prelude.Prefixes.{index_of-cons_absent, index_of-cons_here, index_of_nil}

drop-append : (u d : Bytes) → drop (length u) (u ++ d) ≡ d
drop-append [] d = refl
drop-append (x ∷ u) d = drop-append u d

drop_front : (n : ℕ) (u d : Bytes) → n ≡ length u → drop n (u ++ d) ≡ d
drop_front n u d h = rw h (drop-append u d)

pub has_suffix-append : (u d : Bytes) → has_suffix (u ++ d) d ≡ true
unfolding has_suffix
has_suffix-append u d =
    let long : leb (length d) (length (u ++ d)) ≡ true = ground (arith, length-append u d) in
    let at : length (u ++ d) - length d ≡ length u = omega (arith, length-append u d) in
    rw (long, drop_front (length (u ++ d) - length d) u d at) (bytes_eq_refl d)

has_prefix-take_own : (s d : Bytes) → has_prefix s d ≡ true → take (length d) s ≡ d
unfolding has_prefix
has_prefix-take_own s [] h = refl
has_prefix-take_own [] (c ∷ d) h = cc
has_prefix-take_own (x ∷ s) (c ∷ d) h = ground (arith, has_prefix-take_own s d)

index_of_nil_own :
    (d : Bytes) (i : ℕ) → index_of [] d ≡ some i → take (i + length d) [] ≡ take i [] ++ d
unfolding index_of has_prefix
index_of_nil_own [] i h = rw (index_of_nil i h) refl
index_of_nil_own (c ∷ d) i h = cc

-- Up to the end of its first occurrence a string ends in the substring.
pub take-index_of :
    (s d : Bytes) (i : ℕ) → index_of s d ≡ some i → take (i + length d) s ≡ take i s ++ d
take-index_of [] d i h = index_of_nil_own d i h
take-index_of (x ∷ s) d i h = elim (Bool-cases (has_prefix (x ∷ s) d)) [
  | inl e ↦ rw (index_of-cons_here x i s d e h, zero-add) (has_prefix-take_own (x ∷ s) d e)
  | inr e ↦
      let (j, found, same) = index_of-cons_absent x i s d e h in
      rw (same, suc-add) (ap (λ r. x ∷ r) (take-index_of s d j found))
]

pub has_suffix-index_of :
    (p s d : Bytes) (i : ℕ)
    → index_of s d ≡ some i
    → has_suffix (p ++ take (i + length d) s) d ≡ true
has_suffix-index_of p s d i h =
    rw (take-index_of s d i h, ← append_assoc p (take i s) d) (has_suffix-append (p ++ take i s) d)

pub has_prefix-append_left : (p s : Bytes) → has_prefix (p ++ s) p ≡ true
unfolding has_prefix
has_prefix-append_left [] s = refl
has_prefix-append_left (x ∷ p) s = ground (arith, has_prefix-append_left p s)
