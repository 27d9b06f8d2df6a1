-- ===== src/Prelude/Prefixes.antt =====
-- Laws of `strings.HasPrefix` and `strings.Index`.
use Prim.Native.Nat.{ℕ, zero, suc, ◌+◌, ◌≤◌}
use mathlib.Core.Path.{◌≡◌, refl, ◌∙◌}
use mathlib.Core.Bool.{true, false}
use mathlib.Core.Logic.{inl, inr}
use mathlib.Core.Option
use mathlib.Core.Option.{some, none}
use mathlib.Core.List.{[], ◌∷◌, ◌++◌}
use native.Mathlib.Omega.{arith}
use native.Mathlib.Nat.{suc-add}
use cloodsy_s.Prelude.Tests.{Bool-cases}
use cloodsy_s.Prelude.Lists.{length, take, drop}
use cloodsy_s.Prelude.ByteStrings.{Bytes, has_prefix, index_of}

pub has_prefix-take : (n : ℕ) (s : Bytes) → has_prefix s (take n s) ≡ true
unfolding has_prefix
has_prefix-take zero [] = refl
has_prefix-take zero (x ∷ s) = refl
has_prefix-take (suc n) [] = refl
has_prefix-take (suc n) (x ∷ s) = ground (arith, has_prefix-take n s)

pub has_prefix_refl : (s : Bytes) → has_prefix s s ≡ true
unfolding has_prefix
has_prefix_refl [] = refl
has_prefix_refl (x ∷ s) = ground (arith, has_prefix_refl s)

pub has_prefix-length : (s p : Bytes) → has_prefix s p ≡ true → length p ≤ length s
unfolding has_prefix
has_prefix-length s [] h = omega arith
has_prefix-length [] (p ∷ ps) h = cc
has_prefix-length (x ∷ s) (p ∷ ps) h = ground (arith, has_prefix-length s ps)

pub has_prefix-append_right :
    (s p q : Bytes) → has_prefix s (p ++ q) ≡ true → has_prefix (drop (length p) s) q ≡ true
unfolding has_prefix
has_prefix-append_right s [] q h = h
has_prefix-append_right [] (p ∷ ps) q h = cc
has_prefix-append_right (x ∷ s) (p ∷ ps) q h = ground (arith, has_prefix-append_right s ps q)

pub has_prefix-append :
    (s p q : Bytes)
    → has_prefix s p ≡ true
    → has_prefix (drop (length p) s) q ≡ true
    → has_prefix s (p ++ q) ≡ true
unfolding has_prefix
has_prefix-append s [] q h g = g
has_prefix-append [] (p ∷ ps) q h g = cc
has_prefix-append (x ∷ s) (p ∷ ps) q h g = ground (arith, has_prefix-append s ps q)

-- Strings that share `n` bytes have the same prefixes of at most `n` bytes.
has_prefix-shared :
    (n : ℕ) (s s' d : Bytes)
    → length d ≤ n
    → n ≤ length s
    → has_prefix s' (take n s) ≡ true
    → has_prefix s' d ≡ has_prefix s d
unfolding has_prefix
has_prefix-shared n [] [] [] h k g = refl
has_prefix-shared n [] (y ∷ s') [] h k g = refl
has_prefix-shared n (x ∷ s) [] [] h k g = refl
has_prefix-shared n (x ∷ s) (y ∷ s') [] h k g = refl
has_prefix-shared zero s s' (c ∷ d) h k g = absurd (omega arith)
has_prefix-shared (suc n) [] s' (c ∷ d) h k g = absurd (omega arith)
has_prefix-shared (suc n) (x ∷ s) [] (c ∷ d) h k g = cc
has_prefix-shared (suc n) (x ∷ s) (y ∷ s') (c ∷ d) h k g =
    ground (arith, has_prefix-shared n s s' d)

take-shared :
    (n : ℕ) (s s' : Bytes) → n ≤ length s → has_prefix s' (take n s) ≡ true → take n s' ≡ take n s
unfolding has_prefix
take-shared zero s s' k g = refl
take-shared (suc n) [] s' k g = absurd (omega arith)
take-shared (suc n) (x ∷ s) [] k g = cc
take-shared (suc n) (x ∷ s) (y ∷ s') k g = ground (arith, take-shared n s s')

pub index_of-cons_absent :
    (x i : ℕ) (s d : Bytes)
    → has_prefix (x ∷ s) d ≡ false
    → index_of (x ∷ s) d ≡ some i
    → (j : ℕ) × (index_of s d ≡ some j) × (i ≡ suc j)
unfolding index_of
index_of-cons_absent x i s d e h =
    let (j, found, same) = (Option.map-eq-some_iff suc (index_of s d)).0 (rw e at h) in
    (j, found, omega arith)

pub index_of-cons_here :
    (x i : ℕ) (s d : Bytes) → has_prefix (x ∷ s) d ≡ true → index_of (x ∷ s) d ≡ some i → i ≡ 0
unfolding index_of
index_of-cons_here x i s d e h = ground arith

pub index_of-bound : (s d : Bytes) (i : ℕ) → index_of s d ≡ some i → i + length d ≤ length s
unfolding index_of
index_of-bound [] d i h = ground (arith, has_prefix-length [] d)
index_of-bound (x ∷ s) d i h = elim (Bool-cases (has_prefix (x ∷ s) d)) [
  | inl e ↦ omega (arith, has_prefix-length (x ∷ s) d e, index_of-cons_here x i s d e h)
  | inr e ↦
      let (j, found, same) = index_of-cons_absent x i s d e h in
      omega (arith, index_of-bound s d j found)
]

has_prefix-nil_cons : (x : ℕ) (p : Bytes) → has_prefix [] (x ∷ p) ≡ true → ⊥
unfolding has_prefix
has_prefix-nil_cons x p h = cc

has_prefix-cons_cons :
    (y x : ℕ) (s p : Bytes) → has_prefix (y ∷ s) (x ∷ p) ≡ true → has_prefix s p ≡ true
unfolding has_prefix
has_prefix-cons_cons y x s p h = ground arith

index_of_here : (s d : Bytes) → has_prefix s d ≡ true → index_of s d ≡ some 0
unfolding index_of
index_of_here [] d h = rw h
index_of_here (x ∷ s) d h = rw h

-- The step of `index_of-shared` past a byte.
index_of-shared_step :
    (x j : ℕ) (s s' d : Bytes)
    → has_prefix s' d ≡ false
    → has_prefix s' (take (suc (j + length d)) (x ∷ s)) ≡ true
    → ((u : Bytes) → has_prefix u (take (j + length d) s) ≡ true → index_of u d ≡ some j)
    → index_of s' d ≡ some (suc j)
unfolding index_of
index_of-shared_step x j s [] d e g ih = absurd (has_prefix-nil_cons x (take (j + length d) s) g)
index_of-shared_step x j s (y ∷ s') d e g ih =
    rw (e, ih s' (has_prefix-cons_cons y x s' (take (j + length d) s) g))

-- The first occurrence of `d` is the first occurrence in every string that starts alike.
has_prefix_nil : (s : Bytes) → has_prefix s [] ≡ true
unfolding has_prefix
has_prefix_nil [] = refl
has_prefix_nil (x ∷ s) = refl

pub index_of_nil : (i : ℕ) → index_of [] [] ≡ some i → i ≡ 0
unfolding index_of has_prefix
index_of_nil i h = ground arith

index_of_nil_cons : (c : ℕ) (d : Bytes) (i : ℕ) → index_of [] (c ∷ d) ≡ some i → ⊥
unfolding index_of has_prefix
index_of_nil_cons c d i h = cc

index_of-shared_first :
    (s s' d : Bytes) (i : ℕ)
    → index_of s d ≡ some i
    → has_prefix s' (take (i + length d) s) ≡ true
    → index_of s' d ≡ some i
index_of-shared_first [] s' [] i h g =
    rw (index_of_nil i h) (index_of_here s' [] (has_prefix_nil s'))
index_of-shared_first [] s' (c ∷ d) i h g = absurd (index_of_nil_cons c d i h)
index_of-shared_first (x ∷ s) s' d i h g =
    let same =
      has_prefix-shared (i + length d) (x ∷ s) s' d (omega arith) (index_of-bound (x ∷ s) d i h)
        g in
    elim (Bool-cases (has_prefix (x ∷ s) d)) [
      | inl e ↦ rw (index_of-cons_here x i s d e h) (index_of_here s' d (same ∙ e))
      | inr e ↦
          let (j, found, eq) = index_of-cons_absent x i s d e h in
          rw eq (
            index_of-shared_step x j s s' d (same ∙ e) (rw (eq, suc-add) at g)
              (λ u k. index_of-shared_first s u d j found k))
    ]

-- The first occurrence of `d` is the first occurrence in every string that starts alike.
pub index_of-shared :
    (s s' d : Bytes) (i : ℕ)
    → index_of s d ≡ some i
    → has_prefix s' (take (i + length d) s) ≡ true
    → (index_of s' d ≡ some i) × (take (i + length d) s' ≡ take (i + length d) s)
index_of-shared s s' d i h g =
    (index_of-shared_first s s' d i h g, take-shared (i + length d) s s' (index_of-bound s d i h) g)
