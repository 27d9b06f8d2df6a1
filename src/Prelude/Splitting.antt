-- ===== src/Prelude/Splitting.antt =====
-- Laws of splitting and joining: they are inverse to each other.
use Prim.Native.Nat.{ℕ}
use mathlib.Core.Path.{◌≡◌, refl, sym, ap, ◌∙◌}
use mathlib.Core.Option
use mathlib.Core.Option.{none, some, some-injective}
use mathlib.Core.Bool.{false}
use mathlib.Core.Logic.{inl, inr, ◌≢◌}
use mathlib.Core.List.{List, [], ◌∷◌, ◌++◌, cons-ne-nil}
use native.Mathlib.Omega.{arith}
use cloodsy_s.Prelude.Tests.{◌==◌, Bool-cases, ==_iff}
use cloodsy_s.Prelude.Lists.{All}
use cloodsy_s.Prelude.ByteStrings.{Bytes}
use cloodsy_s.Prelude.Text.{contains_byte, cons_head, split_on, join_with, cut_byte}

-- Parts without the separator.
abbrev pub Lacks : ℕ → Bytes → Type 0
Lacks c p = contains_byte c p ≡ false

cons_head-ne-nil : (x : ℕ) (ps : List Bytes) → cons_head x ps ≢ []
cons_head-ne-nil x [] = cons-ne-nil _ _
cons_head-ne-nil x (p ∷ ps) = cons-ne-nil _ _

pub split_on-ne-nil : (c : ℕ) (s : Bytes) → split_on c s ≢ []
unfolding split_on
split_on-ne-nil c [] = cons-ne-nil [] []
split_on-ne-nil c (x ∷ s) = elim (Bool-cases (x == c)) [
  | inl e ↦ rw e (cons-ne-nil [] (split_on c s))
  | inr e ↦ rw e (cons_head-ne-nil x (split_on c s))
]

join_with-cons_head :
    (c x : ℕ) (ps : List Bytes) → ps ≢ [] → join_with c (cons_head x ps) ≡ x ∷ join_with c ps
unfolding join_with
join_with-cons_head c x [] h = absurd (h refl)
join_with-cons_head c x (p ∷ []) h = refl
join_with-cons_head c x (p ∷ q ∷ ps) h = refl

join_with-nil_cons :
    (c : ℕ) (ps : List Bytes) → ps ≢ [] → join_with c ([] ∷ ps) ≡ c ∷ join_with c ps
unfolding join_with
join_with-nil_cons c [] h = absurd (h refl)
join_with-nil_cons c (p ∷ ps) h = refl

pub join_with-split_on : (c : ℕ) (s : Bytes) → join_with c (split_on c s) ≡ s
unfolding split_on
join_with-split_on c [] = unfold join_with in refl
join_with-split_on c (x ∷ s) = elim (Bool-cases (x == c)) [
  | inl e ↦ rw e (
      join_with-nil_cons c (split_on c s) (split_on-ne-nil c s)
      ∙ ap (λ r. c ∷ r) (join_with-split_on c s)
      ∙ ap (λ y. y ∷ s) (sym ((==_iff x c).0 e)))
  | inr e ↦ rw e (
      join_with-cons_head c x (split_on c s) (split_on-ne-nil c s)
      ∙ ap (λ r. x ∷ r) (join_with-split_on c s))
]

All-cons_head :
    (c x : ℕ) (ps : List Bytes)
    → (x == c) ≡ false
    → All (Lacks c) ps
    → All (Lacks c) (cons_head x ps)
unfolding contains_byte
All-cons_head c x [] e h = ground arith
All-cons_head c x (p ∷ ps) e (k, h) = (ground arith, h)

pub All-split_on : (c : ℕ) (s : Bytes) → All (Lacks c) (split_on c s)
unfolding split_on
All-split_on c [] = unfold contains_byte in (refl, tt)
All-split_on c (x ∷ s) = elim (Bool-cases (x == c)) [
  | inl e ↦ rw e (unfold contains_byte in refl, All-split_on c s)
  | inr e ↦ rw e (All-cons_head c x (split_on c s) e (All-split_on c s))
]

split_on-Lacks : (c : ℕ) (p : Bytes) → Lacks c p → split_on c p ≡ p ∷ []
unfolding split_on contains_byte
split_on-Lacks c [] h = refl
split_on-Lacks c (x ∷ p) h = ground (arith, split_on-Lacks c p)

split_on-append : (c : ℕ) (p s : Bytes) → Lacks c p → split_on c (p ++ (c ∷ s)) ≡ p ∷ split_on c s
unfolding split_on contains_byte
split_on-append c [] s h = let e = (==_iff c c).1 refl in rw e
split_on-append c (x ∷ p) s h =
    let e : (x == c) ≡ false = ground arith in rw (e, split_on-append c p s (ground arith))

pub split_on-join_with :
    (c : ℕ) (p : Bytes) (ps : List Bytes)
    → All (Lacks c) (p ∷ ps)
    → split_on c (join_with c (p ∷ ps)) ≡ p ∷ ps
unfolding join_with
split_on-join_with c p [] (h, k) = split_on-Lacks c p h
split_on-join_with c p (q ∷ ps) (h, k) =
    split_on-append c p (join_with c (q ∷ ps)) h ∙ ap (λ r. p ∷ r) (split_on-join_with c q ps k)

pub cut_byte-none : (c : ℕ) (s : Bytes) → cut_byte c s ≡ none → Lacks c s
unfolding cut_byte contains_byte
cut_byte-none c [] h = refl
cut_byte-none c (x ∷ s) h = elim (Bool-cases (x == c)) [
  | inl e ↦ let h' = rw e at h in cc
  | inr e ↦ let h' = rw e at h in rw e (cut_byte-none c s ((Option.map-eq-none_iff _ _).0 h'))
]

-- The first part lacks the byte, and the parts around it make up the string.
pub cut_byte_sound :
    (c : ℕ) (s : Bytes) (p : Bytes × Bytes)
    → cut_byte c s ≡ some p
    → (s ≡ p.0 ++ (c ∷ p.1)) × Lacks c p.0
unfolding cut_byte contains_byte
cut_byte_sound c [] p h = cc
cut_byte_sound c (x ∷ s) p h = elim (Bool-cases (x == c)) [
  | inl e ↦
      let h' = rw e at h in
      let same = (==_iff x c).0 e in
      let at : ([], s) ≡ p = some-injective _ _ h' in rw (← at, same) (refl, refl)
  | inr e ↦
      let (q, found, at) = (Option.map-eq-some_iff _ _).0 (rw e at h) in
      let (whole, lacks) = cut_byte_sound c s q found in rw (← at, e) (ap (λ r. x ∷ r) whole, lacks)
]
