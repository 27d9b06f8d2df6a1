-- ===== src/Prelude/Result.antt =====
-- Results that may be an error, in place of Go's pair of a value and an error.
use mathlib.Core.Path.{◌≡◌, refl}
use mathlib.Core.Logic.{◌⊎◌, inl, inr}
use mathlib.Core.Bool.{Bool, true, false, not}
use mathlib.Core.Option.{Option, none, some}

pub data Result {ℓ} (E : Type 0) (A : Type ℓ) : Type ℓ where
  ok : A → Result E A
  err : E → Result E A

module _ {κ} {E : Type 0} {B : Type κ} where
  infixl 5 ◌>>=◌
  -- The first error ends the chain.
  abbrev pub ◌>>=◌ {ℓ} : {A : Type ℓ} → Result E A → (A → Result E B) → Result E B
  err refusal >>= next = err refusal
  ok granted >>= next = next granted

  infixl 5 ◌>>◌
  abbrev pub ◌>>◌ : Result E (Unit {0}) → Result E B → Result E B
  check >> rest = check >>= (λ passed. rest)

-- `if test { return err }`
abbrev pub refuse_if : {E : Type 0} → Bool → E → Result E (Unit {0})
refuse_if true e = err e
refuse_if false e = ok tt

abbrev pub or_refuse {ℓ} : {E : Type 0} {A : Type ℓ} → Option A → E → Result E A
or_refuse none e = err e
or_refuse (some a) e = ok a

-- A chain that grants has a first step that grants.
pub >>=-eq-ok {ℓ κ} :
    {E : Type 0} {A : Type ℓ} {B : Type κ} (first : Result E A) (next : A → Result E B) {end : B}
    → first >>= next ≡ ok end
    → (middle : A) × (first ≡ ok middle) × (next middle ≡ ok end)
>>=-eq-ok (err refusal) next chain = cc
>>=-eq-ok (ok middle) next chain = (middle, refl, chain)

-- Inversion of a guard that was passed.
pub refuse_if-ok {ℓ} :
    {E : Type 0} {B : Type ℓ} (test : Bool) (e : E) (k : Result E B) {b : B}
    → (refuse_if test e >> k) ≡ ok b
    → (test ≡ false) × (k ≡ ok b)
refuse_if-ok true e k h = cc
refuse_if-ok false e k h = (refl, h)

pub or_refuse-ok {ℓ κ} :
    {E : Type 0} {A : Type ℓ} {B : Type κ} (o : Option A) (e : E) (f : A → Result E B) {b : B}
    → (or_refuse o e >>= f) ≡ ok b
    → (a : A) × (o ≡ some a) × (f a ≡ ok b)
or_refuse-ok none e f h = cc
or_refuse-ok (some a) e f h = (a, refl, h)

pub not-false : (b : Bool) → not b ≡ false → b ≡ true
not-false true h = refl
not-false false h = cc

pub not-true : (b : Bool) → not b ≡ true → b ≡ false
not-true true h = cc
not-true false h = refl

-- Inversion of a demand that was met.
pub demand-ok {ℓ} :
    {E : Type 0} {B : Type ℓ} (test : Bool) (e : E) (k : Result E B) {b : B}
    → (refuse_if (not test) e >> k) ≡ ok b
    → (test ≡ true) × (k ≡ ok b)
demand-ok true e k h = (refl, h)
demand-ok false e k h = cc

pub or_refuse-some {ℓ} :
    {E : Type 0} {A : Type ℓ} (o : Option A) (e : E) {a : A} → or_refuse o e ≡ ok a → o ≡ some a
or_refuse-some none e h = cc
or_refuse-some (some a) e h = cc

-- To split on a computed result and keep the equation.
pub Result-cases {ℓ} :
    {E : Type 0} {A : Type ℓ} (x : Result E A) → ((e : E) × (x ≡ err e)) ⊎ ((a : A) × (x ≡ ok a))
Result-cases (err e) = inl (e, refl)
Result-cases (ok a) = inr (a, refl)
