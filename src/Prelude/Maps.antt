-- ===== src/Prelude/Maps.antt =====
-- Go's maps from strings: a list of keys with their values, where the first entry of a key counts.
use mathlib.Core.Path.{◌≡◌, refl, ap}
use mathlib.Core.Logic.{inl, inr}
use mathlib.Core.Bool.{Bool, true, false}
use mathlib.Core.Option.{Option, none, some, some-injective}
use mathlib.Core.List.{List, [], ◌∷◌}
use cloodsy_s.Prelude.Tests.{if◌then◌else◌, Bool-cases}
use cloodsy_s.Prelude.Lists.{keep}
use cloodsy_s.Prelude.ByteStrings.{Bytes, bytes_eq, bytes_eq_iff, bytes_eq_refl}

module _ {ℓ} {A : Type ℓ} where
  -- `m[k]`
  unfoldable pub lookup : Bytes → List (Bytes × A) → Option A
  lookup k [] = none
  lookup k ((a, x) ∷ m) = if bytes_eq a k then some x else lookup k m

  -- `m[k] = x`
  unfoldable pub insert_at : Bytes → A → List (Bytes × A) → List (Bytes × A)
  insert_at k x [] = (k, x) ∷ []
  insert_at k x ((a, y) ∷ m) = if bytes_eq a k then (k, x) ∷ m else (a, y) ∷ insert_at k x m

  pub lookup-insert_at :
      (ip : Bytes) (e : A) (l : List (Bytes × A)) → lookup ip (insert_at ip e l) ≡ some e
  unfolding lookup insert_at
  lookup-insert_at ip e [] = rw (bytes_eq_refl ip) refl
  lookup-insert_at ip e ((a, old) ∷ l) = elim (Bool-cases (bytes_eq a ip)) [
    | inl same ↦ rw (same, bytes_eq_refl ip) refl
    | inr other ↦ rw (other, other) (lookup-insert_at ip e l)
  ]

  pub lookup-insert_other :
      (ip other : Bytes) (e : A) (l : List (Bytes × A))
      → bytes_eq other ip ≡ false
      → lookup ip (insert_at other e l) ≡ lookup ip l
  unfolding lookup insert_at
  lookup-insert_other ip other e [] h = rw h refl
  lookup-insert_other ip other e ((a, old) ∷ l) h = elim (Bool-cases (bytes_eq a other)) [
    | inl same ↦ let it = (bytes_eq_iff a other).0 same in rw (same, h, it, h) refl
    | inr away ↦ rw (away) (elim (Bool-cases (bytes_eq a ip)) [
      | inl hit ↦ rw hit refl
      | inr miss ↦ rw miss (lookup-insert_other ip other e l h)
    ])
  ]

  pub lookup-keep :
      (p : Bytes × A → Bool) (ip : Bytes) (l : List (Bytes × A)) (e : A)
      → lookup ip l ≡ some e
      → p (ip, e) ≡ true
      → lookup ip (keep p l) ≡ some e
  unfolding lookup
  lookup-keep p ip [] e h k = cc
  lookup-keep p ip ((a, x) ∷ l) e h k = elim (Bool-cases (bytes_eq a ip)) [
    | inl hit ↦
        let it : x ≡ e = some-injective _ _ (rw hit at h) in
        let who = (bytes_eq_iff a ip).0 hit in
        let kept : p (a, x) ≡ true = rw (who, it) k in rw (kept, hit) (ap some it)
    | inr miss ↦
        let later = lookup-keep p ip l e (rw miss at h) k in
        elim (Bool-cases (p (a, x))) [ inl kept ↦ rw (kept, miss) later | inr gone ↦ rw gone later ]
  ]

  pub lookup-keep-none :
      (p : Bytes × A → Bool) (ip : Bytes) (l : List (Bytes × A))
      → lookup ip l ≡ none
      → lookup ip (keep p l) ≡ none
  unfolding lookup
  lookup-keep-none p ip [] h = refl
  lookup-keep-none p ip ((a, x) ∷ l) h = elim (Bool-cases (bytes_eq a ip)) [
    | inl hit ↦ let no : some x ≡ none = rw hit at h in cc
    | inr miss ↦
        let later = lookup-keep-none p ip l (rw miss at h) in
        elim (Bool-cases (p (a, x))) [ inl kept ↦ rw (kept, miss) later | inr gone ↦ rw gone later ]
  ]
