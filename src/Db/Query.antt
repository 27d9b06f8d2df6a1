-- ===== src/Db/Query.antt =====
-- SQL statements over a table whose rows stand in the order of their ids: the forms that
-- db/metadata.go uses (`ORDER BY id DESC LIMIT 1`, `COUNT(*)`, `UPDATE … WHERE`, `DELETE … WHERE`).
pub mod Laws
use cloodsy_s.Prelude.{
  ℕ, suc, Bool, Option, none, some, List, [], ◌∷◌, map, keep, not, if◌then◌else◌,
}

module _ {ℓ} {A : Type ℓ} where
  abbrev pub or_else : Option A → Option A → Option A
  or_else none b = b
  or_else (some a) b = some a

  -- `SELECT COUNT(*) … WHERE p`
  unfoldable pub count : (A → Bool) → List A → ℕ
  count p [] = 0
  count p (r ∷ rows) = let rest = count p rows in if p r then suc rest else rest

  -- `SELECT … WHERE p ORDER BY id DESC LIMIT 1`
  unfoldable pub last_match : (A → Bool) → List A → Option A
  last_match p [] = none
  last_match p (r ∷ rows) = or_else (last_match p rows) (if p r then some r else none)

  -- `UPDATE … SET f WHERE p`
  unfoldable pub update_where : (A → Bool) → (A → A) → List A → List A
  update_where p f [] = []
  update_where p f (r ∷ rows) = (if p r then f r else r) ∷ update_where p f rows

  -- `DELETE … WHERE p`
  abbrev pub delete_where : (A → Bool) → List A → List A
  delete_where p rows = keep (λ r. not (p r)) rows
