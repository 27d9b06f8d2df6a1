-- ===== src/Db/Listing/Cursors.antt =====
-- The cursor that follows a batch.
use cloodsy_s.Prelude.{
  ℕ, ◌<◌, ◌≡◌, refl, ap, true, none, List, [], ◌∷◌, ◌++◌, length, arith, Bytes, ltb, non_empty,
  Bool-cases, Option-cases, inl, inr, ◌⊎◌,
}
use cloodsy_s.Db.Objects.{ObjectMeta}
use cloodsy_s.Db.Listing.{
  Entry, object, common, entry_of, skip_of, skips, Scan, common_prefix, last_key, next_cursor,
}
use cloodsy_s.Db.Listing.Entries.{last_of, roll_up}
use cloodsy_s.Db.Listing.Common.{entry_of-none, entry_of-some, common_prefix-non_empty}
use cloodsy_s.Db.Listing.Resume.{behind, roll_up-skip, roll_up-emit}

-- An object entry is that of the last key; nothing is asked of a common prefix.
abbrev pub EndsAt : Entry → Bytes → Type 0
EndsAt (object o) k = o.key ≡ k
EndsAt (common cp) k = Unit

-- A common prefix is never empty.
abbrev pub IsProper : Entry → Type 0
IsProper (object o) = Unit
IsProper (common cp) = non_empty cp ≡ true

EndsAt-skips : (e : Entry) (o : ObjectMeta) (k : Bytes) → skips (skip_of e) o ≡ true → EndsAt e k
EndsAt-skips (object o') o k h = cc
EndsAt-skips (common cp) o k h = tt

pub init_last :
    (e : Entry) (es : List Entry) → (init : List Entry) × (e ∷ es ≡ init ++ last_of e es ∷ [])
init_last e [] = ([], refl)
init_last e (x ∷ es) = let (init, h) = init_last x es in (e ∷ init, ap (λ r. e ∷ r) h)

module _ (prefix delimiter : Bytes) where
  abbrev entries : Bytes → List ObjectMeta → List Entry
  entries skipping rows = roll_up prefix delimiter skipping rows

  abbrev entry : ObjectMeta → Entry
  entry o = entry_of prefix delimiter o

  pub entry-EndsAt : (o : ObjectMeta) → EndsAt (entry o) o.key
  entry-EndsAt o = elim (Option-cases (common_prefix prefix delimiter o.key)) [
    | inl e ↦ rw (entry_of-none prefix delimiter o e) refl
    | inr (cp, e) ↦ rw (entry_of-some prefix delimiter o cp e) tt
  ]

  pub entry-IsProper : (o : ObjectMeta) → IsProper (entry o)
  entry-IsProper o = elim (Option-cases (common_prefix prefix delimiter o.key)) [
    | inl e ↦ rw (entry_of-none prefix delimiter o e) tt
    | inr (cp, e) ↦
        rw (entry_of-some prefix delimiter o cp e)
          (common_prefix-non_empty prefix delimiter o.key cp e)
  ]

  pub last_of-EndsAt :
      (e : Entry) (o : ObjectMeta) (batch : List ObjectMeta)
      → EndsAt e o.key
      → EndsAt (last_of e (entries (skip_of e) batch)) (last_key (o ∷ batch))
  last_of-EndsAt e o [] h = unfold roll_up in h
  last_of-EndsAt e o (x ∷ batch) h = elim (Bool-cases (skips (skip_of e) x)) [
    | inl skipped ↦
        rw (roll_up-skip prefix delimiter (skip_of e) x batch skipped)
          (last_of-EndsAt e x batch (EndsAt-skips e x x.key skipped))
    | inr emitted ↦
        rw (roll_up-emit prefix delimiter (skip_of e) x batch emitted)
          (last_of-EndsAt (entry x) x batch (entry-EndsAt x))
  ]

  pub last_of-IsProper :
      (e : Entry) (batch : List ObjectMeta)
      → IsProper e
      → IsProper (last_of e (entries (skip_of e) batch))
  last_of-IsProper e [] h = unfold roll_up in h
  last_of-IsProper e (x ∷ batch) h = elim (Bool-cases (skips (skip_of e) x)) [
    | inl skipped ↦
        rw (roll_up-skip prefix delimiter (skip_of e) x batch skipped) (last_of-IsProper e batch h)
    | inr emitted ↦
        rw (roll_up-emit prefix delimiter (skip_of e) x batch emitted)
          (last_of-IsProper (entry x) batch (entry-IsProper x))
  ]

-- After a consumed batch the next query starts behind the last entry, unless that is an object and
-- the batch was short.
pub next_cursor-behind :
    (limit : ℕ) (batch : List ObjectMeta) (s : Scan) (e : Entry)
    → s.consumed_all ≡ true
    → s.skipping ≡ skip_of e
    → EndsAt e (last_key batch)
    → IsProper e
    → (next_cursor limit batch s ≡ behind e)
      ⊎ ((next_cursor limit batch s ≡ none) × (length batch < limit))
next_cursor-behind limit batch s (object o) c k at p =
    elim (Bool-cases (ltb (length batch) limit)) [
      | inl short ↦ inr (rw (c, k, short), ground arith)
      | inr full ↦ inl (rw (c, k, full, at))
    ]
next_cursor-behind limit batch s (common cp) c k at p = inl (rw (c, k, p))
