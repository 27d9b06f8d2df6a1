-- ===== src/Webdav/Limiter/Entries.antt =====
-- Lookups after changes of the map.
use cloodsy_s.Prelude.{lookup, ℕ, ◌≡◌, inl, inr, ltb, true, none, some, length, Bytes, Bool-cases}
use cloodsy_s.Prelude.{lookup-keep, lookup-keep-none}
use cloodsy_s.Webdav.Limiter.{FailEntry, Limiter, is_informative, prune}

pub lookup-prune-none :
    (now : ℕ) (ip : Bytes) (l : Limiter) → lookup ip l ≡ none → lookup ip (prune now l) ≡ none
unfolding prune
lookup-prune-none now ip l h = elim (Bool-cases (ltb (length l) 4096)) [
  | inl few ↦ rw few h
  | inr many ↦ rw many (lookup-keep-none (is_informative now) ip l h)
]

pub lookup-prune :
    (now : ℕ) (ip : Bytes) (l : Limiter) (e : FailEntry)
    → lookup ip l ≡ some e
    → is_informative now (ip, e) ≡ true
    → lookup ip (prune now l) ≡ some e
unfolding prune
lookup-prune now ip l e h k = elim (Bool-cases (ltb (length l) 4096)) [
  | inl few ↦ rw few h
  | inr many ↦ rw many (lookup-keep (is_informative now) ip l e h k)
]
