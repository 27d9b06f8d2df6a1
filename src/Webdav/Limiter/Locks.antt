-- ===== src/Webdav/Limiter/Locks.antt =====
-- Lockouts end.
use mathlib.Core.Option.{some-injective}
use cloodsy_s.Prelude.{
  lookup, insert_at, ℕ, ◌+◌, ◌≤◌, ◌<◌, ◌≡◌, inl, inr, ltb, not, none, some, [], ◌∷◌, length, All,
  All-keep, All-map, Bytes, bytes_eq, arith, Bool-cases, Option-cases,
}
use cloodsy_s.Webdav.Limiter.{
  auth_lock_for, FailEntry, Limiter, remaining_lock, blocked, is_informative, prune, or_new,
  count_failure, fail, reset,
}

-- The limiters that failures, successes and the passing of time lead to, with the time of the last of
-- these.
pub data Reach : Limiter → ℕ → Type 0 where
  start : Reach [] 0
  failed :
      {l : Limiter} {t now : ℕ} → Reach l t → t ≤ now → (ip : Bytes) → Reach (fail now ip l) now
  succeeded :
      {l : Limiter} {t now : ℕ} → Reach l t → t ≤ now → (ip : Bytes) → Reach (reset ip l) now

abbrev Within : ℕ → Bytes × FailEntry → Type 0
Within t p = p.1.locked_until ≤ t + auth_lock_for

Within-lookup :
    (t : ℕ) (ip : Bytes) (l : Limiter) (e : FailEntry)
    → All (Within t) l
    → lookup ip l ≡ some e
    → e.locked_until ≤ t + auth_lock_for
unfolding lookup
Within-lookup t ip [] e k h = cc
Within-lookup t ip ((a, x) ∷ l) e (here, later) h = elim (Bool-cases (bytes_eq a ip)) [
  | inl hit ↦ let it : x ≡ e = some-injective _ _ (rw hit at h) in rw (← it) here
  | inr miss ↦ Within-lookup t ip l e later (rw miss at h)
]

Within-insert_at :
    (t : ℕ) (ip : Bytes) (e : FailEntry) (l : Limiter)
    → e.locked_until ≤ t + auth_lock_for
    → All (Within t) l
    → All (Within t) (insert_at ip e l)
unfolding insert_at
Within-insert_at t ip e [] h k = (h, tt)
Within-insert_at t ip e ((a, x) ∷ l) h (here, later) = elim (Bool-cases (bytes_eq a ip)) [
  | inl hit ↦ rw hit (h, later)
  | inr miss ↦ rw miss (here, Within-insert_at t ip e l h later)
]

Within-prune : (t now : ℕ) (l : Limiter) → All (Within t) l → All (Within t) (prune now l)
unfolding prune
Within-prune t now l k = elim (Bool-cases (ltb (length l) 4096)) [
  | inl few ↦ rw few k
  | inr many ↦ rw many (All-keep (Within t) (is_informative now) l k)
]

or_new-Within :
    (t : ℕ) (ip : Bytes) (l : Limiter)
    → All (Within t) l
    → (or_new (lookup ip l)).locked_until ≤ t + auth_lock_for
or_new-Within t ip l k = elim (Option-cases (lookup ip l)) [
  | inl e ↦ rw e (omega arith)
  | inr (x, e) ↦ rw e (Within-lookup t ip l x k e)
]

count_failure-Within :
    (now : ℕ) (e : FailEntry)
    → e.locked_until ≤ now + auth_lock_for
    → (count_failure now e).locked_until ≤ now + auth_lock_for
unfolding count_failure
count_failure-Within now e h = ground arith

Within-later : (t now : ℕ) (l : Limiter) → t ≤ now → All (Within t) l → All (Within now) l
Within-later t now l h k = All-map (Within t) (Within now) l (λ p m. omega arith) k

Reach-Within : {l : Limiter} {t : ℕ} → Reach l t → All (Within t) l
unfolding fail reset
Reach-Within start = tt
Reach-Within (failed {l = l} {t = t} {now = now} r h ip) =
    let k = Within-prune now now l (Within-later t now l h (Reach-Within r)) in
    Within-insert_at now ip (count_failure now (or_new (lookup ip (prune now l)))) (prune now l)
      (count_failure-Within now (or_new (lookup ip (prune now l)))
        (or_new-Within now ip (prune now l) k))
      k
Reach-Within (succeeded {l = l} {t = t} {now = now} r h ip) =
    All-keep (Within now) (λ p. not (bytes_eq p.0 ip)) l (Within-later t now l h (Reach-Within r))

remaining_bound :
    (t now d : ℕ) (e : FailEntry)
    → e.locked_until ≤ t + auth_lock_for
    → t ≤ now
    → remaining_lock now (some e) ≡ some d
    → (0 < d) × (d ≤ auth_lock_for) × (remaining_lock (now + d) (some e) ≡ none)
remaining_bound t now d e k h b = ground arith

-- In every state that the limiter reaches, an address that is locked out is told to wait a time that is
-- not zero and at most 15 minutes, and when it has waited that long it is no longer locked out.
pub Reach-blocked :
    {l : Limiter} {t : ℕ}
    → Reach l t
    → (now : ℕ) (ip : Bytes) (d : ℕ) → t ≤ now
    → blocked now ip l ≡ some d
    → (0 < d) × (d ≤ auth_lock_for) × (blocked (now + d) ip l ≡ none)
unfolding blocked
Reach-blocked {l = l} {t = t} r now ip d h b = elim (Option-cases (lookup ip l)) [
  | inl e ↦ let no : none ≡ some d = rw e at b in cc
  | inr (x, e) ↦
      rw e (remaining_bound t now d x (Within-lookup t ip l x (Reach-Within r) e) h (rw e at b))
]
