-- ===== src/Webdav/Limiter.antt =====
-- webdav/auth.go: the limiter of failed logins. The map is an association list with one entry for an
-- address; times are nanoseconds, the zero time is 0, and the clock is an argument.
pub mod Entries
pub mod Streak
pub mod Locks
use cloodsy_s.Prelude.{
  lookup, insert_at, ℕ, ◌+◌, ◌-◌, ◌*◌, ltb, leb, Bool, not, ◌&&◌, Option, none, some, List, [], ◌∷◌,
  keep, length, Bytes, bytes_eq, if◌then◌else◌,
}

abbrev pub auth_max_failures : ℕ
auth_max_failures = 5

abbrev pub auth_lock_for : ℕ
auth_lock_for = 900000000000

pub record FailEntry : Type 0 where
  pub fails : ℕ
  pub locked_until : ℕ
  pub last : ℕ

abbrev pub Limiter : Type 0
Limiter = List (Bytes × FailEntry)

abbrev pub remaining_lock : ℕ → Option FailEntry → Option ℕ
remaining_lock now none = none
remaining_lock now (some e) = if ltb now e.locked_until then some (e.locked_until - now) else none

-- How much longer the address is locked out.
unfoldable pub blocked : ℕ → Bytes → Limiter → Option ℕ
blocked now ip l = remaining_lock now (lookup ip l)

abbrev pub is_stale : ℕ → FailEntry → Bool
is_stale now e = ltb (e.last + auth_lock_for) now

-- The entries that `pruneLocked` keeps.
abbrev pub is_informative : ℕ → Bytes × FailEntry → Bool
is_informative now p = not (ltb p.1.locked_until now && is_stale now p.1)

unfoldable pub prune : ℕ → Limiter → Limiter
prune now l = if ltb (length l) 4096 then l else keep (is_informative now) l

abbrev pub or_new : Option FailEntry → FailEntry
or_new none = record { fails = 0; locked_until = 0; last = 0 }
or_new (some e) = e

-- One more failure; enough of them lock the address and start the count again.
unfoldable pub count_failure : ℕ → FailEntry → FailEntry
count_failure now e =
    let fails : ℕ = (if is_stale now e then 0 else e.fails) + 1 in
    if leb auth_max_failures fails
    then (record { fails = 0; locked_until = now + auth_lock_for; last = now })
    else (record { fails = fails; locked_until = e.locked_until; last = now })

unfoldable pub fail : ℕ → Bytes → Limiter → Limiter
fail now ip l =
    let pruned = prune now l in insert_at ip (count_failure now (or_new (lookup ip pruned))) pruned

unfoldable pub reset : Bytes → Limiter → Limiter
reset ip l = keep (λ p. not (bytes_eq p.0 ip)) l
