-- ===== src/Webdav/Limiter/Streak.antt =====
-- Failures in a row lock an address.
use cloodsy_s.Prelude.{
  lookup, ℕ, zero, suc, ◌+◌, ◌-◌, ◌≤◌, ◌<◌, ◌≡◌, inl, inr, refl, sym, not, bytes_eq_no, lookup-keep,
  true, false, none, some, List, [], ◌∷◌, Bytes, bytes_eq, bytes_eq_iff, arith, if◌then◌else◌,
  Bool-cases,
}
use cloodsy_s.Prelude.{lookup-insert_at, lookup-insert_other}
use cloodsy_s.Webdav.Limiter.{
  auth_max_failures, auth_lock_for, FailEntry, Limiter, blocked, is_stale, is_informative, prune,
  or_new, count_failure, fail, reset,
}
use cloodsy_s.Webdav.Limiter.Entries.{lookup-prune, lookup-prune-none}

-- What logins do to the limiter: a failure at a time, or a success, of an address.
pub data LoginEvent : Type 0 where
  fails : ℕ → Bytes → LoginEvent
  succeeds : Bytes → LoginEvent

unfoldable pub apply_all : List LoginEvent → Limiter → Limiter
apply_all [] l = l
apply_all (fails now ip ∷ events) l = apply_all events (fail now ip l)
apply_all (succeeds ip ∷ events) l = apply_all events (reset ip l)

-- After a failure of the address at `last`, so many more of it follow, the last of them at the end,
-- none later than the lock's time after the one before; other addresses fail or succeed in between.
unfoldable pub Streak : Bytes → ℕ → ℕ → ℕ → List LoginEvent → Type 0
Streak ip last zero end [] = last ≡ end
Streak ip last zero end (_ ∷ _) = ⊥
Streak ip last (suc n) end [] = ⊥
Streak ip last (suc n) end (fails now other ∷ events) =
    (last ≤ now)
    × (now ≤ last + auth_lock_for)
    × (if bytes_eq other ip then Streak ip now n end events else Streak ip last (suc n) end events)
Streak ip last (suc n) end (succeeds other ∷ events) =
    (bytes_eq other ip ≡ false) × Streak ip last (suc n) end events

lookup-reset_other :
    (ip other : Bytes) (l : Limiter) (e : FailEntry)
    → bytes_eq other ip ≡ false
    → lookup ip l ≡ some e
    → lookup ip (reset other l) ≡ some e
unfolding reset
lookup-reset_other ip other l e away h = elim (Bool-cases (bytes_eq ip other)) [
  | inl same ↦ absurd (bytes_eq_no other ip away (sym ((bytes_eq_iff ip other).0 same)))
  | inr apart ↦ lookup-keep (λ p. not (bytes_eq p.0 other)) ip l e h (rw apart refl)
]

lookup-fail :
    (now : ℕ) (ip : Bytes) (l : Limiter) (e : FailEntry)
    → lookup ip l ≡ some e
    → is_stale now e ≡ false
    → lookup ip (fail now ip l) ≡ some (count_failure now e)
unfolding fail
lookup-fail now ip l e h k =
    let kept : is_informative now (ip, e) ≡ true = ground arith in
    let pruned = lookup-prune now ip l e h kept in
    rw
      (
        lookup-insert_at ip (count_failure now (or_new (lookup ip (prune now l)))) (prune now l),
        pruned,
      )
      refl

lookup-fail_other :
    (now : ℕ) (ip other : Bytes) (l : Limiter) (e : FailEntry)
    → bytes_eq other ip ≡ false
    → lookup ip l ≡ some e
    → is_stale now e ≡ false
    → lookup ip (fail now other l) ≡ some e
unfolding fail
lookup-fail_other now ip other l e away h k =
    let kept : is_informative now (ip, e) ≡ true = ground arith in
    rw
      (lookup-insert_other ip other (count_failure now (or_new (lookup other (prune now l))))
        (prune now l) away)
      (lookup-prune now ip l e h kept)

lookup-fail_first :
    (now : ℕ) (ip : Bytes) (l : Limiter)
    → lookup ip l ≡ none
    → lookup ip (fail now ip l) ≡ some (record { fails = 1; locked_until = 0; last = now })
unfolding fail count_failure
lookup-fail_first now ip l h =
    rw
      (
        lookup-insert_at ip (count_failure now (or_new (lookup ip (prune now l)))) (prune now l),
        lookup-prune-none now ip l h,
      )
      (ground arith)

locks :
    (now : ℕ) (e : FailEntry)
    → is_stale now e ≡ false
    → e.fails + 1 ≡ auth_max_failures
    → (count_failure now e).locked_until ≡ now + auth_lock_for
unfolding count_failure
locks now e h c = ground arith

counts :
    (now m : ℕ) (e : FailEntry)
    → is_stale now e ≡ false
    → e.fails + suc (suc m) ≡ auth_max_failures
    → ((count_failure now e).last ≡ now) × ((count_failure now e).fails + suc m ≡ auth_max_failures)
unfolding count_failure
counts now m e h c = ground arith

-- The entry counts the failures so far.
counted :
    (ip : Bytes) (n last end : ℕ) (events : List LoginEvent) (l : Limiter) (e : FailEntry)
    → lookup ip l ≡ some e
    → e.last ≡ last
    → e.fails + suc n ≡ auth_max_failures
    → Streak ip last (suc n) end events
    → (e' : FailEntry) × (lookup ip (apply_all events l) ≡ some e')
      × (e'.locked_until ≡ end + auth_lock_for)
unfolding Streak apply_all
counted ip n last end [] l e h t c s = elim s [ ]
counted ip n last end (succeeds other ∷ events) l e h t c (away, rest) =
    counted ip n last end events (reset other l) e (lookup-reset_other ip other l e away h) t c rest
counted ip zero last end (fails now other ∷ []) l e h t c (after, soon, rest) =
    let fresh : is_stale now e ≡ false = ground arith in
    elim (Bool-cases (bytes_eq other ip)) [
      | inr away ↦ elim (rw away at rest) [ ]
      | inl same ↦
          let who : other ≡ ip = (bytes_eq_iff other ip).0 same in
          let done : now ≡ end = rw same at rest in
          (
            count_failure now e,
            rw who (lookup-fail now ip l e h fresh),
            rw (← done) (locks now e fresh c),
          )
    ]
counted ip zero last end (fails now other ∷ event ∷ events) l e h t c (after, soon, rest) =
    let fresh : is_stale now e ≡ false = ground arith in
    elim (Bool-cases (bytes_eq other ip)) [
      | inr away ↦
          counted ip zero last end (event ∷ events) (fail now other l) e
            (lookup-fail_other now ip other l e away h fresh) t c (rw away at rest)
      | inl same ↦ let no : ⊥ = rw same at rest in elim no [ ]
    ]
counted ip (suc m) last end (fails now other ∷ events) l e h t c (after, soon, rest) =
    let fresh : is_stale now e ≡ false = ground arith in
    elim (Bool-cases (bytes_eq other ip)) [
      | inr away ↦
          counted ip (suc m) last end events (fail now other l) e
            (lookup-fail_other now ip other l e away h fresh) t c (rw away at rest)
      | inl same ↦
          let who : other ≡ ip = (bytes_eq_iff other ip).0 same in
          let (at_now, more) = counts now m e fresh c in
          counted ip m now end events (fail now other l) (count_failure now e)
            (rw who (lookup-fail now ip l e h fresh)) at_now more (rw same at rest)
    ]

-- An address without a record that fails five times, each time at most 15 minutes after the time
-- before, and with none of its own successes and any failures and successes of other addresses in
-- between, is locked out at every moment of the 15 minutes
-- after the fifth failure.
pub apply_all-blocked :
    (ip : Bytes) (first end now : ℕ) (events : List LoginEvent) (l : Limiter)
    → lookup ip l ≡ none
    → Streak ip first 4 end events
    → now < end + auth_lock_for
    → blocked now ip (apply_all (fails first ip ∷ events) l) ≡ some (end + auth_lock_for - now)
unfolding blocked apply_all
apply_all-blocked ip first end now events l h s soon =
    let (e, found, locked) =
      counted ip 3 first end events (fail first ip l)
        (record { fails = 1; locked_until = 0; last = first }) (lookup-fail_first first ip l h) refl
        refl s in
    rw (found, locked) (ground arith)
