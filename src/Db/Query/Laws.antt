-- ===== src/Db/Query/Laws.antt =====
-- Laws of the SQL forms.
use mathlib.Core.Option
use cloodsy_s.Prelude.{
  ◌≤◌, ◌<◌, ◌+◌, ◌≡◌, refl, Bool, true, not, ◌&&◌, none, some, List, [], ◌∷◌, ◌++◌, arith,
  if◌then◌else◌,
}
use cloodsy_s.Db.Query.{count, last_match, update_where, delete_where}

module _ {ℓ} {A : Type ℓ} where
  pub count_ext :
      (p q : A → Bool) (rows : List A) → ((r : A) → p r ≡ q r) → count p rows ≡ count q rows
  unfolding count
  count_ext p q [] h = refl
  count_ext p q (r ∷ rows) h = ground (arith, h r, count_ext p q rows h)

  pub last_match_ext :
      (p q : A → Bool) (rows : List A)
      → ((r : A) → p r ≡ q r)
      → last_match p rows ≡ last_match q rows
  unfolding last_match
  last_match_ext p q [] h = refl
  last_match_ext p q (r ∷ rows) h = ground (arith, h r, last_match_ext p q rows h)

  pub count-append : (p : A → Bool) (xs ys : List A) → count p (xs ++ ys) ≡ count p xs + count p ys
  unfolding count
  count-append p [] ys = omega arith
  count-append p (x ∷ xs) ys = ground (arith, count-append p xs ys)

  pub count-update_where :
      (p w : A → Bool) (f : A → A) (rows : List A)
      → count p (update_where w f rows) ≡ count (λ r. p (if w r then f r else r)) rows
  unfolding count update_where
  count-update_where p w f [] = refl
  count-update_where p w f (r ∷ rows) = rw (count-update_where p w f rows)

  pub last_match-update_where :
      (p w : A → Bool) (f : A → A) (rows : List A)
      → last_match p (update_where w f rows)
        ≡ Option.map
            (λ r. if w r then f r else r)
            (last_match (λ r. p (if w r then f r else r)) rows)
  unfolding last_match update_where
  last_match-update_where p w f [] = refl
  last_match-update_where p w f (r ∷ rows) = ground (arith, last_match-update_where p w f rows)

  pub count-delete_where :
      (p w : A → Bool) (rows : List A)
      → count p (delete_where w rows) ≡ count (λ r. p r && not (w r)) rows
  unfolding count
  count-delete_where p w [] = refl
  count-delete_where p w (r ∷ rows) = ground (arith, count-delete_where p w rows)

  pub last_match-append_one :
      (p : A → Bool) (rows : List A) (r : A)
      → last_match p (rows ++ r ∷ []) ≡ (if p r then some r else last_match p rows)
  unfolding last_match
  last_match-append_one p [] r = refl
  last_match-append_one p (x ∷ rows) r = ground (arith, last_match-append_one p rows r)

  -- No row matches exactly when the count is zero.
  pub last_match-count_zero :
      (p : A → Bool) (rows : List A) → count p rows ≡ 0 → last_match p rows ≡ none
  unfolding last_match count
  last_match-count_zero p [] h = refl
  last_match-count_zero p (r ∷ rows) h = ground (arith, last_match-count_zero p rows)

  pub last_match_sound :
      (p : A → Bool) (rows : List A) (r : A) → last_match p rows ≡ some r → p r ≡ true
  unfolding last_match
  last_match_sound p [] r h = cc
  last_match_sound p (x ∷ rows) r h = ground (arith, last_match_sound p rows r)

  pub count_mono :
      (p q : A → Bool) (rows : List A)
      → ((r : A) → p r ≡ true → q r ≡ true)
      → count p rows ≤ count q rows
  unfolding count
  count_mono p q [] h = omega arith
  count_mono p q (r ∷ rows) h = ground (arith, h r, count_mono p q rows h)

  pub count-last_match-none :
      (p : A → Bool) (rows : List A) → last_match p rows ≡ none → count p rows ≡ 0
  unfolding last_match count
  count-last_match-none p [] h = refl
  count-last_match-none p (r ∷ rows) h = ground (arith, count-last_match-none p rows)

  pub count-last_match-some :
      (p : A → Bool) (rows : List A) (r : A) → last_match p rows ≡ some r → 0 < count p rows
  unfolding last_match count
  count-last_match-some p [] r h = cc
  count-last_match-some p (x ∷ rows) r h = ground (arith, count-last_match-some p rows r)
