-- ===== src/Auth/SigTime.antt =====
-- `time.Parse` of Go for the layout `20060102T150405Z`: nanoseconds from the start of the year 0.
use cloodsy_s.Prelude.{
  ℕ, zero, suc, ◌+◌, ◌-◌, ◌*◌, ◌/◌, ◌%◌, ◌==◌, ltb, leb, Bool, true, false, not, ◌&&◌, ◌||◌, Option,
  none, some, [], ◌∷◌, Bytes, if◌then◌else◌,
}

abbrev pub is_digit : ℕ → Bool
is_digit c = leb b'0' c && leb c b'9'

-- The value of two digits.
unfoldable pub two : ℕ → ℕ → Option ℕ
two a b = if is_digit a && is_digit b then some ((a - b'0') * 10 + (b - b'0')) else none

unfoldable pub is_leap : ℕ → Bool
is_leap y = (y % 4) == 0 && (not ((y % 100) == 0) || (y % 400) == 0)

unfoldable pub days_in : ℕ → ℕ → ℕ
unfolding is_leap
days_in y m =
    if m == 2
    then (if is_leap y then 29 else 28)
    else if m == 4 || (m == 6 || (m == 9 || m == 11))
    then 30
    else 31

-- The days of the months before, `n` of them.
unfoldable pub days_of_months : ℕ → ℕ → ℕ
days_of_months y zero = 0
days_of_months y (suc n) = days_of_months y n + days_in y (suc n)

unfoldable pub days_before_year : ℕ → ℕ
days_before_year y = 365 * y + (y + 3) / 4 - (y + 99) / 100 + (y + 399) / 400

pub record Date : Type 0 where
  pub year : ℕ
  pub month : ℕ
  pub day : ℕ

unfoldable pub is_date : Date → Bool
unfolding days_in
is_date d = leb 1 d.month && (leb d.month 12 && (leb 1 d.day && leb d.day (days_in d.year d.month)))

unfoldable pub seconds_at : Date → ℕ → ℕ → ℕ → ℕ
unfolding days_before_year days_of_months
seconds_at d h m s =
    (days_before_year d.year + days_of_months d.year (d.month - 1) + (d.day - 1)) * 86400
    + h * 3600
    + m * 60
    + s

-- A fraction of up to nine digits in nanoseconds, further digits ignored, up to the literal `Z`.
unfoldable pub fraction : ℕ → ℕ → Bytes → Option ℕ
fraction scale acc [] = none
fraction scale acc (c ∷ s) = elim (is_digit c) [
  | true ↦ fraction (scale / 10) (acc + (c - b'0') * scale) s
  | false ↦ elim s [ [] ↦ if c == b'Z' then some acc else none | _ ∷ _ ↦ none ]
]

-- What follows the seconds: `Z`, or a fraction and `Z`.
unfoldable pub after_seconds : Bytes → Option ℕ
unfolding fraction
after_seconds [] = none
after_seconds (c ∷ []) = if c == b'Z' then some 0 else none
after_seconds (c ∷ d ∷ s) =
    if (c == b'.' || c == b',') && is_digit d then fraction 100000000 0 (d ∷ s) else none

abbrev pub nanos : ℕ
nanos = 1000000000

unfoldable pub instant : Date → ℕ → ℕ → ℕ → Bytes → Option ℕ
unfolding is_date seconds_at after_seconds
instant d h m s rest =
    if is_date d && (ltb h 24 && (ltb m 60 && ltb s 60))
    then elim (after_seconds rest) [ none ↦ none | some n ↦ some (seconds_at d h m s * nanos + n) ]
    else none

abbrev bind {ℓ κ} : {A : Type ℓ} {B : Type κ} → Option A → (A → Option B) → Option B
bind none f = none
bind (some a) f = f a

unfoldable pub parse_sig_time : Bytes → Option ℕ
unfolding two instant
parse_sig_time (y1 ∷ y2 ∷ y3 ∷ y4 ∷ m1 ∷ m2 ∷ d1 ∷ d2 ∷ t ∷ h1 ∷ h2 ∷ n1 ∷ n2 ∷ s1 ∷ s2 ∷ rest) =
    if t == b'T'
    then bind (two y1 y2) (λ c. bind (two y3 y4) (λ y. bind (two m1 m2) (λ m. bind (two d1 d2) (λ d.
      bind (two h1 h2) (λ h. bind (two n1 n2) (λ n.
        bind (two s1 s2)
          (λ s. instant (record { year = c * 100 + y; month = m; day = d }) h n s rest)))))))
    else none
parse_sig_time _ = none
