-- ===== src/Prelude/Numbers.antt =====
-- Functions of Go's `strconv` and `encoding/hex`, and the integers that they return.
use Prim.Native.Nat.{ℕ, zero, suc, ◌+◌, ◌-◌, ◌*◌, ◌/◌, ◌%◌}
use mathlib.Core.Bool.{Bool, true, false, ◌&&◌}
use mathlib.Core.Option.{Option, none, some}
use mathlib.Core.List.{[], ◌∷◌, ◌++◌}
use cloodsy_s.Prelude.Tests.{◌==◌, ltb, leb, if◌then◌else◌}
use cloodsy_s.Prelude.ByteStrings.{Bytes}

-- `negsuc n` is -(n + 1).
pub data ℤ : Type 0 where
  pos : ℕ → ℤ
  negsuc : ℕ → ℤ

abbrev pub max_int64 : ℕ
max_int64 = 9223372036854775807

-- The value of a digit: letters stand for 10 and more.
unfoldable pub digit_value : ℕ → Option ℕ
digit_value c =
    if leb b'0' c && leb c b'9'
    then some (c - b'0')
    else if leb b'a' c && leb c b'z'
    then some (c - b'a' + 10)
    else if leb b'A' c && leb c b'Z'
    then some (c - b'A' + 10)
    else none

abbrev pub add_digit : ℕ → ℕ → Option ℕ → Option ℕ
add_digit base n none = none
add_digit base n (some d) = if ltb d base then some (n * base + d) else none

-- The digits of a text in a base, behind the number read so far.
unfoldable pub read_digits : ℕ → ℕ → Bytes → Option ℕ
unfolding digit_value
read_digits base n [] = some n
read_digits base n (c ∷ s) = elim (add_digit base n (digit_value c)) [
  | none ↦ none
  | some m ↦ read_digits base m s
]

-- The digits after the sign; at least one.
unfoldable pub read_number : ℕ → Bytes → Option ℕ
read_number base [] = none
read_number base (c ∷ s) = read_digits base 0 (c ∷ s)

abbrev pub signed : Bool → ℕ → Option ℤ
signed false n = if leb n max_int64 then some (pos n) else none
signed true zero = some (pos 0)
signed true (suc n) = if leb n max_int64 then some (negsuc n) else none

abbrev pub with_sign : Bool → Option ℕ → Option ℤ
with_sign negative none = none
with_sign negative (some n) = signed negative n

-- `strconv.ParseInt(s, base, 64)` for a base up to 16; with base 10 also `strconv.Atoi(s)`.
unfoldable pub parse_int : ℕ → Bytes → Option ℤ
unfolding read_number read_digits digit_value
parse_int base [] = none
parse_int base (c ∷ s) =
    if c == b'-'
    then with_sign true (read_number base s)
    else if c == b'+'
    then with_sign false (read_number base s)
    else with_sign false (read_number base (c ∷ s))

abbrev pub hex_digit : ℕ → ℕ
hex_digit d = if ltb d 10 then b'0' + d else b'a' + (d - 10)

-- `hex.EncodeToString(data)`
unfoldable pub hex_encode : Bytes → Bytes
hex_encode [] = []
hex_encode (b ∷ s) = hex_digit (b / 16) ∷ hex_digit (b % 16) ∷ hex_encode s

-- The decimal digits, on fuel: each digit but the first uses one unit.
unfoldable pub decimal_digits : ℕ → ℕ → Bytes
decimal_digits zero n = (b'0' + n % 10) ∷ []
decimal_digits (suc fuel) n =
    let front = decimal_digits fuel (n / 10) in
    if ltb n 10 then (b'0' + n) ∷ [] else front ++ (b'0' + n % 10) ∷ []

-- `strconv.Itoa(n)`
unfoldable pub itoa : ℕ → Bytes
unfolding decimal_digits
itoa n = decimal_digits n n
