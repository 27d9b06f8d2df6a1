-- ===== src/Prelude/Text.antt =====
-- Functions of Go's `strings` on byte strings: splitting and joining at a byte, trimming, letters.
-- Letters and spaces are those of ASCII.
use Prim.Native.Nat.{ℕ, ◌+◌, ◌-◌}
use mathlib.Core.Bool.{Bool, true, false, ◌&&◌, ◌||◌}
use mathlib.Core.Option
use mathlib.Core.Option.{Option, none, some}
use mathlib.Core.List.{List, [], ◌∷◌, ◌++◌, map, reverse}
use cloodsy_s.Prelude.Tests.{◌==◌, leb, if◌then◌else◌}
use cloodsy_s.Prelude.Lists.{length, drop, take}
use cloodsy_s.Prelude.ByteStrings.{Bytes, has_prefix, has_suffix, index_of}

-- `strings.IndexByte(s, c) >= 0`
unfoldable pub contains_byte : ℕ → Bytes → Bool
contains_byte c [] = false
contains_byte c (x ∷ s) = x == c || contains_byte c s

-- `strings.Contains(s, sub)`
unfoldable pub contains : Bytes → Bytes → Bool
contains s sub = elim (index_of s sub) [ none ↦ false | some _ ↦ true ]

abbrev pub cons_head : ℕ → List Bytes → List Bytes
cons_head x [] = (x ∷ []) ∷ []
cons_head x (p ∷ ps) = (x ∷ p) ∷ ps

-- `strings.Split(s, c)` for a separator of one byte
unfoldable pub split_on : ℕ → Bytes → List Bytes
split_on c [] = [] ∷ []
split_on c (x ∷ s) = let rest = split_on c s in if x == c then [] ∷ rest else cons_head x rest

-- `strings.Join(parts, c)`
unfoldable pub join_with : ℕ → List Bytes → Bytes
join_with c [] = []
join_with c (p ∷ []) = p
join_with c (p ∷ q ∷ ps) = p ++ (c ∷ join_with c (q ∷ ps))

-- `strings.Cut(s, c)`: the parts around the first `c`.
unfoldable pub cut_byte : ℕ → Bytes → Option (Bytes × Bytes)
cut_byte c [] = none
cut_byte c (x ∷ s) =
    if x == c then some ([], s) else Option.map (λ p. (x ∷ p.0, p.1)) (cut_byte c s)

-- `strings.TrimPrefix(s, prefix)`
unfoldable pub trim_prefix : Bytes → Bytes → Bytes
trim_prefix s prefix = if has_prefix s prefix then drop (length prefix) s else s

-- `strings.TrimSuffix(s, suffix)`
unfoldable pub trim_suffix : Bytes → Bytes → Bytes
trim_suffix s suffix = if has_suffix s suffix then take (length s - length suffix) s else s

unfoldable pub to_lower_byte : ℕ → ℕ
to_lower_byte c = if leb b'A' c && leb c b'Z' then c + 32 else c

unfoldable pub to_upper_byte : ℕ → ℕ
to_upper_byte c = if leb b'a' c && leb c b'z' then c - 32 else c

-- `strings.ToLower(s)`, `strings.ToUpper(s)`
unfoldable pub to_lower : Bytes → Bytes
unfolding to_lower_byte
to_lower s = map to_lower_byte s

unfoldable pub to_upper : Bytes → Bytes
unfolding to_upper_byte
to_upper s = map to_upper_byte s

unfoldable pub is_space : ℕ → Bool
is_space c = c == 32 || (leb 9 c && leb c 13)

unfoldable pub trim_left : (ℕ → Bool) → Bytes → Bytes
trim_left p [] = []
trim_left p (x ∷ s) = let rest = trim_left p s in if p x then rest else x ∷ s

unfoldable pub trim_right : (ℕ → Bool) → Bytes → Bytes
unfolding trim_left
trim_right p s = reverse (trim_left p (reverse s))

-- `strings.TrimSpace(s)`
unfoldable pub trim_space : Bytes → Bytes
unfolding is_space trim_right trim_left
trim_space s = trim_right is_space (trim_left is_space s)
