-- ===== src/Prelude/Utf8.antt =====
-- `utf8.ValidString` of Go: well-formed sequences, no surrogates, no overlong forms.
use mathlib.Core.Bool.{Bool, true, false, ◌&&◌}
use mathlib.Core.Option.{Option, none, some}
use mathlib.Core.List.{List, [], ◌∷◌}
use Prim.Native.Nat.{ℕ}
use cloodsy_s.Prelude.Tests.{ltb, leb, ◌==◌, if◌then◌else◌}
use cloodsy_s.Prelude.ByteStrings.{Bytes}

-- A range of bytes.
abbrev pub Range : Type 0
Range = ℕ × ℕ

abbrev pub continuation : Range
continuation = (0x80, 0xBF)

-- The ranges of the bytes that must follow a first byte.
unfoldable pub followers : ℕ → Option (List Range)
followers c =
    if ltb c 0x80
    then some []
    else if leb 0xC2 c && leb c 0xDF
    then some (continuation ∷ [])
    else if c == 0xE0
    then some ((0xA0, 0xBF) ∷ continuation ∷ [])
    else if c == 0xED
    then some ((0x80, 0x9F) ∷ continuation ∷ [])
    else if leb 0xE1 c && leb c 0xEF
    then some (continuation ∷ continuation ∷ [])
    else if c == 0xF0
    then some ((0x90, 0xBF) ∷ continuation ∷ continuation ∷ [])
    else if leb 0xF1 c && leb c 0xF3
    then some (continuation ∷ continuation ∷ continuation ∷ [])
    else if c == 0xF4
    then some ((0x80, 0x8F) ∷ continuation ∷ continuation ∷ [])
    else none

unfoldable pub valid_from : List Range → Bytes → Bool
unfolding followers
valid_from [] [] = true
valid_from (r ∷ rs) [] = false
valid_from [] (c ∷ s) = elim (followers c) [ none ↦ false | some rs ↦ valid_from rs s ]
valid_from ((lo, hi) ∷ rs) (c ∷ s) = leb lo c && (leb c hi && valid_from rs s)

unfoldable pub valid_utf8 : Bytes → Bool
unfolding valid_from
valid_utf8 s = valid_from [] s
