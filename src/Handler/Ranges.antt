-- ===== src/Handler/Ranges.antt =====
-- handler/object.go: the Range header of a read.
pub mod Bounds
use cloodsy_s.Prelude.{
  ℕ, ◌-◌, ◌==◌, min, ltb, leb, Bool, true, false, ◌||◌, Option, none, some, List, [], ◌∷◌, drop,
  Bytes, codes, non_empty, contains_byte, cut_byte, has_prefix, trim_space, parse_int, ℤ, pos,
  negsuc, if◌then◌else◌,
}

-- `whole` is a header that the handler passes over, `unsatisfiable` the answer with the start -1.
pub data Span : Type 0 where
  span : ℕ → ℕ → Span
  whole unsatisfiable : Span

-- The last n bytes.
abbrev pub suffix_span : ℕ → Option ℤ → Span
suffix_span size (some (pos n)) =
    if leb n 0 || leb size 0 then unsatisfiable else span (size - min n size) (size - 1)
suffix_span size (some (negsuc n)) = unsatisfiable
suffix_span size none = unsatisfiable

abbrev pub satisfiable : ℕ → ℕ → ℕ → Span
satisfiable size s e = if leb size s then unsatisfiable else span s e

abbrev pub closed_span : ℕ → ℕ → Option ℤ → Span
closed_span size s (some (pos e)) =
    if ltb e s then whole else satisfiable size s (if leb size e then size - 1 else e)
closed_span size s (some (negsuc e)) = whole
closed_span size s none = whole

abbrev pub span_from : ℕ → Bytes → Option ℤ → Span
span_from size last (some (pos s)) =
    if non_empty last then closed_span size s (parse_int 10 last) else satisfiable size s (size - 1)
span_from size last (some (negsuc s)) = whole
span_from size last none = whole

-- What stands behind `bytes=`, cut at the dash.
abbrev pub spec_span : ℕ → Option (Bytes × Bytes) → Span
spec_span size none = whole
spec_span size (some (first, last)) =
    if non_empty (trim_space first)
    then span_from size (trim_space last) (parse_int 10 (trim_space first))
    else suffix_span size (parse_int 10 (trim_space last))

abbrev pub unit_prefix : Bytes
unit_prefix = codes "bytes="

unfoldable pub parse_range : Bytes → ℕ → Span
parse_range range_header size =
    if has_prefix (trim_space range_header) unit_prefix
    then (if contains_byte b',' (drop 6 (trim_space range_header))
        then whole
        else spec_span size (cut_byte b'-' (drop 6 (trim_space range_header))))
    else whole
