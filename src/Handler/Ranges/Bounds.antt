-- ===== src/Handler/Ranges/Bounds.antt =====
-- Which bytes a range selects.
use cloodsy_s.Prelude.{
  ℕ, ◌≤◌, ◌<◌, ◌⊎◌, inl, inr, Option, none, some, drop, Bytes, arith, non_empty, contains_byte,
  cut_byte, has_prefix, trim_space, parse_int, ℤ, pos, negsuc, Bool-cases,
}
use cloodsy_s.Handler.Ranges.{
  Span, span, whole, unsatisfiable, suffix_span, satisfiable, closed_span, span_from, spec_span,
  unit_prefix, parse_range,
}

-- The span is a part of an object of the size.
abbrev pub Fits : ℕ → Span → Type 0
Fits size (span s e) = (s ≤ e) × (e < size)
Fits size whole = Unit
Fits size unsatisfiable = Unit

suffix_span-Fits : (size : ℕ) (n : Option ℤ) → Fits size (suffix_span size n)
suffix_span-Fits size none = tt
suffix_span-Fits size (some (negsuc n)) = tt
suffix_span-Fits size (some (pos n)) = ground arith

satisfiable-Fits :
    (size s e : ℕ) → s ≤ e ⊎ size ≤ s → e < size ⊎ size ≤ s → Fits size (satisfiable size s e)
satisfiable-Fits size s e h k = ground arith

closed_span-Fits : (size s : ℕ) (e : Option ℤ) → Fits size (closed_span size s e)
closed_span-Fits size s none = tt
closed_span-Fits size s (some (negsuc e)) = tt
closed_span-Fits size s (some (pos e)) = ground arith

span_from-Fits :
    (size : ℕ) (last : Bytes) (first : Option ℤ) → Fits size (span_from size last first)
span_from-Fits size last none = tt
span_from-Fits size last (some (negsuc s)) = tt
span_from-Fits size last (some (pos s)) = elim (Bool-cases (non_empty last)) [
  | inl e ↦ rw e (closed_span-Fits size s (parse_int 10 last))
  | inr e ↦ rw e (ground arith)
]

spec_span-Fits : (size : ℕ) (cut : Option (Bytes × Bytes)) → Fits size (spec_span size cut)
spec_span-Fits size none = tt
spec_span-Fits size (some (first, last)) = elim (Bool-cases (non_empty (trim_space first))) [
  | inl e ↦ rw e (span_from-Fits size (trim_space last) (parse_int 10 (trim_space first)))
  | inr e ↦ rw e (suffix_span-Fits size (parse_int 10 (trim_space last)))
]

-- Whatever the Range header and the size of the object, a range that `parseRange` reports starts no
-- later than it ends and ends inside the object.
pub parse_range-Fits : (range_header : Bytes) (size : ℕ) → Fits size (parse_range range_header size)
unfolding parse_range
parse_range-Fits range_header size =
    elim (Bool-cases (has_prefix (trim_space range_header) unit_prefix)) [
      | inr e ↦ rw e tt
      | inl e ↦ elim (Bool-cases (contains_byte b',' (drop 6 (trim_space range_header)))) [
        | inl many ↦ rw (e, many) tt
        | inr one ↦
            rw (e, one) (spec_span-Fits size (cut_byte b'-' (drop 6 (trim_space range_header))))
      ]
    ]
