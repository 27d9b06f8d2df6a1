-- ===== src/Handler/Multipart/Parts.antt =====
-- Which lists of parts a completion accepts.
use cloodsy_s.Prelude.{
  ℕ, ◌<◌, ◌≤◌, ◌+◌, ◌≡◌, ◌⊎◌, refl, sym, ap, ◌∙◌, inl, inr, leb, ltb, true, false, not, ◌&&◌, ◌||◌,
  some, List, [], ◌∷◌, map, length, bytes_eq, bytes_eq_iff, Bool-cases, arith,
}
use cloodsy_s.Prelude.Result.{
  Result, ok, ◌>>=◌, or_refuse, refuse_if-ok, demand-ok, or_refuse-ok, >>=-eq-ok,
}
use cloodsy_s.S3Err.{
  Refusal, plain, entity_too_large, entity_too_small, invalid_part, invalid_part_order,
  malformed_xml,
}
use cloodsy_s.Db.Multipart.{MultipartPart}
use cloodsy_s.Handler.Multipart.{
  CompletePart, min_part_size, max_multipart_size, max_parts, trim_quotes, numbered, is_last,
  check_order, check_row, check_parts, validate_parts,
}

-- Each number is above the one before it.
abbrev pub IsAscending : ℕ → List CompletePart → Type 0
IsAscending prev [] = Unit
IsAscending prev (p ∷ parts) = (prev < p.part_number) × IsAscending p.part_number parts

-- The stored part of each named part: it has the number and, but for quotes, the ETag; only the last
-- one may be small.
abbrev pub AreStored : List MultipartPart → List CompletePart → List MultipartPart → Type 0
AreStored rows [] [] = Unit
AreStored rows (p ∷ parts) (row ∷ chosen) =
    (numbered p.part_number rows ≡ some row)
    × (trim_quotes p.etag ≡ trim_quotes row.etag)
    × ((parts ≡ []) ⊎ (min_part_size ≤ row.size))
    × AreStored rows parts chosen
AreStored rows [] (_ ∷ _) = ⊥
AreStored rows (_ ∷ _) [] = ⊥

abbrev pub sum_of_sizes : List MultipartPart → ℕ
sum_of_sizes [] = 0
sum_of_sizes (row ∷ chosen) = row.size + sum_of_sizes chosen

check_order-IsAscending :
    (prev : ℕ) (parts : List CompletePart) → check_order prev parts ≡ ok tt → IsAscending prev parts
unfolding check_order
check_order-IsAscending prev [] h = tt
check_order-IsAscending prev (p ∷ parts) h =
    let (above, rest) =
      refuse_if-ok (leb p.part_number prev) (plain invalid_part_order)
        (check_order p.part_number parts) h in
    (ground arith, check_order-IsAscending p.part_number parts rest)

some_parts : (parts : List CompletePart) → is_last parts ≡ false → 0 < length parts
some_parts [] e = cc
some_parts (p ∷ parts) e = omega arith

is_last→nil : (parts : List CompletePart) → is_last parts ≡ true → parts ≡ []
is_last→nil [] h = refl
is_last→nil (p ∷ parts) h = cc

check_row-ok :
    (total sum : ℕ) (p : CompletePart) (later : List CompletePart) (row : MultipartPart)
    → check_row total p later row ≡ ok sum
    → (trim_quotes p.etag ≡ trim_quotes row.etag)
      × ((later ≡ []) ⊎ (min_part_size ≤ row.size))
      × (sum ≡ total + row.size)
      × (sum ≤ max_multipart_size)
check_row-ok total sum p later row h =
    let (same, h') =
      demand-ok (bytes_eq (trim_quotes p.etag) (trim_quotes row.etag)) (plain invalid_part) _ h in
    let (large, h'') =
      refuse_if-ok (not (is_last later) && ltb row.size min_part_size) (plain entity_too_small) _
        h' in
    let (fits, done) =
      refuse_if-ok (ltb max_multipart_size (total + row.size)) (plain entity_too_large) _ h'' in
    let summed : total + row.size ≡ sum = cc in
    let bound : total + row.size ≤ max_multipart_size = ground arith in
    (
      (bytes_eq_iff (trim_quotes p.etag) (trim_quotes row.etag)).0 same,
      elim (Bool-cases (is_last later)) [
        | inl last ↦ inl (is_last→nil later last)
        | inr more ↦ inr (ground arith)
      ],
      sym summed,
      rw (← summed) bound,
    )

checked_pair :
    (ns numbers : List ℕ) (n sum : ℕ)
    → ◌≡◌ {A = Result Refusal (List ℕ × ℕ)} (ok (ns, n)) (ok (numbers, sum))
    → (numbers ≡ ns) × (sum ≡ n)
checked_pair ns numbers n sum h =
    let same : ◌≡◌ {A = List ℕ × ℕ} (numbers, sum) (ns, n) = cc in
    (ap (λ p. p.0) same, ap (λ p. p.1) same)

check_parts-AreStored :
    (rows : List MultipartPart) (total : ℕ) (parts : List CompletePart) (numbers : List ℕ) (sum : ℕ)
    → total ≤ max_multipart_size
    → check_parts rows total parts ≡ ok (numbers, sum)
    → (chosen : List MultipartPart) × AreStored rows parts chosen
      × (numbers ≡ map (λ (p : CompletePart). p.part_number) parts)
      × (sum ≡ total + sum_of_sizes chosen)
      × (sum ≤ max_multipart_size)
unfolding check_parts
check_parts-AreStored rows total [] numbers sum fits h =
    let (named, same) = checked_pair [] numbers total sum h in
    ([], tt, named, omega arith, omega arith)
check_parts-AreStored rows total (p ∷ parts) numbers sum fits h =
    let (so_far, checked, h') =
      >>=-eq-ok
        (or_refuse (numbered p.part_number rows) (plain invalid_part) >>= check_row total p parts) _
        h in
    let (row, found, fine) =
      or_refuse-ok (numbered p.part_number rows) (plain invalid_part) (check_row total p parts)
        checked in
    let (same, large, added, bound) = check_row-ok total so_far p parts row fine in
    let (rest, later, h'') = >>=-eq-ok (check_parts rows so_far parts) _ h' in
    let (chosen, held, named, summed, within) =
      check_parts-AreStored rows so_far parts rest.0 rest.1 bound later in
    let (names, total_is) = checked_pair (p.part_number ∷ rest.0) numbers rest.1 sum h'' in
    (
      row ∷ chosen,
      (found, same, large, held),
      names ∙ ap (λ ns. p.part_number ∷ ns) named,
      omega arith,
      omega arith,
    )

-- A list of parts is accepted only if it names 1 to 10000 parts in ascending order of positive numbers,
-- each of which is stored with the ETag that is named, all but the last with 5 MiB or more, together at
-- most 5 TiB; the numbers and the sum of the sizes are then those of the parts.
pub validate_parts-AreStored :
    (rows : List MultipartPart) (parts : List CompletePart) (numbers : List ℕ) (sum : ℕ)
    → validate_parts rows parts ≡ ok (numbers, sum)
    → (chosen : List MultipartPart) × (0 < length parts)
      × (length parts ≤ max_parts)
      × IsAscending 0 parts
      × AreStored rows parts chosen
      × (numbers ≡ map (λ (p : CompletePart). p.part_number) parts)
      × (sum ≡ sum_of_sizes chosen)
      × (sum ≤ max_multipart_size)
unfolding validate_parts
validate_parts-AreStored rows parts numbers sum h =
    let (counted, h') =
      refuse_if-ok (is_last parts || ltb max_parts (length parts)) (plain malformed_xml) _ h in
    let (u, ordered, h'') = >>=-eq-ok (check_order 0 parts) _ h' in
    let (chosen, held, named, summed, within) =
      check_parts-AreStored rows 0 parts numbers sum (omega arith) h'' in
    (
      chosen,
      some_parts parts (ground arith),
      ground arith,
      check_order-IsAscending 0 parts ordered,
      held,
      named,
      omega arith,
      within,
    )
