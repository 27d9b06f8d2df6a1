-- ===== src/Server/Masking.antt =====
-- `maskPresignedQuery` of server/router.go, which takes the secrets out of a query before it is logged.
use cloodsy_s.Prelude.{
  ◌≡◌, refl, Bool, true, not, ◌||◌, List, [], ◌∷◌, map, All, Bytes, bytes_eq, codes, has_prefix,
  split_on, join_with, Lacks, All-split_on, split_on-join_with, split_on-ne-nil, ◌≢◌, contains_byte,
  if◌then◌else◌, Bool-cases, inl, inr,
}

unfoldable pub mask_part : Bytes → Bytes
mask_part p =
    if has_prefix p (codes "X-Amz-Signature=")
    then codes "X-Amz-Signature=***"
    else if has_prefix p (codes "X-Amz-Credential=")
    then codes "X-Amz-Credential=***"
    else if has_prefix p (codes "X-Amz-Security-Token=")
    then codes "X-Amz-Security-Token=***"
    else p

unfoldable pub mask_presigned_query : Bytes → Bytes
unfolding mask_part
mask_presigned_query raw = join_with b'&' (map mask_part (split_on b'&' raw))

-- The parameter does not start with the name in this spelling, unless it is the masked one.
abbrev pub hides : Bytes → Bytes → Bytes → Bool
hides p name masked = not (has_prefix p name) || bytes_eq p masked

abbrev pub IsRedacted : Bytes → Type 0
IsRedacted p =
    (hides p (codes "X-Amz-Signature=") (codes "X-Amz-Signature=***") ≡ true)
    × (hides p (codes "X-Amz-Credential=") (codes "X-Amz-Credential=***") ≡ true)
    × (hides p (codes "X-Amz-Security-Token=") (codes "X-Amz-Security-Token=***") ≡ true)

mask_part-IsRedacted : (p : Bytes) → IsRedacted (mask_part p)
unfolding mask_part
mask_part-IsRedacted p = elim (Bool-cases (has_prefix p (codes "X-Amz-Signature="))) [
  | inl e ↦ rw e (unfold has_prefix bytes_eq in (refl, refl, refl))
  | inr e ↦ elim (Bool-cases (has_prefix p (codes "X-Amz-Credential="))) [
    | inl c ↦ rw (e, c) (unfold has_prefix bytes_eq in (refl, refl, refl))
    | inr c ↦ elim (Bool-cases (has_prefix p (codes "X-Amz-Security-Token="))) [
      | inl t ↦ rw (e, c, t) (unfold has_prefix bytes_eq in (refl, refl, refl))
      | inr t ↦ rw (e, c, t) (rw (e, c, t) (refl, refl, refl))
    ]
  ]
]

mask_part-Lacks : (p : Bytes) → Lacks b'&' p → Lacks b'&' (mask_part p)
unfolding mask_part
mask_part-Lacks p h = elim (Bool-cases (has_prefix p (codes "X-Amz-Signature="))) [
  | inl e ↦ rw e (unfold contains_byte in refl)
  | inr e ↦ elim (Bool-cases (has_prefix p (codes "X-Amz-Credential="))) [
    | inl c ↦ rw (e, c) (unfold contains_byte in refl)
    | inr c ↦ elim (Bool-cases (has_prefix p (codes "X-Amz-Security-Token="))) [
      | inl t ↦ rw (e, c, t) (unfold contains_byte in refl)
      | inr t ↦ rw (e, c, t) h
    ]
  ]
]

All-mask_Lacks : (ps : List Bytes) → All (Lacks b'&') ps → All (Lacks b'&') (map mask_part ps)
All-mask_Lacks [] h = tt
All-mask_Lacks (p ∷ ps) (k, h) = (mask_part-Lacks p k, All-mask_Lacks ps h)

All-mask_IsRedacted : (ps : List Bytes) → All IsRedacted (map mask_part ps)
All-mask_IsRedacted [] = tt
All-mask_IsRedacted (p ∷ ps) = (mask_part-IsRedacted p, All-mask_IsRedacted ps)

split-masked :
    (ps : List Bytes)
    → ps ≢ []
    → All (Lacks b'&') ps
    → split_on b'&' (join_with b'&' (map mask_part ps)) ≡ map mask_part ps
split-masked [] n h = absurd (n refl)
split-masked (p ∷ ps) n h =
    split_on-join_with b'&' (mask_part p) (map mask_part ps) (All-mask_Lacks (p ∷ ps) h)

-- Masking changes a query parameter by parameter: the parts of the masked query are the masked parts
-- of the query, and none of them starts with "X-Amz-Signature=", "X-Amz-Credential=" or
-- "X-Amz-Security-Token=", so spelled, but with "***" behind it and nothing else. Of a name that is
-- spelled otherwise, with escapes, it says nothing.
pub mask_presigned_query-IsRedacted :
    (raw : Bytes)
    → (split_on b'&' (mask_presigned_query raw) ≡ map mask_part (split_on b'&' raw))
      × All IsRedacted (split_on b'&' (mask_presigned_query raw))
unfolding mask_presigned_query
mask_presigned_query-IsRedacted raw =
    let e = split-masked (split_on b'&' raw) (split_on-ne-nil b'&' raw) (All-split_on b'&' raw) in
    (e, rw e (All-mask_IsRedacted (split_on b'&' raw)))
