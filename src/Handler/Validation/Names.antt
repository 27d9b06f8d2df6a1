-- ===== src/Handler/Validation/Names.antt =====
-- What the accepted names are.
use mathlib.Core.Option.{some-injective}
use cloodsy_s.Prelude.{
  ℕ, ◌≤◌, ◌≡◌, ◌≢◌, ◌==◌, refl, ltb, true, false, not, ◌&&◌, ◌||◌, Option, none, some, List, [],
  ◌∷◌, reverse, All, all, any, arith, length, Bytes, bytes_eq, codes, non_empty, contains_byte,
  split_on, Lacks, parse_int, ℤ, pos, negsuc, Bool-cases, &&-eq-true, inl, inr,
}
use cloodsy_s.Prelude.Result.{not-true}
use cloodsy_s.Handler.Validation.{
  is_alphanumeric, is_name_byte, head_is, matches_bucket_name, is_valid_bucket_name, max_key_length,
  is_dot_segment, is_valid_object_key, capped, parse_max_keys,
}

name_byte-ne : (c d : ℕ) → is_name_byte c ≡ true → is_name_byte d ≡ false → (c == d) ≡ false
name_byte-ne c d h k = grind arith

names-Lacks : (c : ℕ) (s : Bytes) → is_name_byte c ≡ false → all is_name_byte s ≡ true → Lacks c s
unfolding contains_byte
names-Lacks c [] k h = refl
names-Lacks c (x ∷ s) k h =
    let (here, later) = &&-eq-true (is_name_byte x) (all is_name_byte s) h in
    rw (name_byte-ne x c here k) (names-Lacks c s k later)

-- One segment of a path, and one label of a host name, of 3 to 63 bytes.
abbrev pub IsBucketName : Bytes → Type 0
IsBucketName name =
    (3 ≤ length name)
    × (length name ≤ 63)
    × Lacks b'/' name
    × Lacks b'.' name
    × Lacks b'\\' name
    × (all is_name_byte name ≡ true)

-- A bucket name that is accepted has 3 to 63 bytes, all of them lower-case letters, digits and
-- hyphens; so it has no slash, no backslash and no dot, and stands for one directory and for one label
-- of a host name.
pub is_valid_bucket_name-IsBucketName :
    (name : Bytes) → is_valid_bucket_name name ≡ true → IsBucketName name
unfolding is_valid_bucket_name matches_bucket_name
is_valid_bucket_name-IsBucketName name h =
    elim (Bool-cases (ltb (length name) 3 || ltb 63 (length name))) [
      | inl bad ↦ let no : false ≡ true = rw bad at h in cc
      | inr fits ↦
          let (first, rest) =
            &&-eq-true (head_is is_alphanumeric name)
              (head_is is_alphanumeric (reverse name) && all is_name_byte name) (rw fits at h) in
          let (last, bytes) =
            &&-eq-true (head_is is_alphanumeric (reverse name)) (all is_name_byte name) rest in
          (
            ground arith,
            ground arith,
            names-Lacks b'/' name refl bytes,
            names-Lacks b'.' name refl bytes,
            names-Lacks b'\\' name refl bytes,
            bytes,
          )
    ]

abbrev pub IsSolid : Bytes → Type 0
IsSolid seg = (seg ≢ codes ".") × (seg ≢ codes "..")

is_dot_segment-IsSolid : (seg : Bytes) → is_dot_segment seg ≡ false → IsSolid seg
unfolding bytes_eq
is_dot_segment-IsSolid seg h = (
  (λ e. let bad : is_dot_segment seg ≡ true = rw e refl in cc),
  (λ e. let bad : is_dot_segment seg ≡ true = rw e refl in cc),
)

any-All : (segs : List Bytes) → any is_dot_segment segs ≡ false → All IsSolid segs
any-All [] h = tt
any-All (s ∷ segs) h = elim (Bool-cases (is_dot_segment s)) [
  | inl bad ↦ let no : true ≡ false = rw bad at h in cc
  | inr fine ↦ (is_dot_segment-IsSolid s fine, any-All segs (rw fine at h))
]

-- A key of at most 1024 bytes, without a zero byte and without the segments `.` and `..`.
abbrev pub IsKey : Bytes → Type 0
IsKey key =
    (non_empty key ≡ true)
    × (length key ≤ max_key_length)
    × Lacks 0 key
    × All IsSolid (split_on b'/' key)

-- An object key that is accepted is not empty, has at most 1024 bytes, no zero byte, and no segment
-- `.` or `..` between its slashes.
pub is_valid_object_key-IsKey : (key : Bytes) → is_valid_object_key key ≡ true → IsKey key
unfolding is_valid_object_key
is_valid_object_key-IsKey key h =
    elim (Bool-cases (not (non_empty key) || ltb max_key_length (length key))) [
      | inl bad ↦ let no : false ≡ true = rw bad at h in cc
      | inr fits ↦ elim (Bool-cases (contains_byte 0 key)) [
        | inl zero_byte ↦ let no : false ≡ true = rw (fits, zero_byte) at h in cc
        | inr clean ↦
            let segments : any is_dot_segment (split_on b'/' key) ≡ false =
              not-true _ (rw (fits, clean) at h) in
            (ground arith, ground arith, clean, any-All (split_on b'/' key) segments)
      ]
    ]

capped_bound : (o : Option ℤ) (n : ℕ) → capped o ≡ some n → n ≤ 1000
capped_bound none n h = cc
capped_bound (some (negsuc m)) n h = cc
capped_bound (some (pos m)) n h = ground arith

-- A page size that is accepted is at most 1000, whatever number the parameter asks for.
pub parse_max_keys_bound : (v : Bytes) (n : ℕ) → parse_max_keys v ≡ some n → n ≤ 1000
unfolding parse_max_keys
parse_max_keys_bound v n h = elim (Bool-cases (non_empty v)) [
  | inl given ↦ capped_bound (parse_int 10 v) n (rw given at h)
  | inr missing ↦ let it : 1000 ≡ n = some-injective _ _ (rw missing at h) in ground arith
]
