-- ===== src/Storage/KeyPath/Segments.antt =====
-- What an encoded segment looks like: encoded ones start with a percent sign, verbatim ones do not.
use cloodsy_s.Prelude.{
  ℕ, ◌+◌, ◌*◌, ◌/◌, ◌%◌, ◌≡◌, ◌≢◌, refl, ◌==◌, ltb, Bool, true, false, ◌||◌, [], ◌∷◌, arith, length,
  Bytes, IsBytes, bytes_eq, codes, contains_byte, Lacks, to_upper, to_upper_byte, hex_encode,
  hex_digit, Bool-cases, inl, inr,
}
use cloodsy_s.Storage.KeyPath.{max_verbatim_segment, safe_bytes, segment_is_safe, encode_segment}

hex_digit_inj : (d e : ℕ) → hex_digit d ≡ hex_digit e → d ≡ e
hex_digit_inj d e h = ground arith

upper_digit_inj : (d e : ℕ) → to_upper_byte (hex_digit d) ≡ to_upper_byte (hex_digit e) → d ≡ e
unfolding to_upper_byte
upper_digit_inj d e h = ground arith

same_byte : (a b : ℕ) → a / 16 ≡ b / 16 → a % 16 ≡ b % 16 → a ≡ b
same_byte a b h g = omega arith

pub hex_encode_inj : (a b : Bytes) → hex_encode a ≡ hex_encode b → a ≡ b
unfolding hex_encode
hex_encode_inj [] [] h = refl
hex_encode_inj [] (y ∷ b) h = cc
hex_encode_inj (x ∷ a) [] h = cc
hex_encode_inj (x ∷ a) (y ∷ b) h = ground (
  arith,
  hex_digit_inj (x / 16) (y / 16),
  hex_digit_inj (x % 16) (y % 16),
  same_byte x y,
  hex_encode_inj a b,
)

pub upper_hex_inj : (a b : Bytes) → to_upper (hex_encode a) ≡ to_upper (hex_encode b) → a ≡ b
unfolding hex_encode to_upper
upper_hex_inj [] [] h = refl
upper_hex_inj [] (y ∷ b) h = cc
upper_hex_inj (x ∷ a) [] h = cc
upper_hex_inj (x ∷ a) (y ∷ b) h = ground (
  arith,
  upper_digit_inj (x / 16) (y / 16),
  upper_digit_inj (x % 16) (y % 16),
  same_byte x y,
  upper_hex_inj a b,
)

-- The hex digits of a byte string never start with the mark of a hash.
pub upper_hex-ne-mark : (a rest : Bytes) → IsBytes a → to_upper (hex_encode a) ≢ b'H' ∷ rest
unfolding hex_encode to_upper to_upper_byte
upper_hex-ne-mark [] rest h e = cc
upper_hex-ne-mark (x ∷ a) rest (k, h) e = ground arith

hex_digit-lacks : (d : ℕ) → (hex_digit d == b'/') ≡ false
hex_digit-lacks d = ground arith

upper_digit-lacks : (d : ℕ) → (to_upper_byte (hex_digit d) == b'/') ≡ false
unfolding to_upper_byte
upper_digit-lacks d = ground arith

hex_encode-Lacks : (a : Bytes) → Lacks b'/' (hex_encode a)
unfolding hex_encode contains_byte
hex_encode-Lacks [] = refl
hex_encode-Lacks (x ∷ a) =
    rw (hex_digit-lacks (x / 16), hex_digit-lacks (x % 16)) (hex_encode-Lacks a)

upper_hex-Lacks : (a : Bytes) → Lacks b'/' (to_upper (hex_encode a))
unfolding hex_encode to_upper contains_byte
upper_hex-Lacks [] = refl
upper_hex-Lacks (x ∷ a) =
    rw (upper_digit-lacks (x / 16), upper_digit-lacks (x % 16)) (upper_hex-Lacks a)

-- A segment that means something to the file system itself.
abbrev pub is_dots : Bytes → Bool
is_dots p = bytes_eq p [] || (bytes_eq p (codes ".") || bytes_eq p (codes ".."))

module _ (sha256 : Bytes → Bytes) where
  pub encode_safe : (s : Bytes) → segment_is_safe s ≡ true → encode_segment sha256 s ≡ s
  unfolding encode_segment
  encode_safe s h = rw h

  pub encode_long :
      (s : Bytes)
      → segment_is_safe s ≡ false
      → ltb max_verbatim_segment (length s * 2 + 1) ≡ true
      → encode_segment sha256 s ≡ b'%' ∷ b'H' ∷ hex_encode (sha256 s)
  unfolding encode_segment
  encode_long s h g = rw (h, g)

  pub encode_short :
      (s : Bytes)
      → segment_is_safe s ≡ false
      → ltb max_verbatim_segment (length s * 2 + 1) ≡ false
      → encode_segment sha256 s ≡ b'%' ∷ to_upper (hex_encode s)
  unfolding encode_segment
  encode_short s h g = rw (h, g)

  pub safe-ne-percent : (s rest : Bytes) → segment_is_safe s ≡ true → s ≢ b'%' ∷ rest
  unfolding segment_is_safe safe_bytes
  safe-ne-percent [] rest h e = cc
  safe-ne-percent (c ∷ s) rest h e = ground arith

  pub encode_segment-Lacks : (s : Bytes) → Lacks b'/' s → Lacks b'/' (encode_segment sha256 s)
  encode_segment-Lacks s h = elim (Bool-cases (segment_is_safe s)) [
    | inl e ↦ rw (encode_safe s e) h
    | inr e ↦ elim (Bool-cases (ltb max_verbatim_segment (length s * 2 + 1))) [
      | inl g ↦ rw (encode_long s e g) (unfold contains_byte in hex_encode-Lacks (sha256 s))
      | inr g ↦ rw (encode_short s e g) (unfold contains_byte in upper_hex-Lacks s)
    ]
  ]

  safe-dots : (s : Bytes) → segment_is_safe s ≡ true → is_dots s ≡ false
  unfolding segment_is_safe safe_bytes bytes_eq
  safe-dots [] h = cc
  safe-dots (c ∷ s) h = ground arith

  percent-dots : (s : Bytes) → is_dots (b'%' ∷ s) ≡ false
  unfolding bytes_eq
  percent-dots s = refl

  pub encode_segment-dots : (s : Bytes) → is_dots (encode_segment sha256 s) ≡ false
  encode_segment-dots s = elim (Bool-cases (segment_is_safe s)) [
    | inl e ↦ rw (encode_safe s e) (safe-dots s e)
    | inr e ↦ elim (Bool-cases (ltb max_verbatim_segment (length s * 2 + 1))) [
      | inl g ↦ rw (encode_long s e g) (percent-dots (b'H' ∷ hex_encode (sha256 s)))
      | inr g ↦ rw (encode_short s e g) (percent-dots (to_upper (hex_encode s)))
    ]
  ]
