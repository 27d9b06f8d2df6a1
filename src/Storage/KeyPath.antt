-- ===== src/Storage/KeyPath.antt =====
-- storage/keypath.go: the relative path under which a key's bytes lie. SHA-256 is a parameter.
pub mod Segments
pub mod Injective
use cloodsy_s.Prelude.{
  ℕ, ◌+◌, ◌*◌, ◌==◌, ltb, leb, Bool, true, false, not, ◌&&◌, ◌||◌, Option, none, some, List, [],
  ◌∷◌, ◌++◌, map, any, all, length, Bytes, bytes_eq, codes, non_empty, has_prefix, has_suffix,
  contains, contains_byte, cut_byte, split_on, join_with, to_upper, hex_encode, valid_utf8,
  if◌then◌else◌,
}

abbrev pub max_verbatim_segment : ℕ
max_verbatim_segment = 200

-- Names of internal files, of storage/filesystem.go.
abbrev pub safe_ext : Bytes
safe_ext = codes ".cloodsys3ext"

abbrev pub version_sep : Bytes
version_sep = codes ".v--"

abbrev pub tmp_prefix : Bytes
tmp_prefix = codes ".tmp-"

abbrev pub windows_reserved : List Bytes
windows_reserved =
    codes "CON"
    ∷ codes "PRN"
    ∷ codes "AUX"
    ∷ codes "NUL"
    ∷ codes "COM1"
    ∷ codes "COM2"
    ∷ codes "COM3"
    ∷ codes "COM4"
    ∷ codes "COM5"
    ∷ codes "COM6"
    ∷ codes "COM7"
    ∷ codes "COM8"
    ∷ codes "COM9"
    ∷ codes "LPT1"
    ∷ codes "LPT2"
    ∷ codes "LPT3"
    ∷ codes "LPT4"
    ∷ codes "LPT5"
    ∷ codes "LPT6"
    ∷ codes "LPT7"
    ∷ codes "LPT8"
    ∷ codes "LPT9"
    ∷ []

-- A byte that may stand in a file name everywhere.
unfoldable pub plain_byte : ℕ → Bool
plain_byte c =
    not (ltb c 0x20 || c == 0x7F)
    && not (any (λ x. x == c) (b'\\' ∷ b':' ∷ b'*' ∷ b'?' ∷ b'"' ∷ b'<' ∷ b'>' ∷ b'|' ∷ []))

abbrev pub last_byte : ℕ → Bytes → ℕ
last_byte c [] = c
last_byte c (x ∷ s) = last_byte x s

abbrev pub before_dot : Bytes → Option (Bytes × Bytes) → Bytes
before_dot s none = s
before_dot s (some p) = p.0

-- `windowsReserved[strings.ToUpper(base)]`
unfoldable pub is_device_name : Bytes → Bool
is_device_name seg = any (bytes_eq (to_upper (before_dot seg (cut_byte b'.' seg)))) windows_reserved

-- The checks of `segmentIsSafe` on a segment that is not empty.
unfoldable pub safe_bytes : ℕ → Bytes → Bool
unfolding plain_byte is_device_name
safe_bytes c s =
    not (bytes_eq (c ∷ s) (codes ".") || bytes_eq (c ∷ s) (codes ".."))
    && leb (length (c ∷ s)) max_verbatim_segment
    && not (c == b'%')
    && valid_utf8 (c ∷ s)
    && all plain_byte (c ∷ s)
    && not (last_byte c s == b'.' || last_byte c s == b' ')
    && not (
        has_suffix (c ∷ s) safe_ext
        || (contains (c ∷ s) version_sep || has_prefix (c ∷ s) tmp_prefix))
    && not (is_device_name (c ∷ s))

unfoldable pub segment_is_safe : Bytes → Bool
segment_is_safe [] = false
segment_is_safe (c ∷ s) = safe_bytes c s

module _ (sha256 : Bytes → Bytes) where
  unfoldable pub encode_segment : Bytes → Bytes
  encode_segment seg =
      if segment_is_safe seg
      then seg
      else if ltb max_verbatim_segment (length seg * 2 + 1)
      then codes "%H" ++ hex_encode (sha256 seg)
      else b'%' ∷ to_upper (hex_encode seg)

  -- `EncodeKeyPath`; `none` stands for an error.
  unfoldable pub encode_key_path : Bytes → Option Bytes
  encode_key_path key =
      if not (non_empty key) || contains_byte 0 key
      then none
      else some (join_with b'/' (map encode_segment (split_on b'/' key)))
