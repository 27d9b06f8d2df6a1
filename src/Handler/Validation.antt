-- ===== src/Handler/Validation.antt =====
-- handler/common.go: the checks of names and small parameters.
pub mod Names
use cloodsy_s.Prelude.{
  ℕ, ◌-◌, ◌==◌, ltb, leb, Bool, true, false, not, ◌&&◌, ◌||◌, Option, none, some, List, [], ◌∷◌,
  reverse, all, any, length, Bytes, bytes_eq, codes, non_empty, contains_byte, split_on, parse_int,
  ℤ, pos, negsuc, if◌then◌else◌,
}

-- `[a-z0-9]`
abbrev pub is_alphanumeric : ℕ → Bool
is_alphanumeric c = (leb b'a' c && leb c b'z') || (leb b'0' c && leb c b'9')

-- `[a-z0-9\-]`
abbrev pub is_name_byte : ℕ → Bool
is_name_byte c = is_alphanumeric c || c == b'-'

abbrev pub head_is : (ℕ → Bool) → Bytes → Bool
head_is p [] = false
head_is p (c ∷ s) = p c

-- The pattern `^[a-z0-9][a-z0-9\-]{1,61}[a-z0-9]$` on a name of 3 to 63 bytes.
unfoldable pub matches_bucket_name : Bytes → Bool
matches_bucket_name name =
    head_is is_alphanumeric name
    && (head_is is_alphanumeric (reverse name) && all is_name_byte name)

unfoldable pub is_valid_bucket_name : Bytes → Bool
unfolding matches_bucket_name
is_valid_bucket_name name =
    if ltb (length name) 3 || ltb 63 (length name) then false else matches_bucket_name name

abbrev pub max_key_length : ℕ
max_key_length = 1024

abbrev pub is_dot_segment : Bytes → Bool
is_dot_segment seg = bytes_eq seg (codes ".") || bytes_eq seg (codes "..")

unfoldable pub is_valid_object_key : Bytes → Bool
is_valid_object_key key =
    if not (non_empty key) || ltb max_key_length (length key)
    then false
    else if contains_byte 0 key
    then false
    else not (any is_dot_segment (split_on b'/' key))

unfoldable pub is_hex : Bytes → Bool
is_hex s =
    all
      (λ c. (leb b'0' c && leb c b'9') || (leb b'a' c && leb c b'f') || (leb b'A' c && leb c b'F'))
      s

-- `apiVersionID`
unfoldable pub api_version_id : Bytes → Bytes
api_version_id v = if non_empty v then v else codes "null"

abbrev pub capped : Option ℤ → Option ℕ
capped (some (pos n)) = some (if ltb 1000 n then 1000 else n)
capped (some (negsuc n)) = none
capped none = none

-- `none` is a refused parameter.
unfoldable pub parse_max_keys : Bytes → Option ℕ
parse_max_keys v = if non_empty v then capped (parse_int 10 v) else some 1000
