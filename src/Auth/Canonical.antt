-- ===== src/Auth/Canonical.antt =====
-- The canonical request of auth/sigv4.go.
use cloodsy_s.Prelude.{
  ℕ, ◌/◌, ◌%◌, ◌==◌, leb, Bool, true, false, not, ◌&&◌, ◌||◌, List, [], ◌∷◌, ◌++◌, map, Bytes,
  bytes_eq, bytes_lt, codes, non_empty, split_on, join_with, trim_space, to_lower, to_upper_byte,
  hex_digit, if◌then◌else◌,
}
use cloodsy_s.Auth.Request.{Fields, HttpRequest, values, get}

unfoldable pub is_unreserved : ℕ → Bool
is_unreserved c =
    (leb b'A' c && leb c b'Z')
    || (leb b'a' c && leb c b'z')
    || (leb b'0' c && leb c b'9')
    || (c == b'-' || (c == b'.' || (c == b'_' || c == b'~')))

-- `%%%02X`
abbrev pub escaped : ℕ → Bytes
escaped c = b'%' ∷ to_upper_byte (hex_digit (c / 16)) ∷ to_upper_byte (hex_digit (c % 16)) ∷ []

unfoldable pub encode_byte : Bool → ℕ → Bytes
unfolding is_unreserved to_upper_byte
encode_byte encode_slash c =
    if is_unreserved c || (c == b'/' && not encode_slash) then c ∷ [] else escaped c

unfoldable pub uri_encode : Bool → Bytes → Bytes
unfolding encode_byte
uri_encode encode_slash [] = []
uri_encode encode_slash (c ∷ s) = encode_byte encode_slash c ++ uri_encode encode_slash s

unfoldable pub canonical_uri_encode : Bytes → Bytes
unfolding uri_encode
canonical_uri_encode uri = join_with b'/' (map (uri_encode false) (split_on b'/' uri))

-- `sort.Strings`
unfoldable pub insert_string : Bytes → List Bytes → List Bytes
insert_string s [] = s ∷ []
insert_string s (x ∷ xs) = if bytes_lt x s then x ∷ insert_string s xs else s ∷ x ∷ xs

unfoldable pub sort_strings : List Bytes → List Bytes
unfolding insert_string
sort_strings [] = []
sort_strings (s ∷ ss) = insert_string s (sort_strings ss)

abbrev pub pair : Bytes → Bytes → Bytes
pair k v = uri_encode true k ++ (b'=' ∷ uri_encode true v)

-- The pairs of the keys, each with its values in order.
unfoldable pub query_pairs : Fields → List Bytes → List Bytes
unfolding sort_strings
query_pairs query [] = []
query_pairs query (k ∷ keys) =
    map (pair k) (sort_strings (values query k)) ++ query_pairs query keys

unfoldable pub names : Fields → List Bytes
names query = map (λ f. f.0) query

unfoldable pub canonical_query_encode : Fields → Bytes
unfolding query_pairs sort_strings names
canonical_query_encode query = join_with b'&' (query_pairs query (sort_strings (names query)))

-- `\s` of Go's regular expressions
unfoldable pub is_blank : ℕ → Bool
is_blank c = c == 9 || (c == 10 || (c == 12 || (c == 13 || c == 32)))

-- `multiSpaceRegex.ReplaceAllString(s, " ")`; the flag says that a run of blanks is open.
unfoldable pub collapse : Bool → Bytes → Bytes
unfolding is_blank
collapse open_run [] = []
collapse open_run (c ∷ s) =
    (if is_blank c then (if open_run then [] else 32 ∷ []) else c ∷ []) ++ collapse (is_blank c) s

abbrev pub host_value : HttpRequest → Bytes
host_value r = if non_empty r.host then r.host else get r.headers (codes "host")

unfoldable pub header_value : HttpRequest → Bytes → Bytes
unfolding collapse trim_space get values
header_value r h = collapse false (
    trim_space (
      if bytes_eq h (codes "host")
      then host_value r
      else join_with b',' (map trim_space (values r.headers h))))

unfoldable pub canonical_headers : HttpRequest → List Bytes → Bytes
unfolding header_value
canonical_headers r [] = []
canonical_headers r (h ∷ hs) = h ++ (b':' ∷ header_value r h ++ (10 ∷ canonical_headers r hs))

unfoldable pub build_canonical_request : HttpRequest → List Bytes → Bytes → Fields → Bytes
unfolding canonical_uri_encode canonical_query_encode canonical_headers sort_strings
build_canonical_request r signed_headers payload_hash query =
    let uri : Bytes = if non_empty r.path then r.path else codes "/" in
    let sorted = sort_strings (map to_lower signed_headers) in
    r.method
    ++ (10 ∷ canonical_uri_encode uri
        ++ (10 ∷ canonical_query_encode query
            ++ (10 ∷ canonical_headers r sorted
                ++ (10 ∷ join_with b';' sorted ++ (10 ∷ payload_hash)))))
