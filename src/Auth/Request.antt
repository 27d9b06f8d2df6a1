-- ===== src/Auth/Request.antt =====
-- What auth/ reads of an HTTP request. Header names are in lower case; `http_date` is the `Date`
-- header as `http.ParseTime` reads it, written in the layout of SigV4.
use cloodsy_s.Prelude.{Option, List, [], ◌∷◌, Bytes, bytes_eq, if◌then◌else◌}

-- Names with their values, each name once.
abbrev pub Fields : Type 0
Fields = List (Bytes × List Bytes)

pub record HttpRequest : Type 0 where
  pub method : Bytes
  pub path : Bytes
  pub host : Bytes
  pub headers : Fields
  pub query : Fields
  pub http_date : Option Bytes

-- `r.Header.Values(name)`, `query[name]`
unfoldable pub values : Fields → Bytes → List Bytes
values [] name = []
values ((n, vs) ∷ fields) name = if bytes_eq n name then vs else values fields name

abbrev pub first : List Bytes → Bytes
first [] = []
first (v ∷ vs) = v

-- `r.Header.Get(name)`, `query.Get(name)`
unfoldable pub get : Fields → Bytes → Bytes
unfolding values
get fields name = first (values fields name)
