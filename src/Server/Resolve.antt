-- ===== src/Server/Resolve.antt =====
-- `resolve` of server/router.go: the bucket and the key that a request names, by its host or its path.
pub mod Sound
use mathlib.Core.Option
use cloodsy_s.Prelude.{
  ℕ, ◌+◌, ◌-◌, Bool, true, false, not, ◌&&◌, ◌||◌, Option, none, some, List, [], ◌∷◌, ◌++◌, reverse,
  drop, Bytes, bytes_eq, codes, non_empty, has_suffix, has_prefix, contains_byte, cut_byte,
  trim_prefix, trim_suffix, to_lower, if◌then◌else◌,
}

-- The parts around the last `c`.
unfoldable pub cut_last : ℕ → Bytes → Option (Bytes × Bytes)
cut_last c s = Option.map (λ p. (reverse p.1, reverse p.0)) (cut_byte c (reverse s))

-- `[host]:port`, given the parts around the first `]` and the port.
abbrev pub bracketed_host : Bytes → Option (Bytes × Bytes) → Option Bytes
bracketed_host port none = none
bracketed_host port (some (front, rest)) =
    if bytes_eq rest (b':' ∷ port) && not (contains_byte b'[' (drop 1 front))
    then some (drop 1 front)
    else none

abbrev pub host_before : Bytes → Option (Bytes × Bytes) → Option Bytes
host_before hostport none = none
host_before hostport (some (front, port)) =
    if has_prefix hostport (codes "[")
    then (if contains_byte b'[' port || contains_byte b']' port
        then none
        else bracketed_host port (cut_byte b']' hostport))
    else if contains_byte b':' front || (contains_byte b'[' hostport || contains_byte b']' hostport)
    then none
    else some front

-- The host of `net.SplitHostPort(hostport)`; `none` stands for an error.
unfoldable pub split_host_port : Bytes → Option Bytes
unfolding cut_last
split_host_port hostport = host_before hostport (cut_last b':' hostport)

abbrev pub or_whole : Bytes → Option Bytes → Bytes
or_whole s none = s
or_whole s (some h) = h

-- The bucket that a host selects under one of the domains.
unfoldable pub virtual_bucket : Bytes → List Bytes → Option Bytes
virtual_bucket host [] = none
virtual_bucket host (d ∷ domains) =
    let domain = to_lower (trim_prefix d (codes ".")) in
    let b = trim_suffix host (b'.' ∷ domain) in
    let rest = virtual_bucket host domains in
    if not (non_empty domain) || not (has_suffix host (b'.' ∷ domain))
    then rest
    else if non_empty b && not (contains_byte b'.' b)
    then some b
    else rest

abbrev pub path_style : Bytes → Option (Bytes × Bytes) → Bytes × Bytes
path_style path none = (path, [])
path_style path (some p) = p

abbrev pub by_host : Bytes → Option Bytes → Bytes × Bytes
by_host path (some b) = (b, path)
by_host path none = path_style path (cut_byte b'/' path)

unfoldable pub resolve : List Bytes → Bytes → Bytes → Bytes × Bytes
resolve domains host url_path =
    by_host (trim_prefix url_path (codes "/"))
      (virtual_bucket (to_lower (or_whole host (split_host_port host))) domains)
