-- ===== src/Handler/Conditional.antt =====
-- handler/s3_compat.go and handler/object.go: the conditional headers. `http.ParseTime` is a
-- parameter, and times are whole seconds.
pub mod Verdicts
use cloodsy_s.Prelude.{
  ℕ, ltb, leb, Bool, true, false, not, ◌&&◌, ◌||◌, Option, none, some, List, [], ◌∷◌, any, Bytes,
  bytes_eq, codes, non_empty, has_prefix, split_on, trim_space, trim_prefix, trim_left, trim_right,
  ◌==◌, if◌then◌else◌,
}
use cloodsy_s.Auth.Request.{HttpRequest, get}

abbrev pub is_quote : ℕ → Bool
is_quote c = c == b'"'

-- The tag without `W/` and the quotes around it.
unfoldable pub norm_etag : Bytes → Bytes
norm_etag s = trim_right is_quote (trim_left is_quote (trim_prefix (trim_space s) (codes "W/")))

unfoldable pub etag_match : Bytes → Bytes → Bool
unfolding norm_etag
etag_match header etag =
    bytes_eq (trim_space header) (codes "*")
    || any (λ candidate. bytes_eq (norm_etag candidate) (norm_etag etag)) (split_on b',' header)

-- To go on, or the status of the answer: 412 or 304.
pub data Verdict : Type 0 where
  proceed precondition_failed not_modified : Verdict

unfoldable pub is_read : Bytes → Bool
is_read method = bytes_eq method (codes "GET") || bytes_eq method (codes "HEAD")

-- `lm.After(t)` and `!lm.After(t)`, both false where there is no time.
abbrev pub is_after : ℕ → Option ℕ → Bool
is_after lm none = false
is_after lm (some t) = ltb t lm

abbrev pub not_after : ℕ → Option ℕ → Bool
not_after lm none = false
not_after lm (some t) = leb lm t

module _ (parse_time : Bytes → Option ℕ) where
  -- If-Match, and without it If-Unmodified-Since.
  unfoldable pub fails_match : HttpRequest → Bytes → ℕ → Bool
  unfolding etag_match
  fails_match r etag lm =
      if non_empty (get r.headers (codes "if-match"))
      then not (etag_match (get r.headers (codes "if-match")) etag)
      else non_empty (get r.headers (codes "if-unmodified-since"))
        && is_after lm (parse_time (get r.headers (codes "if-unmodified-since")))

  -- If-None-Match, and without it, for a read, If-Modified-Since.
  unfoldable pub none_match_verdict : HttpRequest → Bytes → ℕ → Verdict
  unfolding etag_match is_read
  none_match_verdict r etag lm =
      if non_empty (get r.headers (codes "if-none-match"))
      then (if etag_match (get r.headers (codes "if-none-match")) etag
          then (if is_read r.method then not_modified else precondition_failed)
          else proceed)
      else if (non_empty (get r.headers (codes "if-modified-since")) && is_read r.method)
          && not_after lm (parse_time (get r.headers (codes "if-modified-since")))
      then not_modified
      else proceed

  unfoldable pub check_conditional : HttpRequest → Bytes → ℕ → Verdict
  unfolding fails_match none_match_verdict
  check_conditional r etag lm =
      if fails_match r etag lm then precondition_failed else none_match_verdict r etag lm

  -- `ifRangeMatches`
  unfoldable pub if_range_matches : Bytes → Bytes → ℕ → Bool
  unfolding etag_match
  if_range_matches if_range etag lm =
      if has_prefix (trim_space if_range) (b'"' ∷ [])
        || has_prefix (trim_space if_range) (codes "W/")
      then etag_match (trim_space if_range) etag
      else not_after lm (parse_time (trim_space if_range))
