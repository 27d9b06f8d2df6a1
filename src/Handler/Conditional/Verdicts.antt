-- ===== src/Handler/Conditional/Verdicts.antt =====
-- Why a conditional request is answered as it is.
use cloodsy_s.Prelude.{ℕ, ◌≡◌, Bool, true, false, ◌⊎◌, Option, Bytes, codes, non_empty}
use cloodsy_s.Auth.Request.{HttpRequest, get}
use cloodsy_s.Handler.Conditional.{
  etag_match, Verdict, proceed, precondition_failed, not_modified, is_read, is_after, not_after,
}

-- The header is given and the tag is, or is not, among those that it lists.
abbrev pub Lists : HttpRequest → Bytes → Bytes → Bool → Type 0
Lists r name etag answer =
    (non_empty (get r.headers name) ≡ true) × (etag_match (get r.headers name) etag ≡ answer)

abbrev pub Missing : HttpRequest → Bytes → Type 0
Missing r name = non_empty (get r.headers name) ≡ false

module _ (parse_time : Bytes → Option ℕ) where
  abbrev pub since : HttpRequest → Bytes → Option ℕ
  since r name = parse_time (get r.headers name)

  -- If-Match lists the tag; without it, If-Unmodified-Since is not given, is no time, or is no older
  -- than the object.
  abbrev pub MatchHolds : HttpRequest → Bytes → ℕ → Type 0
  MatchHolds r etag lm =
      Lists r (codes "if-match") etag true
      ⊎ (Missing r (codes "if-match")
          × (Missing r (codes "if-unmodified-since")
              ⊎ (is_after lm (since r (codes "if-unmodified-since")) ≡ false)))

  -- What justifies each answer.
  abbrev pub Justified : HttpRequest → Bytes → ℕ → Verdict → Type 0
  Justified r etag lm proceed =
      MatchHolds r etag lm
      × (Lists r (codes "if-none-match") etag false
          ⊎ (Missing r (codes "if-none-match")
              × (Missing r (codes "if-modified-since")
                  ⊎ (is_read r.method ≡ false)
                  ⊎ (not_after lm (since r (codes "if-modified-since")) ≡ false))))
  Justified r etag lm precondition_failed =
      Lists r (codes "if-match") etag false
      ⊎ (Missing r (codes "if-match")
          × (is_after lm (since r (codes "if-unmodified-since")) ≡ true))
      ⊎ (Lists r (codes "if-none-match") etag true × (is_read r.method ≡ false))
  Justified r etag lm not_modified =
      (is_read r.method ≡ true)
      × (Lists r (codes "if-none-match") etag true
          ⊎ (Missing r (codes "if-none-match")
              × (not_after lm (since r (codes "if-modified-since")) ≡ true)))
      × MatchHolds r etag lm
