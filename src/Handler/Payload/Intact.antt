-- ===== src/Handler/Payload/Intact.antt =====
-- What a verified body is.
use cloodsy_s.Prelude.{
  ℕ, ◌==◌, ==_iff, ◌≡◌, ◌⊎◌, ◌↔◌, ◌≢◌, ◌∙◌, ◌++◌, sym, not, Bool, bytes_eq_refl, codes, inl, inr,
  refl, ap, Bool-cases, true, false, Option, none, some, [], ◌∷◌, Bytes, bytes_eq, bytes_eq_iff,
  to_lower, hex_encode,
}
use cloodsy_s.Prelude.Result.{Result, ok, err, refuse_if-ok, or_refuse-ok, not-false}
use cloodsy_s.Handler.Payload.{
  BodyError, incomplete_chunked_body, incomplete_content, payload_sha256, wrong_digest,
  malformed_digest, ChunkedBody, PayloadChecker, is_cut_off, is_wrong_size, is_wrong_sha,
  is_wrong_md5, expected_checksum, same_checksum, verify_checksum, verify_payload, write_hash, wrap,
  trailer_value, announced_trailer,
}

-- A value, where there is one, satisfies the predicate.
abbrev pub Holds {ℓ} : {A : Type ℓ} → Option A → (A → Type 0) → Type 0
Holds none p = Unit
Holds (some a) p = p a

-- The client gives the checksum: in the header or, where that has none, in the trailer of a chunked body.
abbrev pub Gives : PayloadChecker → Bytes → Type 0
Gives pc v =
    (v ≢ [])
    × ((pc.expected_sum ≡ v)
        ⊎ ((pc.expected_sum ≡ [])
            × (c : ChunkedBody) × (pc.chunked ≡ some c)
            × (trailer_value c.trailers (codes "x-amz-checksum-" ++ pc.checksum_algo) ≡ v)))

not-false-eq : (b : Bool) → b ≡ true → not b ≡ false
not-false-eq b h = rw h refl

complete_body : (c : Option ChunkedBody) → (is_cut_off c ≡ false) ↔ Holds c (λ b. b.complete ≡ true)
complete_body none = (λ h. tt, λ h. refl)
complete_body (some c) = (not-false c.complete, not-false-eq c.complete)

right_size : (n : Option ℕ) (size : ℕ) → (is_wrong_size n size ≡ false) ↔ Holds n (λ d. size ≡ d)
right_size none size = (λ h. tt, λ h. refl)
right_size (some n) size = (
  λ h. (==_iff size n).0 (not-false (size == n) h),
  λ h. not-false-eq (size == n) ((==_iff size n).1 h),
)

not_different : (s t : Bytes) → (not (bytes_eq s t) ≡ false) ↔ (s ≡ t)
not_different s t = (
  λ h. (bytes_eq_iff s t).0 (not-false (bytes_eq s t) h),
  λ h. not-false-eq (bytes_eq s t) ((bytes_eq_iff s t).1 h),
)

right_sha :
    (sum : Bytes → Bytes) (o : Option Bytes) (body expected : Bytes)
    → (is_wrong_sha sum (write_hash body o) expected ≡ false)
      ↔ Holds o (λ before. hex_encode (sum (before ++ body)) ≡ to_lower expected)
right_sha sum none body expected = (λ h. tt, λ h. refl)
right_sha sum (some before) body expected = not_different _ _

right_md5 :
    (o : Option Bytes) (md5sum : Bytes)
    → (is_wrong_md5 o md5sum ≡ false) ↔ Holds o (λ expected. expected ≡ md5sum)
right_md5 none md5sum = (λ h. tt, λ h. refl)
right_md5 (some e) md5sum = not_different e md5sum

announced-Gives :
    (pc : PayloadChecker) (o : Option ChunkedBody) (v : Bytes)
    → pc.chunked ≡ o
    → pc.expected_sum ≡ []
    → announced_trailer o (codes "x-amz-checksum-" ++ pc.checksum_algo) ≡ v
    → v ≢ []
    → Gives pc v
announced-Gives pc none v e s h n = absurd (n (sym h))
announced-Gives pc (some c) v e s h n = (n, inr (s, c, e, h))

expected-Gives :
    (pc : PayloadChecker) (s : Bytes)
    → pc.expected_sum ≡ s
    → expected_checksum pc ≢ []
    → Gives pc (expected_checksum pc)
unfolding expected_checksum
expected-Gives pc [] e n = announced-Gives pc pc.chunked _ refl e (rw e refl) n
expected-Gives pc (c ∷ s) e n = (n, inl (rw (e) refl))

Gives-expected : (pc : PayloadChecker) (v : Bytes) → Gives pc v → expected_checksum pc ≡ v
unfolding expected_checksum
Gives-expected pc [] (n, g) = absurd (n refl)
Gives-expected pc (x ∷ v) (n, inl e) = rw e refl
Gives-expected pc (x ∷ v) (n, inr (e, c, f, h)) = rw (e, f) h

empty-cons : (c : ℕ) (s : Bytes) → (c ∷ s) ≢ []
empty-cons c s e = cc

expected-wrap :
    (pc : PayloadChecker) (body : Bytes)
    → expected_checksum (record pc {
      sha256 = write_hash body pc.sha256;
      checksum_hash = write_hash body pc.checksum_hash;
    })
      ≡ expected_checksum pc
unfolding expected_checksum
expected-wrap pc body = refl

module _ (base64 : Bytes → Option Bytes) (sha256_sum : Bytes → Bytes)
    (checksum : Bytes → Bytes → Bytes) where
  right_digest :
      (sum want : Bytes) → same_checksum base64 sha256_sum checksum sum want ≡ ok tt → want ≡ sum
  right_digest sum want h = elim (Bool-cases (bytes_eq want sum)) [
    | inl same ↦ (bytes_eq_iff want sum).0 same
    | inr other ↦
        let no : ◌≡◌ {A = Result BodyError (Unit {0})} (err wrong_digest) (ok tt) = rw other at h in
        cc
  ]

  right_checksum :
      (algo : Bytes) (o : Option Bytes) (body expected : Bytes)
      → (verify_checksum base64 sha256_sum checksum algo (write_hash body o) expected ≡ ok tt) ↔ (
          expected ≢ []
          → Holds o (λ before. base64 expected ≡ some (checksum algo (before ++ body))))
  right_checksum algo none body expected = (λ h n. tt, λ h. refl)
  right_checksum algo (some before) body [] = (λ h n. absurd (n refl), λ h. refl)
  right_checksum algo (some before) body (c ∷ e) = (
    λ h n.
        let (want, p, h1) =
          or_refuse-ok (base64 (c ∷ e)) malformed_digest
            (same_checksum base64 sha256_sum checksum (checksum algo (before ++ body))) h in
        rw p (ap some (right_digest (checksum algo (before ++ body)) want h1)),
    λ h. rw (h (λ k. cc), bytes_eq_refl (checksum algo (before ++ body))) refl,
  )

  -- The client gives no checksum, or one that is the sum of the bytes, if its hash runs.
  abbrev pub Checked : PayloadChecker → Bytes → Type 0
  Checked pc body =
      ((v : Bytes) → ¬ Gives pc v)
      ⊎ ((v : Bytes) × Gives pc v
          × Holds pc.checksum_hash
              (λ before. base64 v ≡ some (checksum pc.checksum_algo (before ++ body))))

  -- The body is what the client declared: its chunks, where it is chunked, are complete; and its size,
  -- its SHA-256, its MD5 and the checksum that the client gives, in the header or a trailer, are those
  -- of the bytes that were read.
  abbrev pub Matches : PayloadChecker → Bytes → ℕ → Bytes → Type 0
  Matches pc body size md5sum =
      Holds pc.chunked (λ b. b.complete ≡ true)
      × Holds pc.declared (λ d. size ≡ d)
      × Holds pc.sha256
          (λ before. hex_encode (sha256_sum (before ++ body)) ≡ to_lower pc.expected_sha)
      × Holds pc.expected_md5 (λ expected. expected ≡ md5sum)
      × Checked pc body

  checked :
      (pc : PayloadChecker) (body s : Bytes)
      → expected_checksum pc ≡ s
      → verify_checksum base64 sha256_sum checksum pc.checksum_algo
          (write_hash body pc.checksum_hash)
          s
        ≡ ok tt
      → Checked pc body
  checked pc body [] e h = inl (λ v g. g.0 (sym (Gives-expected pc v g) ∙ e))
  checked pc body (c ∷ s) e h =
      let given : Gives pc (c ∷ s) =
        rw (← e) (expected-Gives pc pc.expected_sum refl (λ n. empty-cons c s (sym e ∙ n))) in
      inr
        (c ∷ s, given, (right_checksum pc.checksum_algo pc.checksum_hash body (c ∷ s)).0 h given.0)

  passes :
      (pc : PayloadChecker) (body : Bytes)
      → Checked pc body
      → verify_checksum base64 sha256_sum checksum pc.checksum_algo
          (write_hash body pc.checksum_hash)
          (expected_checksum pc)
        ≡ ok tt
  passes pc body (inl n) =
      (right_checksum pc.checksum_algo pc.checksum_hash body (expected_checksum pc)).1
        (λ k. absurd (n _ (expected-Gives pc pc.expected_sum refl k)))
  passes pc body (inr (v, g, h)) =
      rw (Gives-expected pc v g)
        ((right_checksum pc.checksum_algo pc.checksum_hash body v).1 (λ k. h))

  -- A body that was read through the hashes of the checker is accepted exactly when its chunks, where it
  -- is chunked, are complete, and its size, its MD5, the SHA-256 of its bytes and the checksum of its
  -- bytes are those that were declared, each where it was declared and its hash runs; the checksum may be
  -- declared in the header or else in the trailer of the chunked body.
  pub verify_payload-Matches :
      (pc : PayloadChecker) (body : Bytes) (size : ℕ) (md5sum : Bytes)
      → (verify_payload base64 sha256_sum checksum (wrap body pc) size md5sum ≡ ok tt)
        ↔ Matches pc body size md5sum
  unfolding verify_payload wrap
  verify_payload-Matches pc body size md5sum = (
    λ h.
        let (p1, h1) = refuse_if-ok (is_cut_off pc.chunked) incomplete_chunked_body _ h in
        let (p2, h2) = refuse_if-ok (is_wrong_size pc.declared size) incomplete_content _ h1 in
        let (p3, h3) =
          refuse_if-ok (is_wrong_sha sha256_sum (write_hash body pc.sha256) pc.expected_sha)
            payload_sha256 _ h2 in
        let (p4, h4) = refuse_if-ok (is_wrong_md5 pc.expected_md5 md5sum) wrong_digest _ h3 in
        (
          (complete_body pc.chunked).0 p1,
          (right_size pc.declared size).0 p2,
          (right_sha sha256_sum pc.sha256 body pc.expected_sha).0 p3,
          (right_md5 pc.expected_md5 md5sum).0 p4,
          checked pc body (expected_checksum pc) refl (rw (expected-wrap pc body) at h4),
        ),
    λ m.
        let (p1, p2, p3, p4, p5) = m in
        rw
          (
            (complete_body pc.chunked).1 p1,
            (right_size pc.declared size).1 p2,
            (right_sha sha256_sum pc.sha256 body pc.expected_sha).1 p3,
            (right_md5 pc.expected_md5 md5sum).1 p4,
            expected-wrap pc body,
          )
          (passes pc body p5),
  )
