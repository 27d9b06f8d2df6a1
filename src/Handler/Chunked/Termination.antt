-- ===== src/Handler/Chunked/Termination.antt =====
-- Every chunk takes bytes of the body, so that decoding ends.
use mathlib.Core.Option.{some-injective}
use cloodsy_s.Prelude.{
  ℕ, zero, suc, ◌≤◌, ◌<◌, ◌≡◌, ◌≢◌, ◌⊎◌, inl, inr, refl, ltb, leb, ◌==◌, ◌&&◌, Option, none, some,
  List, [], ◌∷◌, take, drop, length, length-append, arith, Bytes, cut_byte, trim_right,
  cut_byte_sound, Bool-cases, Option-cases,
}
use cloodsy_s.Prelude.Result.{Result, ok, err}
use cloodsy_s.Handler.Chunked.{
  ChunkError, malformed_chunk, is_eol, ChunkSigner, Line, line, end_of_body, bad_line,
  unfinished_line, max_chunk_header_line, read_line, parse_header, consume_crlf, Trailers, Step,
  chunk, finished, failed, incomplete_chunked, chunk_signature, needs_signature, checked,
  finish_trailers, ended, verified, after_data, with_size, with_header, with_line, next_chunk,
  decode,
}

unfinished-ne-line : (body text rest : Bytes) → unfinished_line body ≢ line text rest
unfinished-ne-line body text rest h = ground arith

read_line-shorter :
    (body text rest : Bytes) → read_line body ≡ line text rest → length rest < length body
unfolding read_line
read_line-shorter body text rest h = elim (Option-cases (cut_byte 10 body)) [
  | inl e ↦ absurd (unfinished-ne-line body text rest (rw e at h))
  | inr (p, e) ↦ elim (Bool-cases (leb max_chunk_header_line (length p.0))) [
    | inl long ↦ let no : bad_line malformed_chunk ≡ line text rest = rw (e, long) at h in cc
    | inr fits ↦
        let it : line (trim_right is_eol p.0) p.1 ≡ line text rest = rw (e, fits) at h in
        let same : p.1 ≡ rest = cc in
        let whole = (cut_byte_sound 10 body p e).0 in
        rw (← same, whole, length-append p.0 (10 ∷ p.1)) (omega arith)
  ]
]

length-drop : (n : ℕ) (s : Bytes) → length (drop n s) ≤ length s
length-drop zero s = omega arith
length-drop (suc n) [] = omega arith
length-drop (suc n) (c ∷ s) = let ih = length-drop n s in omega arith

consume_crlf-shorter : (s r : Bytes) → consume_crlf s ≡ some r → length r ≤ length s
unfolding consume_crlf
consume_crlf-shorter [] r h = cc
consume_crlf-shorter (c ∷ []) r h = ground arith
consume_crlf-shorter (c ∷ d ∷ s) r h = elim (Bool-cases (c == 13 && d == 10)) [
  | inl crlf ↦ let it : s ≡ r = some-injective _ _ (rw crlf at h) in rw (← it) (omega arith)
  | inr e ↦ elim (Bool-cases (c == 10)) [
    | inl lf ↦ let it : d ∷ s ≡ r = some-injective _ _ (rw (e, lf) at h) in rw (← it) (omega arith)
    | inr other ↦ let no : none ≡ some r = rw (e, other) at h in cc
  ]
]

pub Step-cases :
    (step : Step)
    → ((c : Bytes) × (s : Bytes) × (g : Option ChunkSigner) × (rest : Bytes) × (step
          ≡ chunk c s g rest))
      ⊎ (((s : Bytes) × (t : Trailers) × (step ≡ finished s t))
          ⊎ ((c : Bytes) × (e : ChunkError) × (step ≡ failed c e)))
Step-cases (chunk c s g rest) = inl (c, s, g, rest, refl)
Step-cases (finished s t) = inr (inl (s, t, refl))
Step-cases (failed c e) = inr (inr (c, e, refl))

module _ (hmac_sha256 : Bytes → Bytes → Bytes) (sha256 : Bytes → Bytes) where
  verified_rest :
      (content sig rest : Bytes) (r : Result ChunkError (Option ChunkSigner)) {c s : Bytes}
      {g : Option ChunkSigner} {rest' : Bytes}
      → verified hmac_sha256 sha256 content sig rest r ≡ chunk c s g rest'
      → rest ≡ rest'
  verified_rest content sig rest (ok g) h = cc
  verified_rest content sig rest (err e) h = cc

  ended-ne-chunk :
      (sig : Bytes) (r : Result ChunkError Trailers) {c s : Bytes} {g : Option ChunkSigner}
      {rest' : Bytes}
      → ended hmac_sha256 sha256 sig r ≢ chunk c s g rest'
  ended-ne-chunk sig (ok t) h = cc
  ended-ne-chunk sig (err e) h = cc

  -- The rest that a step leaves has at most so many bytes.
  abbrev LeavesAtMost : ℕ → Step → Type 0
  LeavesAtMost n step =
      (c s : Bytes) (g : Option ChunkSigner) (rest : Bytes)
      → step ≡ chunk c s g rest
      → length rest ≤ n

  failed-LeavesAtMost : (n : ℕ) (c : Bytes) (e : ChunkError) → LeavesAtMost n (failed c e)
  failed-LeavesAtMost n c e c' s g rest h = cc

  after_data-LeavesAtMost :
      (signer : Option ChunkSigner) (sig content body : Bytes)
      → LeavesAtMost
          (length body)
          (after_data hmac_sha256 sha256 signer sig content (consume_crlf body))
  after_data-LeavesAtMost signer sig content body c s g rest h =
      elim (Option-cases (consume_crlf body)) [
        | inl e ↦ let no : failed content malformed_chunk ≡ chunk c s g rest = rw e at h in cc
        | inr (r, e) ↦
            let it : r ≡ rest =
              verified_rest content sig r (checked hmac_sha256 sha256 signer sig content)
                (rw e at h) in
            rw (← it) (consume_crlf-shorter body r e)
      ]

  with_size-LeavesAtMost :
      (signer : Option ChunkSigner) (body sig : Bytes) (size : ℕ)
      → LeavesAtMost (length body) (with_size hmac_sha256 sha256 signer body sig size)
  with_size-LeavesAtMost signer body sig zero c s g rest h =
      absurd (ended-ne-chunk sig (finish_trailers hmac_sha256 sha256 signer sig body) h)
  with_size-LeavesAtMost signer body sig (suc n) c s g rest h =
      elim (Bool-cases (ltb (length body) (suc n))) [
        | inl short ↦
            let no : failed body incomplete_chunked ≡ chunk c s g rest = rw short at h in cc
        | inr enough ↦
            let most =
              after_data-LeavesAtMost signer sig (take (suc n) body) (drop (suc n) body) c s g rest
                (rw enough at h) in
            let fewer = length-drop (suc n) body in omega arith
      ]

  with_header-LeavesAtMost :
      (signer : Option ChunkSigner) (body : Bytes) (r : Result ChunkError (ℕ × Bytes))
      → LeavesAtMost (length body) (with_header hmac_sha256 sha256 signer body r)
  with_header-LeavesAtMost signer body (err e) c s g rest h = cc
  with_header-LeavesAtMost signer body (ok (size, sig)) c s g rest h =
      elim (Bool-cases (needs_signature signer sig)) [
        | inl unsigned ↦
            let no : failed [] chunk_signature ≡ chunk c s g rest = rw unsigned at h in cc
        | inr signed ↦ with_size-LeavesAtMost signer body sig size c s g rest (rw signed at h)
      ]

  with_line-shorter :
      (signer : Option ChunkSigner) (body : Bytes) (l : Line) (c s : Bytes) (g : Option ChunkSigner)
      (rest : Bytes)
      → read_line body ≡ l
      → with_line hmac_sha256 sha256 signer l ≡ chunk c s g rest
      → length rest < length body
  with_line-shorter signer body end_of_body c s g rest e h = cc
  with_line-shorter signer body (bad_line why) c s g rest e h = cc
  with_line-shorter signer body (line text after) c s g rest e h =
      let shorter = read_line-shorter body text after e in
      let most = with_header-LeavesAtMost signer after (parse_header text) c s g rest h in
      omega arith

  next_chunk-shorter :
      (signer : Option ChunkSigner) (body c s : Bytes) (g : Option ChunkSigner) (rest : Bytes)
      → next_chunk hmac_sha256 sha256 signer body ≡ chunk c s g rest
      → length rest < length body
  unfolding next_chunk
  next_chunk-shorter signer body c s g rest h =
      with_line-shorter signer body (read_line body) c s g rest refl h

  -- No decoding ends in the middle.
  abbrev pub IsEnd : Step → Type 0
  IsEnd (chunk c s g rest) = ⊥
  IsEnd (finished s t) = Unit
  IsEnd (failed c e) = Unit

  -- With more fuel than the body has bytes, decoding has a result for every body and signer: chunks,
  -- and an end that is the final chunk with its trailers or an error.
  pub decode-IsEnd :
      (fuel : ℕ) (signer : Option ChunkSigner) (body : Bytes)
      → length body < fuel
      → (d : List (Bytes × Bytes) × Step) × (decode hmac_sha256 sha256 fuel signer body ≡ some d)
        × IsEnd d.1
  unfolding decode
  decode-IsEnd zero signer body h = absurd (omega arith)
  decode-IsEnd (suc fuel) signer body h =
      elim (Step-cases (next_chunk hmac_sha256 sha256 signer body)) [
        | inl (c, s, g, rest, e) ↦
            let shorter = next_chunk-shorter signer body c s g rest e in
            let (d, ih, ends) = decode-IsEnd fuel g rest (omega arith) in
            (((c, s) ∷ d.0, d.1), rw (e, ih) refl, ends)
        | inr (inl (s, t, e)) ↦ (([], finished s t), rw e refl, tt)
        | inr (inr (c, why, e)) ↦ (([], failed c why), rw e refl, tt)
      ]
