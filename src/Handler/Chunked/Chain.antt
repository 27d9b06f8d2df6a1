-- ===== src/Handler/Chunked/Chain.antt =====
-- The chain of chunk signatures.
use mathlib.Core.Path.{subst}
use mathlib.Core.Option.{some-injective, none-ne-some}
use cloodsy_s.Prelude.{
  ℕ, zero, suc, ◌≡◌, inl, inr, refl, ltb, Option, none, some, List, [], ◌∷◌, take, drop, length,
  Bytes, bytes_eq, bytes_eq_iff, non_empty, Bool-cases, Option-cases,
}
use cloodsy_s.Prelude.Result.{Result, ok, err}
use cloodsy_s.Handler.Chunked.{
  ChunkError, ChunkSigner, Line, line, end_of_body, bad_line, read_line, parse_header, consume_crlf,
  Trailers, Step, chunk, finished, failed, expected_chunk_sig, verify_chunk, checked,
  finish_trailers, ended, verified, after_data, with_size, with_header, with_line, next_chunk,
  decode,
}
use cloodsy_s.Handler.Chunked.Termination.{Step-cases}

abbrev pub signed_by : ChunkSigner → Bytes → ChunkSigner
signed_by cs sig = record cs { prev_sig = sig }

module _ (hmac_sha256 : Bytes → Bytes → Bytes) (sha256 : Bytes → Bytes) where
  -- The signature is the one that the key gives to the content behind the previous signature.
  abbrev pub Signs : ChunkSigner → Bytes → Bytes → Type 0
  Signs cs content sig = expected_chunk_sig hmac_sha256 sha256 cs (sha256 content) ≡ sig

  abbrev IsVerified : ChunkSigner → Step → Type 0
  IsVerified cs (chunk content sig g rest) = Signs cs content sig × (g ≡ some (signed_by cs sig))
  IsVerified cs (finished sig t) = Signs cs [] sig
  IsVerified cs (failed content e) = Unit

  verified-IsVerified :
      (cs : ChunkSigner) (content sig rest : Bytes)
      → IsVerified cs (
          verified hmac_sha256 sha256 content sig rest
            (checked hmac_sha256 sha256 (some cs) sig content))
  unfolding verify_chunk
  verified-IsVerified cs content sig rest =
      elim (Bool-cases (bytes_eq (expected_chunk_sig hmac_sha256 sha256 cs (sha256 content)) sig)) [
        | inl same ↦ rw same ((bytes_eq_iff _ sig).0 same, refl)
        | inr other ↦ rw other tt
      ]

  ended-IsVerified :
      (cs : ChunkSigner) (sig : Bytes) (r : Result ChunkError Trailers)
      → Signs cs [] sig
      → IsVerified cs (ended hmac_sha256 sha256 sig r)
  ended-IsVerified cs sig (ok t) h = h
  ended-IsVerified cs sig (err e) h = tt

  finish_trailers-IsVerified :
      (cs : ChunkSigner) (sig body : Bytes)
      → IsVerified cs
          (ended hmac_sha256 sha256 sig (finish_trailers hmac_sha256 sha256 (some cs) sig body))
  unfolding finish_trailers verify_chunk
  finish_trailers-IsVerified cs sig body =
      elim (Bool-cases (bytes_eq (expected_chunk_sig hmac_sha256 sha256 cs (sha256 [])) sig)) [
        | inl same ↦ ended-IsVerified cs sig _ ((bytes_eq_iff _ sig).0 same)
        | inr other ↦ rw other tt
      ]

  after_data-IsVerified :
      (cs : ChunkSigner) (sig content : Bytes) (o : Option Bytes)
      → IsVerified cs (after_data hmac_sha256 sha256 (some cs) sig content o)
  after_data-IsVerified cs sig content none = tt
  after_data-IsVerified cs sig content (some rest) = verified-IsVerified cs content sig rest

  with_size-IsVerified :
      (cs : ChunkSigner) (body sig : Bytes) (size : ℕ)
      → IsVerified cs (with_size hmac_sha256 sha256 (some cs) body sig size)
  with_size-IsVerified cs body sig zero = finish_trailers-IsVerified cs sig body
  with_size-IsVerified cs body sig (suc n) = elim (Bool-cases (ltb (length body) (suc n))) [
    | inl short ↦ rw short tt
    | inr enough ↦
        rw enough
          (after_data-IsVerified cs sig (take (suc n) body) (consume_crlf (drop (suc n) body)))
  ]

  with_header-IsVerified :
      (cs : ChunkSigner) (body : Bytes) (r : Result ChunkError (ℕ × Bytes))
      → IsVerified cs (with_header hmac_sha256 sha256 (some cs) body r)
  with_header-IsVerified cs body (err e) = tt
  with_header-IsVerified cs body (ok (size, sig)) = elim (Bool-cases (non_empty sig)) [
    | inl given ↦ rw given (with_size-IsVerified cs body sig size)
    | inr missing ↦ rw missing tt
  ]

  with_line-IsVerified :
      (cs : ChunkSigner) (l : Line) → IsVerified cs (with_line hmac_sha256 sha256 (some cs) l)
  with_line-IsVerified cs end_of_body = tt
  with_line-IsVerified cs (bad_line e) = tt
  with_line-IsVerified cs (line text rest) = with_header-IsVerified cs rest (parse_header text)

  next_chunk-IsVerified :
      (cs : ChunkSigner) (body : Bytes)
      → IsVerified cs (next_chunk hmac_sha256 sha256 (some cs) body)
  unfolding next_chunk
  next_chunk-IsVerified cs body = with_line-IsVerified cs (read_line body)

  -- Every chunk is signed behind the one before it, and the final empty chunk behind the last.
  abbrev pub IsChained : ChunkSigner → List (Bytes × Bytes) → Step → Type 0
  IsChained cs [] end = IsVerified cs end
  IsChained cs ((content, sig) ∷ chunks) end =
      Signs cs content sig × IsChained (signed_by cs sig) chunks end

  -- Of a body that is decoded with a signer, every whole chunk, and the final empty chunk where decoding
  -- ends without an error, carries the signature that the key gives to its content behind the signature
  -- before it, the first of which is the signer's.
  pub decode-IsChained :
      (fuel : ℕ) (cs : ChunkSigner) (body : Bytes) (chunks : List (Bytes × Bytes)) (end : Step)
      → decode hmac_sha256 sha256 fuel (some cs) body ≡ some (chunks, end)
      → IsChained cs chunks end
  unfolding decode
  decode-IsChained zero cs body chunks end h = cc
  decode-IsChained (suc fuel) cs body chunks end h =
      elim (Step-cases (next_chunk hmac_sha256 sha256 (some cs) body)) [
        | inl (c, s, g, rest, e) ↦
            let (signs, onward) : IsVerified cs (chunk c s g rest) =
              subst (λ step. IsVerified cs step) e (next_chunk-IsVerified cs body) in
            elim (Option-cases (decode hmac_sha256 sha256 fuel g rest)) [
              | inl stuck ↦ absurd (none-ne-some _ (rw (e, stuck) at h))
              | inr (d, more) ↦
                  let it : ((c, s) ∷ d.0, d.1) ≡ (chunks, end) =
                    some-injective _ _ (rw (e, more) at h) in
                  let later =
                    decode-IsChained fuel (signed_by cs s) rest d.0 d.1 (rw (← onward) more) in
                  subst (λ r. IsChained cs r.0 r.1) it (signs, later)
            ]
        | inr (inl (s, t, e)) ↦
            let it : ([], finished s t) ≡ (chunks, end) = some-injective _ _ (rw e at h) in
            let sound : IsVerified cs (finished s t) =
              subst (λ step. IsVerified cs step) e (next_chunk-IsVerified cs body) in
            subst (λ r. IsChained cs r.0 r.1) it sound
        | inr (inr (c, why, e)) ↦
            let it : ([], failed c why) ≡ (chunks, end) = some-injective _ _ (rw e at h) in
            subst (λ r. IsChained cs r.0 r.1) it tt
      ]
