-- ===== src/Handler/Chunked.antt =====
-- handler/chunked.go: the aws-chunked decoder. The body is read at once; how the reader's buffers cut
-- a chunk's data makes no difference to it. HMAC and SHA-256 are parameters.
pub mod Termination
pub mod Chain
use mathlib.Core.Option
use cloodsy_s.Prelude.{
  ℕ, zero, suc, ◌==◌, ltb, leb, Bool, true, false, not, ◌&&◌, ◌||◌, Option, none, some, List, [],
  ◌∷◌, ◌++◌, take, drop, length, Bytes, bytes_eq, codes, non_empty, split_on, cut_byte, trim_space,
  trim_right, to_lower, parse_int, ℤ, pos, negsuc, hex_encode, if◌then◌else◌,
}
use cloodsy_s.Auth.Parsing.{SigV4Auth}
use cloodsy_s.Auth.Verify.{derive_signing_key}
use cloodsy_s.Prelude.Result.{Result, ok, err, ◌>>=◌, ◌>>◌, refuse_if}

pub data ChunkError : Type 0 where
  malformed_chunk chunk_signature chunk_too_large incomplete_chunked : ChunkError

pub record ChunkSigner : Type 0 where
  pub signing_key : Bytes
  pub amz_date : Bytes
  pub scope : Bytes
  pub prev_sig : Bytes

abbrev pub max_chunk_header_line : ℕ
max_chunk_header_line = 4096

abbrev pub max_chunk_size : ℕ
max_chunk_size = 5368709120

-- A line and what follows it, the end of the body, or an error.
pub data Line : Type 0 where
  line : Bytes → Bytes → Line
  end_of_body : Line
  bad_line : ChunkError → Line

abbrev pub is_eol : ℕ → Bool
is_eol c = c == 13 || c == 10

abbrev pub unfinished_line : Bytes → Line
unfinished_line body =
    if ltb max_chunk_header_line (length body)
    then bad_line malformed_chunk
    else if non_empty body
    then bad_line incomplete_chunked
    else end_of_body

abbrev pub line_of : Bytes → Option (Bytes × Bytes) → Line
line_of body none = unfinished_line body
line_of body (some (text, rest)) =
    if leb max_chunk_header_line (length text)
    then bad_line malformed_chunk
    else line (trim_right is_eol text) rest

unfoldable pub read_line : Bytes → Line
read_line body = line_of body (cut_byte 10 body)

-- The value of `chunk-signature` among the extensions; the last one counts.
abbrev pub signature_of : Option (Bytes × Bytes) → Bytes → Bytes
signature_of none sig = sig
signature_of (some (k, v)) sig = if bytes_eq k (codes "chunk-signature") then v else sig

unfoldable pub chunk_sig : List Bytes → Bytes → Bytes
chunk_sig [] sig = sig
chunk_sig (ext ∷ exts) sig = chunk_sig exts (signature_of (cut_byte b'=' (trim_space ext)) sig)

abbrev pub chunk_size : Option ℤ → Result ChunkError ℕ
chunk_size (some (pos n)) = if ltb max_chunk_size n then err chunk_too_large else ok n
chunk_size (some (negsuc n)) = err malformed_chunk
chunk_size none = err malformed_chunk

abbrev pub header_parts : Bytes → Option (Bytes × Bytes) → Result ChunkError (ℕ × Bytes)
header_parts text none = chunk_size (parse_int 16 (trim_space text)) >>= λ n. ok (n, [])
header_parts text (some (size, exts)) =
    chunk_size (parse_int 16 (trim_space size)) >>= λ n. ok (n, chunk_sig (split_on b';' exts) [])

-- The size and the signature that a chunk's header line gives.
unfoldable pub parse_header : Bytes → Result ChunkError (ℕ × Bytes)
parse_header text = header_parts text (cut_byte b';' text)

unfoldable pub consume_crlf : Bytes → Option Bytes
consume_crlf [] = none
consume_crlf (c ∷ []) = if c == 10 then some [] else none
consume_crlf (c ∷ d ∷ rest) =
    if c == 13 && d == 10 then some rest else if c == 10 then some (d ∷ rest) else none

-- The trailers read so far, newest first, their signature, and their canonical form.
pub record Trailers : Type 0 where
  pub fields : List (Bytes × Bytes)
  pub trailer_sig : Bytes
  pub canonical : Bytes

abbrev pub no_trailers : Trailers
no_trailers = record { fields = []; trailer_sig = []; canonical = [] }

unfoldable pub add_trailer : Bytes → Bytes → Trailers → Trailers
add_trailer name value t =
    if bytes_eq name (codes "x-amz-trailer-signature")
    then (record t { trailer_sig = value })
    else (record t {
      fields = (name, value) ∷ t.fields;
      canonical = t.canonical ++ (name ++ (b':' ∷ value ++ (10 ∷ [])));
    })

-- The lines behind the final chunk, at most so many.
unfoldable pub read_trailers : ℕ → Trailers → Bytes → Result ChunkError Trailers
read_trailers zero t body = ok t
read_trailers (suc n) t body = elim (read_line body) [
  | end_of_body ↦ ok t
  | bad_line e ↦ err e
  | line text rest ↦ elim text [
    | [] ↦ ok t
    | c ∷ cs ↦ elim (cut_byte b':' (c ∷ cs)) [
      | none ↦ err malformed_chunk
      | some p ↦ read_trailers n (add_trailer (to_lower (trim_space p.0)) (trim_space p.1) t) rest
    ]
  ]
]

-- A chunk with its signature, the signer behind it and the unread body; the end with the last
-- signature and the trailers; or an error behind the data that was already handed out.
pub data Step : Type 0 where
  chunk : Bytes → Bytes → Option ChunkSigner → Bytes → Step
  finished : Bytes → Trailers → Step
  failed : Bytes → ChunkError → Step

abbrev pub needs_signature : Option ChunkSigner → Bytes → Bool
needs_signature none sig = false
needs_signature (some cs) sig = not (non_empty sig)

module _ (hmac_sha256 : Bytes → Bytes → Bytes) (sha256 : Bytes → Bytes) where
  -- `newChunkSigner`, for a request that was signed.
  unfoldable pub new_chunk_signer : Bytes → SigV4Auth → Option ChunkSigner
  new_chunk_signer secret_key a =
      if not (non_empty a.amz_date) || not (non_empty a.scope)
      then none
      else some (record {
        signing_key = derive_signing_key hmac_sha256 sha256 secret_key a.date a.region (codes "s3");
        amz_date = a.amz_date;
        scope = a.scope;
        prev_sig = a.signature;
      })

  unfoldable pub chunk_string : ChunkSigner → Bytes → Bytes
  chunk_string cs hash =
      codes "AWS4-HMAC-SHA256-PAYLOAD"
      ++ (10 ∷ cs.amz_date
          ++ (10 ∷ cs.scope
              ++ (10 ∷ cs.prev_sig ++ (10 ∷ hex_encode (sha256 []) ++ (10 ∷ hex_encode hash)))))

  unfoldable pub expected_chunk_sig : ChunkSigner → Bytes → Bytes
  unfolding chunk_string
  expected_chunk_sig cs hash = hex_encode (hmac_sha256 cs.signing_key (chunk_string cs hash))

  unfoldable pub verify_chunk : ChunkSigner → Bytes → Bytes → Result ChunkError ChunkSigner
  verify_chunk cs sig hash =
      refuse_if (not (bytes_eq (expected_chunk_sig cs hash) sig)) chunk_signature
      >> ok (record cs { prev_sig = sig })

  unfoldable pub verify_trailer : ChunkSigner → Bytes → Bytes → Result ChunkError (Unit {0})
  verify_trailer cs sig hash =
      refuse_if
        (not (
          bytes_eq
            (hex_encode (
              hmac_sha256 cs.signing_key (
                codes "AWS4-HMAC-SHA256-TRAILER"
                ++ (10 ∷ cs.amz_date
                    ++ (10 ∷ cs.scope ++ (10 ∷ cs.prev_sig ++ (10 ∷ hex_encode hash)))))))
            sig))
        chunk_signature

  -- Without a signer nothing is verified.
  abbrev pub checked : Option ChunkSigner → Bytes → Bytes → Result ChunkError (Option ChunkSigner)
  checked none sig content = ok none
  checked (some cs) sig content = verify_chunk cs sig (sha256 content) >>= λ cs'. ok (some cs')

  abbrev pub trailer_checked : Option ChunkSigner → Trailers → Result ChunkError (Unit {0})
  trailer_checked none t = ok tt
  trailer_checked (some cs) t =
      if non_empty t.trailer_sig || non_empty t.canonical
      then verify_trailer cs t.trailer_sig (sha256 t.canonical)
      else ok tt

  -- Everything after the header of the final chunk.
  unfoldable pub finish_trailers : Option ChunkSigner → Bytes → Bytes → Result ChunkError Trailers
  finish_trailers signer sig body = checked signer sig [] >>= λ signer'.
      read_trailers 32 no_trailers body >>= λ t. trailer_checked signer' t >> ok t

  abbrev pub ended : Bytes → Result ChunkError Trailers → Step
  ended sig (ok t) = finished sig t
  ended sig (err e) = failed [] e

  abbrev pub verified : Bytes → Bytes → Bytes → Result ChunkError (Option ChunkSigner) → Step
  verified content sig rest (ok signer) = chunk content sig signer rest
  verified content sig rest (err e) = failed content e

  abbrev pub after_data : Option ChunkSigner → Bytes → Bytes → Option Bytes → Step
  after_data signer sig content none = failed content malformed_chunk
  after_data signer sig content (some rest) = verified content sig rest (checked signer sig content)

  -- The data of a chunk of the size, or the end for the size 0.
  abbrev pub with_size : Option ChunkSigner → Bytes → Bytes → ℕ → Step
  with_size signer rest sig zero = ended sig (finish_trailers signer sig rest)
  with_size signer rest sig (suc n) =
      if ltb (length rest) (suc n)
      then failed rest incomplete_chunked
      else after_data signer sig (take (suc n) rest) (consume_crlf (drop (suc n) rest))

  abbrev pub with_header : Option ChunkSigner → Bytes → Result ChunkError (ℕ × Bytes) → Step
  with_header signer rest (err e) = failed [] e
  with_header signer rest (ok (size, sig)) =
      if needs_signature signer sig
      then failed [] chunk_signature
      else with_size signer rest sig size

  abbrev pub with_line : Option ChunkSigner → Line → Step
  with_line signer end_of_body = failed [] incomplete_chunked
  with_line signer (bad_line e) = failed [] e
  with_line signer (line text rest) = with_header signer rest (parse_header text)

  unfoldable pub next_chunk : Option ChunkSigner → Bytes → Step
  next_chunk signer body = with_line signer (read_line body)

  -- What a step comes to, given the decoder of the rest.
  abbrev pub after_step :
      (Option ChunkSigner → Bytes → Option (List (Bytes × Bytes) × Step))
      → Step
      → Option (List (Bytes × Bytes) × Step)
  after_step decode_rest (failed content e) = some ([], failed content e)
  after_step decode_rest (finished sig t) = some ([], finished sig t)
  after_step decode_rest (chunk content sig signer rest) =
      Option.map (λ d. ((content, sig) ∷ d.0, d.1)) (decode_rest signer rest)

  -- The chunks with their signatures, and the end: the trailers, or an error behind the last data.
  unfoldable pub decode : ℕ → Option ChunkSigner → Bytes → Option (List (Bytes × Bytes) × Step)
  decode zero signer body = none
  decode (suc fuel) signer body = after_step (decode fuel) (next_chunk signer body)
