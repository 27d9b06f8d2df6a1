-- ===== src/Handler/Payload.antt =====
-- handler/common.go: the comparison of a received body with what the client declared about it. A hash
-- that is not finished is kept as the bytes written to it; the hash functions and base64 decoding are
-- parameters.
pub mod Intact
use cloodsy_s.Prelude.{
  ℕ, ◌==◌, Bool, true, false, not, Option, none, some, List, [], ◌∷◌, ◌++◌, Bytes, bytes_eq, codes,
  non_empty, to_lower, hex_encode, if◌then◌else◌,
}
use cloodsy_s.Prelude.Result.{Result, ok, err, ◌>>=◌, ◌>>◌, refuse_if, or_refuse}

pub data BodyError : Type 0 where
  incomplete_chunked_body incomplete_content payload_sha256 wrong_digest malformed_digest :
      BodyError

-- A chunked body: whether its final chunk was consumed, and its trailers.
pub record ChunkedBody : Type 0 where
  pub complete : Bool
  pub trailers : List (Bytes × Bytes)

-- `declared` is none where the code keeps -1.
pub record PayloadChecker : Type 0 where
  pub chunked : Option ChunkedBody
  pub sha256 : Option Bytes
  pub expected_sha : Bytes
  pub expected_md5 : Option Bytes
  pub checksum_algo : Bytes
  pub checksum_hash : Option Bytes
  pub expected_sum : Bytes
  pub declared : Option ℕ

abbrev pub is_cut_off : Option ChunkedBody → Bool
is_cut_off none = false
is_cut_off (some c) = not c.complete

abbrev pub is_wrong_size : Option ℕ → ℕ → Bool
is_wrong_size none size = false
is_wrong_size (some n) size = not (size == n)

abbrev pub write_hash : Bytes → Option Bytes → Option Bytes
write_hash body none = none
write_hash body (some written) = some (written ++ body)

-- `wrap`: what reading a body through the tee leaves in the hashes.
unfoldable pub wrap : Bytes → PayloadChecker → PayloadChecker
wrap body pc = record pc {
  sha256 = write_hash body pc.sha256;
  checksum_hash = write_hash body pc.checksum_hash;
}

abbrev pub is_wrong_sha : (Bytes → Bytes) → Option Bytes → Bytes → Bool
is_wrong_sha sum none expected = false
is_wrong_sha sum (some written) expected =
    not (bytes_eq (hex_encode (sum written)) (to_lower expected))

abbrev pub is_wrong_md5 : Option Bytes → Bytes → Bool
is_wrong_md5 none md5sum = false
is_wrong_md5 (some expected) md5sum = not (bytes_eq expected md5sum)

unfoldable pub trailer_value : List (Bytes × Bytes) → Bytes → Bytes
trailer_value [] name = []
trailer_value ((n, v) ∷ fields) name = if bytes_eq n name then v else trailer_value fields name

abbrev pub announced_trailer : Option ChunkedBody → Bytes → Bytes
announced_trailer none name = []
announced_trailer (some c) name = trailer_value c.trailers name

-- The header's checksum, or else the trailer's.
unfoldable pub expected_checksum : PayloadChecker → Bytes
expected_checksum pc =
    if non_empty pc.expected_sum
    then pc.expected_sum
    else announced_trailer pc.chunked (codes "x-amz-checksum-" ++ pc.checksum_algo)

-- The sums of SHA-256, and of the checksum's algorithm, of the bytes written.
module _ (base64 : Bytes → Option Bytes) (sha256_sum : Bytes → Bytes)
    (checksum : Bytes → Bytes → Bytes) where
  abbrev pub same_checksum : Bytes → Bytes → Result BodyError (Unit {0})
  same_checksum sum want = refuse_if (not (bytes_eq want sum)) wrong_digest

  abbrev pub verify_checksum : Bytes → Option Bytes → Bytes → Result BodyError (Unit {0})
  verify_checksum algo none expected = ok tt
  verify_checksum algo (some written) [] = ok tt
  verify_checksum algo (some written) (c ∷ expected) =
      or_refuse (base64 (c ∷ expected)) malformed_digest >>= same_checksum (checksum algo written)

  unfoldable pub verify_payload : PayloadChecker → ℕ → Bytes → Result BodyError (Unit {0})
  verify_payload pc size md5sum =
      refuse_if (is_cut_off pc.chunked) incomplete_chunked_body
      >> (refuse_if (is_wrong_size pc.declared size) incomplete_content
          >> (refuse_if (is_wrong_sha sha256_sum pc.sha256 pc.expected_sha) payload_sha256
              >> (refuse_if (is_wrong_md5 pc.expected_md5 md5sum) wrong_digest
                  >> verify_checksum pc.checksum_algo pc.checksum_hash (expected_checksum pc))))
