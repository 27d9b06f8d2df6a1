-- ===== src/Tests/Chunks.antt =====
-- Bodies in aws-chunked encoding, and the theorems on the decoder applied to them.
use cloodsy_s.Prelude.{
  ◌↔◌, Option, ◌≡◌, refl, none, some, List, [], ◌∷◌, ◌++◌, Bytes, codes, arith, cut_byte,
  trim_right, parse_int, trim_space, split_on, bytes_eq, hex_encode, true,
}
use cloodsy_s.Tests.Requests.{toy_hmac, toy_sha}
use cloodsy_s.Handler.Payload.{
  PayloadChecker, expected_checksum, verify_payload, trailer_value, wrap, wrong_digest,
}
use cloodsy_s.Handler.Payload.Intact.{Matches, verify_payload-Matches}
use cloodsy_s.Prelude.Result.{ok, err}
use cloodsy_s.Handler.Chunked.{
  ChunkSigner, Step, finished, failed, no_trailers, incomplete_chunked, decode, next_chunk,
  read_line, parse_header, consume_crlf, finish_trailers, read_trailers, chunk_sig, verify_chunk,
  expected_chunk_sig,
}
use cloodsy_s.Handler.Chunked.Termination.{IsEnd, decode-IsEnd}
use cloodsy_s.Handler.Chunked.Chain.{IsChained, decode-IsChained}

abbrev crlf : Bytes
crlf = 13 ∷ 10 ∷ []

abbrev plain_body : Bytes
plain_body = codes "4" ++ (crlf ++ (codes "Wiki" ++ (crlf ++ (codes "0" ++ (crlf ++ crlf)))))

decoded :
    decode toy_hmac toy_sha 20 none plain_body
    ≡ some ((codes "Wiki", []) ∷ [], finished [] no_trailers)
unfolding decode next_chunk read_line cut_byte parse_header trim_right parse_int trim_space
    consume_crlf finish_trailers read_trailers
decoded = refl

-- A body that ends before the final chunk is an error.
cut_off :
    decode toy_hmac toy_sha 20 none (codes "4" ++ (crlf ++ (codes "Wiki" ++ crlf)))
    ≡ some ((codes "Wiki", []) ∷ [], failed [] incomplete_chunked)
unfolding decode next_chunk read_line cut_byte parse_header trim_right parse_int trim_space
    consume_crlf
cut_off = refl

abbrev key_signer : ChunkSigner
key_signer = record {
  signing_key = codes "k";
  amz_date = codes "20260101T000000Z";
  scope = codes "scope";
  prev_sig = codes "415761";
}

abbrev signed_body : Bytes
signed_body =
    codes "2;chunk-signature=41576b"
    ++ (crlf ++ (codes "hi" ++ (crlf ++ (codes "0;chunk-signature=41576b" ++ (crlf ++ crlf)))))

decode-IsEnd_example :
    (d : List (Bytes × Bytes) × Step) × (decode toy_hmac toy_sha 100 (some key_signer) signed_body
      ≡ some d)
    × IsEnd toy_hmac toy_sha d.1
decode-IsEnd_example = decode-IsEnd toy_hmac toy_sha 100 (some key_signer) signed_body (omega arith)

decode-IsChained_example :
    IsChained toy_hmac toy_sha key_signer
      ((codes "hi", codes "41576b") ∷ [])
      (finished (codes "41576b") no_trailers)
unfolding decode next_chunk read_line cut_byte parse_header trim_right parse_int trim_space
    chunk_sig split_on bytes_eq consume_crlf verify_chunk expected_chunk_sig hex_encode
    finish_trailers read_trailers
decode-IsChained_example =
    decode-IsChained toy_hmac toy_sha 100 key_signer signed_body ((codes "hi", codes "41576b") ∷ [])
      (finished (codes "41576b") no_trailers) refl

abbrev uploaded : PayloadChecker
uploaded = record {
  chunked =
      some
        (record { complete = true; trailers = (codes "x-amz-checksum-crc32", codes "abcd") ∷ [] });
  sha256 = none;
  expected_sha = [];
  expected_md5 = some (codes "md5");
  checksum_algo = codes "crc32";
  checksum_hash = some [];
  expected_sum = [];
  declared = some 4;
}

abbrev toy_base64 : Bytes → Option Bytes
toy_base64 s = some s

abbrev toy_checksum : Bytes → Bytes → Bytes
toy_checksum algo s = s

verify_payload-Matches_example :
    (verify_payload toy_base64 toy_sha toy_checksum (wrap (codes "abcd") uploaded) 4 (codes "md5")
      ≡ ok tt)
    ↔ Matches toy_base64 toy_sha toy_checksum uploaded (codes "abcd") 4 (codes "md5")
verify_payload-Matches_example =
    verify_payload-Matches toy_base64 toy_sha toy_checksum uploaded (codes "abcd") 4 (codes "md5")

accepted :
    verify_payload toy_base64 toy_sha toy_checksum (wrap (codes "abcd") uploaded) 4 (codes "md5")
    ≡ ok tt
unfolding verify_payload wrap bytes_eq expected_checksum trailer_value
accepted = refl

refused_trailer :
    verify_payload toy_base64 toy_sha toy_checksum (wrap (codes "abce") uploaded) 4 (codes "md5")
    ≡ err wrong_digest
unfolding verify_payload wrap bytes_eq expected_checksum trailer_value
refused_trailer = refl
