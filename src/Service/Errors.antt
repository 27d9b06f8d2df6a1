-- ===== src/Service/Errors.antt =====
-- handler/common.go: `writeServiceError`, the answers to the errors of service/, storage/ and the body
-- readers. An error that wraps another one stands for it, as `errors.Is` finds it.
use cloodsy_s.Prelude.{codes}
use cloodsy_s.S3Err.{
  S3Error, Refusal, plain, with_message, bad_digest, entity_too_large, incomplete_body,
  internal_error, invalid_digest, invalid_request, no_such_key, no_such_version, quota_exceeded,
  signature_does_not_match, x_amz_content_sha256_mismatch,
}
use cloodsy_s.Handler.Chunked.{
  ChunkError, malformed_chunk, chunk_signature, chunk_too_large, incomplete_chunked,
}
use cloodsy_s.Handler.Payload.{
  BodyError, incomplete_chunked_body, incomplete_content, payload_sha256, wrong_digest,
  malformed_digest,
}

pub data ServiceError : Type 0 where
  api_error : S3Error → ServiceError
  too_large over_quota missing_key missing_version : ServiceError
  chunk_error : ChunkError → ServiceError
  body_error : BodyError → ServiceError
  other_error : ServiceError

abbrev pub chunk_refusal : ChunkError → Refusal
chunk_refusal incomplete_chunked = plain incomplete_body
chunk_refusal malformed_chunk = with_message invalid_request (codes "Malformed aws-chunked body.")
chunk_refusal chunk_too_large = with_message invalid_request (codes "Malformed aws-chunked body.")
chunk_refusal chunk_signature = plain signature_does_not_match

abbrev pub body_refusal : BodyError → Refusal
body_refusal incomplete_chunked_body = plain incomplete_body
body_refusal incomplete_content = plain incomplete_body
body_refusal payload_sha256 = plain x_amz_content_sha256_mismatch
body_refusal wrong_digest = plain bad_digest
body_refusal malformed_digest = plain invalid_digest

-- `writeServiceError`
unfoldable pub service_refusal : ServiceError → Refusal
service_refusal (api_error e) = plain e
service_refusal too_large = plain entity_too_large
service_refusal over_quota = plain quota_exceeded
service_refusal missing_key = plain no_such_key
service_refusal missing_version = plain no_such_version
service_refusal (chunk_error e) = chunk_refusal e
service_refusal (body_error e) = body_refusal e
service_refusal other_error = plain internal_error
