-- ===== src/S3Err.antt =====
-- s3err/errors.go: the errors of the S3 interface and the answers that report them.
use cloodsy_s.Prelude.{ℕ, [], ◌++◌, Bytes, codes}

pub record S3Error : Type 0 where
  pub http_status : ℕ
  pub code : Bytes
  pub message : Bytes

-- The document of an error, without the XML around it.
pub record ErrorResponse : Type 0 where
  pub http_status : ℕ
  pub code : Bytes
  pub message : Bytes
  pub resource : Bytes
  pub region : Bytes
  pub request_id : Bytes
  pub host_id : Bytes

-- What a handler hands to `write`: the error, the message and the region.
pub record Refusal : Type 0 where
  pub error : S3Error
  pub text : Bytes
  pub expected_region : Bytes

abbrev pub access_denied : S3Error
access_denied = record {
  http_status = 403;
  code = codes "AccessDenied";
  message = codes "Access Denied";
}

abbrev pub authorization_header_malformed : S3Error
authorization_header_malformed = record {
  http_status = 400;
  code = codes "AuthorizationHeaderMalformed";
  message = codes "The authorization header is malformed.";
}

abbrev pub bad_digest : S3Error
bad_digest = record {
  http_status = 400;
  code = codes "BadDigest";
  message =
      codes
        "The Content-MD5 or checksum value that you specified did not match what the server received.";
}

abbrev pub bucket_already_exists : S3Error
bucket_already_exists = record {
  http_status = 409;
  code = codes "BucketAlreadyExists";
  message = codes "The requested bucket name is not available.";
}

abbrev pub bucket_already_owned_by_you : S3Error
bucket_already_owned_by_you = record {
  http_status = 409;
  code = codes "BucketAlreadyOwnedByYou";
  message =
      codes "Your previous request to create the named bucket succeeded and you already own it.";
}

abbrev pub bucket_not_empty : S3Error
bucket_not_empty = record {
  http_status = 409;
  code = codes "BucketNotEmpty";
  message = codes "The bucket you tried to delete is not empty.";
}

abbrev pub entity_too_large : S3Error
entity_too_large = record {
  http_status = 400;
  code = codes "EntityTooLarge";
  message = codes "Your proposed upload exceeds the maximum allowed object size.";
}

abbrev pub entity_too_small : S3Error
entity_too_small = record {
  http_status = 400;
  code = codes "EntityTooSmall";
  message = codes "Your proposed upload is smaller than the minimum allowed object size.";
}

abbrev pub incomplete_body : S3Error
incomplete_body = record {
  http_status = 400;
  code = codes "IncompleteBody";
  message =
      codes "You did not provide the number of bytes specified by the Content-Length HTTP header.";
}

abbrev pub internal_error : S3Error
internal_error = record {
  http_status = 500;
  code = codes "InternalError";
  message = codes "We encountered an internal error. Please try again.";
}

abbrev pub invalid_access_key_id : S3Error
invalid_access_key_id = record {
  http_status = 403;
  code = codes "InvalidAccessKeyId";
  message = codes "The AWS Access Key Id you provided does not exist in our records.";
}

abbrev pub invalid_argument : S3Error
invalid_argument = record {
  http_status = 400;
  code = codes "InvalidArgument";
  message = codes "Invalid Argument.";
}

abbrev pub invalid_bucket_name : S3Error
invalid_bucket_name = record {
  http_status = 400;
  code = codes "InvalidBucketName";
  message = codes "The specified bucket is not valid.";
}

abbrev pub invalid_digest : S3Error
invalid_digest = record {
  http_status = 400;
  code = codes "InvalidDigest";
  message = codes "The Content-MD5 or checksum value that you specified is not valid.";
}

abbrev pub invalid_part : S3Error
invalid_part = record {
  http_status = 400;
  code = codes "InvalidPart";
  message = codes "One or more of the specified parts could not be found.";
}

abbrev pub invalid_part_order : S3Error
invalid_part_order = record {
  http_status = 400;
  code = codes "InvalidPartOrder";
  message = codes "The list of parts was not in ascending order.";
}

abbrev pub invalid_range : S3Error
invalid_range = record {
  http_status = 416;
  code = codes "InvalidRange";
  message = codes "The requested range is not satisfiable.";
}

abbrev pub invalid_request : S3Error
invalid_request = record {
  http_status = 400;
  code = codes "InvalidRequest";
  message = codes "Invalid Request.";
}

abbrev pub key_too_long : S3Error
key_too_long = record {
  http_status = 400;
  code = codes "KeyTooLongError";
  message = codes "Your key is too long.";
}

abbrev pub malformed_xml : S3Error
malformed_xml = record {
  http_status = 400;
  code = codes "MalformedXML";
  message =
      codes
        "The XML you provided was not well-formed or did not validate against our published schema.";
}

abbrev pub metadata_too_large : S3Error
metadata_too_large = record {
  http_status = 400;
  code = codes "MetadataTooLarge";
  message = codes "Your metadata headers exceed the maximum allowed metadata size.";
}

abbrev pub method_not_allowed : S3Error
method_not_allowed = record {
  http_status = 405;
  code = codes "MethodNotAllowed";
  message = codes "The specified method is not allowed against this resource.";
}

abbrev pub missing_content_length : S3Error
missing_content_length = record {
  http_status = 411;
  code = codes "MissingContentLength";
  message = codes "You must provide the Content-Length HTTP header.";
}

abbrev pub missing_security_header : S3Error
missing_security_header = record {
  http_status = 400;
  code = codes "MissingSecurityHeader";
  message = codes "Your request was missing a required header.";
}

abbrev pub no_such_bucket : S3Error
no_such_bucket = record {
  http_status = 404;
  code = codes "NoSuchBucket";
  message = codes "The specified bucket does not exist.";
}

abbrev pub no_such_key : S3Error
no_such_key = record {
  http_status = 404;
  code = codes "NoSuchKey";
  message = codes "The specified key does not exist.";
}

abbrev pub no_such_lifecycle_configuration : S3Error
no_such_lifecycle_configuration = record {
  http_status = 404;
  code = codes "NoSuchLifecycleConfiguration";
  message = codes "The lifecycle configuration does not exist.";
}

abbrev pub no_such_upload : S3Error
no_such_upload = record {
  http_status = 404;
  code = codes "NoSuchUpload";
  message = codes "The specified multipart upload does not exist.";
}

abbrev pub no_such_version : S3Error
no_such_version = record {
  http_status = 404;
  code = codes "NoSuchVersion";
  message = codes "The specified version does not exist.";
}

abbrev pub not_implemented : S3Error
not_implemented = record {
  http_status = 501;
  code = codes "NotImplemented";
  message = codes "A header or query you provided implies functionality that is not implemented.";
}

abbrev pub precondition_failed : S3Error
precondition_failed = record {
  http_status = 412;
  code = codes "PreconditionFailed";
  message = codes "At least one of the pre-conditions you specified did not hold.";
}

abbrev pub quota_exceeded : S3Error
quota_exceeded = record {
  http_status = 403;
  code = codes "QuotaExceeded";
  message = codes "The bucket quota has been exceeded.";
}

abbrev pub request_time_too_skewed : S3Error
request_time_too_skewed = record {
  http_status = 403;
  code = codes "RequestTimeTooSkewed";
  message = codes "The difference between the request time and the current time is too large.";
}

abbrev pub signature_does_not_match : S3Error
signature_does_not_match = record {
  http_status = 403;
  code = codes "SignatureDoesNotMatch";
  message = codes "The request signature we calculated does not match the signature you provided.";
}

abbrev pub x_amz_content_sha256_mismatch : S3Error
x_amz_content_sha256_mismatch = record {
  http_status = 400;
  code = codes "XAmzContentSHA256Mismatch";
  message = codes "The provided 'x-amz-content-sha256' header does not match what was computed.";
}

-- The document that `write` sends for a request to `path`.
unfoldable pub error_response : Bytes → Bytes → Refusal → ErrorResponse
error_response path request_id r = record {
  http_status = r.error.http_status;
  code = r.error.code;
  message = r.text;
  resource = path;
  region = r.expected_region;
  request_id = request_id;
  host_id = codes "cloodsys3";
}

-- `WriteErrorMsg`
abbrev pub with_message : S3Error → Bytes → Refusal
with_message e text = record { error = e; text = text; expected_region = [] }

-- `WriteError`
abbrev pub plain : S3Error → Refusal
plain e = with_message e e.message

-- `WriteRegionError`
abbrev pub wrong_region : Bytes → Refusal
wrong_region region = record {
  error = authorization_header_malformed;
  text =
      codes "The authorization header is malformed; the region is wrong; expecting '"
      ++ (region ++ codes "'.");
  expected_region = region;
}
