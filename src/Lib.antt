-- ===== src/Lib.antt =====
-- Verification library of Cloodsy-S3, an S3-compatible object store: a Go server that keeps objects
-- as files and their metadata in SQLite.
--
-- The parts of the program. Requests enter at server/router.go and are authenticated by
-- handler/common.go with auth/; the handlers of handler/ call service/objects.go, which writes files
-- through storage/ and rows through db/; lifecycle/cleaner.go expires objects, webhook/dispatcher.go
-- sends events, image/ scales pictures, webdav/ and admin/ are further entries to the same service.
-- Modelled here are the way of a request from the router to a handler: the route, the bucket and the
-- key, the verification of its signature and the access that follows from it, the decoding of a
-- chunked body, ranges and conditions, multipart uploads and the listing of versions; the logins of
-- WebDAV; the lifecycle cleaner; and below the handlers the writes, deletions and the quota check of the object service, the
-- metadata store, the files and their paths, and the rounding of image parameters.
--
-- Which file models what:
--   Prelude             shared names; byte strings, lists over native numbers and their laws; the
--                       functions of Go's strings, strconv, encoding/hex and unicode/utf8 that the
--                       code uses; results that may be an error (Prelude.Result)
--   S3Err               s3err/errors.go: the errors and the answer that reports one
--   Server.Router       the dispatch of `ServeHTTP` in server/router.go
--   Server.Resolve      `resolve` of server/router.go, with `net.SplitHostPort`
--   Server.Masking      `maskPresignedQuery` of server/router.go
--   Auth.Request        what auth/ reads of an HTTP request
--   Auth.Result         the errors of auth/
--   Auth.SigTime        `time.Parse` in the layout of SigV4: nanoseconds since the year 0
--   Auth.Parsing        auth/credentials.go: the Authorization header, presigned queries, expiry
--   Auth.Canonical      the canonical request of auth/sigv4.go
--   Auth.Verify         `VerifySignature` and `VerifyPresignedSignature` of auth/sigv4.go
--   Handler.Access      handler/common.go: authentication against the tables, and bucket access
--   Handler.Objects     handler/object.go: the checks at the start of `PutObject` and `DeleteObject`
--   Handler.Validation  handler/common.go: names of buckets and objects, small parameters
--   Handler.Chunked     handler/chunked.go: the aws-chunked decoder over the whole body, on fuel: a
--                       chunk uses one unit of it and at least one byte of the body
--   Handler.Payload     `wrap` and `verify` of the `payloadChecker` of handler/common.go
--   Handler.Multipart   handler/multipart.go: the checks of the requests on uploads, in Effects what they
--                       do after them, and in Completion the object that a completion leaves
--   Handler.Versions    `ListObjectVersions` of handler/list_versions.go, on fuel
--   Handler.Ranges      `parseRange` of handler/object.go
--   Handler.Conditional `checkConditionalETag` and `etagMatch` of handler/s3_compat.go, and
--                       `ifRangeMatches` of handler/object.go
--   Storage.KeyPath     storage/keypath.go: the paths of keys
--   Storage.Files       storage/filesystem.go: the files as a map from paths to bytes, written at once
--   Storage.Parts       storage/filesystem.go: the staged parts of uploads and their assembly
--   Db.Query            the forms of SQL statements that db/metadata.go uses, as list functions:
--                       a table is the list of its rows in the order of their ids
--   Db.Prefix           `prefixUpperBound` and the range conditions of `listBatch`
--   Db.Objects          the `objects` table: `PutObjectMetaVersioned`, the lookups, the deletions,
--                       `DeleteVersionAndPromote`, the counts; children hold the invariant and laws
--   Db.Listing          `ListObjectsMeta`: batches, cursors, the roll-up of common prefixes,
--                       truncation and markers; children lead from one batch to a page, and from
--                       a page to the sequence of pages
--   Db.Versions         `ListObjectVersions` of db/metadata.go
--   Db.Multipart        the `multipart_uploads` and `multipart_parts` tables of db/metadata.go
--   Db.Expiry           the queries of db/ for the lifecycle cleaner, and the choice of a rule
--   Lifecycle.Cleaner   lifecycle/cleaner.go: one run over the rules, on fuel, which stands for the
--                       rounds before the context is cancelled
--   Service.Errors      `writeServiceError` of handler/common.go, with the errors that it answers
--   Service.Writes      `Put`, `Commit` and `Open` of service/objects.go over the table and the files
--   Service.Objects     `Delete` and `DeleteAllVersions` of service/objects.go: the table they leave
--                       and their calls of the file store and the webhooks, in order
--   Service.Quota       `checkQuota` of service/objects.go and the row that `Put` and `Commit` record
--   Webhook.Dispatcher  the queue of webhook/dispatcher.go, and the attempts of a delivery
--   Webdav.Limiter      the limiter of failed logins in webdav/auth.go
--   Webdav.BasicAuth    `basicAuth` of webdav/auth.go
--   Image.Params        `Quantize` and `roundUp` of image/limiter.go
--   Tests               runs on small inputs and the theorems applied there; its children hold those
--                       on requests, on chunked bodies, on routes, names and headers, on logins,
--                       webhooks and uploads, on pages of versions, and on the cleaner
--
-- Choices of the model. Strings are lists of bytes (numbers; that they are below 256 is a hypothesis
-- where it matters), compared as SQLite's BINARY collation compares them. A transaction is its
-- effect; I/O errors are left out, but that a query of the handlers may fail and that a body may end in an
-- error. Operations run one at a time, as the locks of keys and uploads order them. Ids, times and sizes are
-- unbounded numbers; numbers that are read from text are limited to 64 bits, as `strconv` limits them.
-- The outer loop of `ListObjectsMeta` runs on fuel: each round that goes on adds an entry, so `maxKeys`
-- rounds suffice. The loop of the handler for versions runs on fuel too, and need not end. `maxKeys` is a
-- natural number: the code takes a negative one for 0.
--
-- HMAC, SHA-256, MD5, base64 and `http.ParseTime` are parameters, and the clock and fresh ids are arguments. A
-- handler's answer is a result: the granted value or the refusal that it writes. The header names of a
-- request are in lower case, as `http.Header` folds them; the case functions are those on ASCII, as is
-- `strings.EqualFold` but in the test for the signed host, and spaces are the ASCII ones.
--
-- Not modelled: the other packages named above, the rest of webdav/, webhook/ and image/, and the parts of
-- db/ that are single statements without a rule of their own; the files' I/O, TLS, XML and image
-- libraries.
pub mod Handler
pub mod S3Err
pub mod Webdav
pub mod Webhook
pub mod Lifecycle
pub mod Prelude
pub mod Db
pub mod Service
pub mod Image
pub mod Server
pub mod Storage
pub mod Auth
mod Tests
