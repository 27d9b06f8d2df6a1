-- ===== src/Handler/Objects.antt =====
-- handler/object.go: the checks before an object is written or deleted.
pub mod Guards
use cloodsy_s.Prelude.{ℕ, ltb, Bool, not, ◌||◌, Bytes, length, non_empty}
use cloodsy_s.Prelude.Result.{Result, ok, err, ◌>>=◌, ◌>>◌, refuse_if}
use cloodsy_s.S3Err.{Refusal, plain, key_too_long, invalid_argument, no_such_key}
use cloodsy_s.Auth.Request.{HttpRequest}
use cloodsy_s.Service.Objects.{Bucket}
use cloodsy_s.Handler.Validation.{max_key_length, is_valid_object_key}
use cloodsy_s.Handler.Access.{
  BucketCredential, Context, Signed, authenticate_request, check_bucket_access, check_write_access,
}

abbrev pub bad_key : Bytes → Bool
bad_key key = not (non_empty key) || not (is_valid_object_key key)

-- The bucket, for a credential that may write to it.
abbrev pub writable_bucket :
    Context → Bytes → BucketCredential → Result Refusal (Bucket × BucketCredential)
writable_bucket x bucket_name cred =
    check_write_access cred >> (check_bucket_access x cred bucket_name >>= λ b. ok (b, cred))

abbrev pub put_guards :
    Context → Bytes → Bytes → Signed → Result Refusal (Bucket × BucketCredential)
put_guards x bucket_name key s =
    refuse_if (ltb max_key_length (length key)) (plain key_too_long)
    >> (refuse_if (bad_key key) (plain invalid_argument) >> writable_bucket x bucket_name s.0)

module _ (hmac_sha256 : Bytes → Bytes → Bytes) (sha256 : Bytes → Bytes) where
  -- The start of `PutObject`.
  unfoldable pub authorize_put :
      Context → HttpRequest → Bytes → Bytes → Result Refusal (Bucket × BucketCredential)
  authorize_put x r bucket_name key =
      authenticate_request hmac_sha256 sha256 x r >>= put_guards x bucket_name key

  abbrev pub delete_guards :
      Context → Bytes → Bytes → Signed → Result Refusal (Bucket × BucketCredential)
  delete_guards x bucket_name key s =
      check_write_access s.0
      >> (refuse_if (bad_key key) (plain no_such_key)
          >> (check_bucket_access x s.0 bucket_name >>= λ b. ok (b, s.0)))

  -- The start of `DeleteObject`.
  unfoldable pub authorize_delete :
      Context → HttpRequest → Bytes → Bytes → Result Refusal (Bucket × BucketCredential)
  authorize_delete x r bucket_name key =
      authenticate_request hmac_sha256 sha256 x r >>= delete_guards x bucket_name key
