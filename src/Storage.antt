-- ===== src/Storage.antt =====
-- gateway/src/lib/storage.ts: the bucket at boot, the readiness probe, and a recording's bytes.
pub mod Attempts
use bengali_tts_service.Base.{ℕ, Bool, true, false, ◌||◌, Option, none, some, leb, ◌==◌}
use bengali_tts_service.Text.{JsString, js}
use bengali_tts_service.Errors.{Thrown, Exit, succeed, fail, storage_unavailable}
use bengali_tts_service.Deps.Clients.{S3Client, EffectRuntime, ObjectOutput, Sent, sent, rejected}

-- The retries after the first attempt.
abbrev pub bucket_bootstrap_retries : ℕ
bucket_bootstrap_retries = 6

abbrev pub transient_read_retries : ℕ
transient_read_retries = 2

abbrev is_transient_status : Option ℕ → Bool
is_transient_status none = true
is_transient_status (some status) = leb 500 status || status == 429

unfoldable pub is_transient : Thrown → Bool
is_transient (storage_unavailable operation status) = is_transient_status status
is_transient _ = true

-- `Effect.tryPromise`, with the cause wrapped under the name of the operation.
abbrev try_promise : {S A : Type 0} → JsString → Sent A × S → Exit A × S
try_promise operation (sent a, s) = (succeed a, s)
try_promise operation (rejected status, s) = (fail (storage_unavailable operation status), s)

module _ (s3 : S3Client) where
  -- The body of the promise: the bucket is created if the HEAD does not succeed, whatever the cause.
  head_or_create : JsString → Sent (Unit {0}) × s3.S3 → Sent (Unit {0}) × s3.S3
  head_or_create bucket (sent a, s) = (sent a, s)
  head_or_create bucket (rejected status, s) = s3.create_bucket bucket s

  unfoldable pub ensure_once : JsString → s3.S3 → Exit (Unit {0}) × s3.S3
  unfolding head_or_create
  ensure_once bucket s =
      try_promise (js "ensureBucket") (head_or_create bucket (s3.head_bucket bucket s))

  unfoldable pub ensure_bucket : EffectRuntime → JsString → s3.S3 → Exit (Unit {0}) × s3.S3
  ensure_bucket effects bucket =
      effects.retry s3.S3 (Unit {0}) (λ _. true) bucket_bootstrap_retries (ensure_once bucket)

  unfoldable pub check_bucket : JsString → s3.S3 → Exit (Unit {0}) × s3.S3
  check_bucket bucket s = try_promise (js "checkBucket") (s3.head_bucket bucket s)

  unfoldable pub get_once : JsString → JsString → s3.S3 → Exit ObjectOutput × s3.S3
  get_once bucket key s = try_promise (js "getObject") (s3.get_object bucket key s)

  unfoldable pub get_audio_object :
      EffectRuntime → JsString → JsString → s3.S3 → Exit ObjectOutput × s3.S3
  get_audio_object effects bucket key =
      effects.retry s3.S3 ObjectOutput is_transient transient_read_retries (get_once bucket key)
