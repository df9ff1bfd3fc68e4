-- ===== src/Storage/Attempts.antt =====
-- How often storage is asked, and which failures are asked again.
use bengali_tts_service.Base.{
  ℕ, ◌≤◌, ◌<◌, ◌≡◌, refl, ◌∙◌, ◌≢◌, ◌⊎◌, ◌↔◌, true, Option, none, some, arith, inl, inr,
}
use bengali_tts_service.Text.{JsString, js}
use bengali_tts_service.Errors.{fail, storage_unavailable}
use bengali_tts_service.Deps.Clients.{S3Client, EffectRuntime, ObjectOutput, rejected}
use bengali_tts_service.Deps.Retry.{RetryLaw, EndsWith, retry-EndsWith}
use bengali_tts_service.Storage.{
  is_transient, ensure_once, ensure_bucket, get_once, get_audio_object,
}

-- A status is transient exactly when there is none, or it is 429 or 500 and above.
pub is_transient_iff :
    (operation : JsString) (status : Option ℕ)
    → (is_transient (storage_unavailable operation status) ≡ true)
      ↔ ((status ≡ none) ⊎ ((s : ℕ) × (status ≡ some s) × ((500 ≤ s) ⊎ (s ≡ 429))))
unfolding is_transient
is_transient_iff operation none = (λ h. inl refl, λ h. refl)
is_transient_iff operation (some s) = (λ h. inr (s, refl, ground arith), λ h. ground arith)

module _ (s3 : S3Client) (e : EffectRuntime) (law : RetryLaw e) (bucket : JsString) where
  -- With a runtime that obeys the law of retries, a recording is asked for at most three times,
  -- again only after a transient failure and while attempts are left, and the result is that of
  -- the last time.
  get_audio_object-EndsWith :
      (key : JsString) (s : s3.S3)
      → EndsWith is_transient 2 (get_once s3 bucket key) s (get_audio_object s3 e bucket key s)
  unfolding get_audio_object
  get_audio_object-EndsWith key s = retry-EndsWith e law is_transient 2 (get_once s3 bucket key) s

  -- With a runtime that obeys the law of retries, the bucket is asked for at most seven times,
  -- again only after a failure and while attempts are left, and the result is that of the last
  -- time.
  pub ensure_bucket-EndsWith :
      (s : s3.S3) → EndsWith (λ _. true) 6 (ensure_once s3 bucket) s (ensure_bucket s3 e bucket s)
  unfolding ensure_bucket
  ensure_bucket-EndsWith s = retry-EndsWith e law (λ _. true) 6 (ensure_once s3 bucket) s

  -- With a runtime that obeys the law of retries, a rejection with a status that is below 500 and
  -- not 429 surfaces after one call, as the failure of this operation with this status.
  get_audio_object_permanent :
      (key : JsString) (status : ℕ) (s s' : s3.S3)
      → s3.get_object bucket key s ≡ (rejected (some status), s')
      → status < 500
      → status ≢ 429
      → get_audio_object s3 e bucket key s
        ≡ (fail (storage_unavailable (js "getObject") (some status)), s')
  unfolding get_audio_object get_once is_transient
  get_audio_object_permanent key status s s' h lt ne =
      law.retry_lem s3.S3 ObjectOutput is_transient 2 (get_once s3 bucket key) s
      ∙ rw h (ground arith)
