-- ===== src/Jobs/Read.antt =====
-- GET /v1/jobs/:id and GET /v1/jobs/:id/audio.
pub mod Isolation
pub mod Audio
pub mod OwnRows
use bengali_tts_service.Base.{ℕ, Option, none, some, List, [], ◌∷◌}
use bengali_tts_service.Text.{JsString, js}
use bengali_tts_service.Text.Decimal.{decimal}
use bengali_tts_service.Errors.{domain, job_failed, job_not_ready}
use bengali_tts_service.Http.{Loose}
use bengali_tts_service.Schema.{Job, JobStatus, queued, active, completed, failed}
use bengali_tts_service.Storage.{get_audio_object}
use bengali_tts_service.Deps.Clients.{ObjectOutput}
use bengali_tts_service.Deps.Action.{AppDeps, Act, pure, raise, with_storage, ◌>>=◌}
use bengali_tts_service.Jobs.Shared.{AuthedUser, Reply, JobView, serialize_job, find_owned_job}

-- The headers of a recording, and its bytes.
pub record Recording : Type 0 where
  pub content_type : JsString
  pub content_length : Option JsString
  pub bytes : List ℕ

abbrev length_header : Option ℕ → Option JsString
length_header none = none
length_header (some n) = some (decimal n)

-- `!job.audioKey` holds of null and of the empty string.
abbrev pub present : Option JsString → Option JsString
present none = none
present (some []) = none
present (some (c ∷ s)) = some (c ∷ s)

module _ (deps : AppDeps) where
  unfoldable pub get_job : AuthedUser → Option Loose → Act deps (Reply JobView)
  get_job user param = do
    job ← find_owned_job deps user param
    pure (record { status = 200; body = serialize_job job })

  abbrev key_or_not_ready : Option JsString → Act deps JsString
  key_or_not_ready none = raise (domain job_not_ready)
  key_or_not_ready (some key) = pure key

  -- The key of a job whose recording can be fetched.
  unfoldable pub recording_key : JobStatus → Option JsString → Act deps JsString
  recording_key failed audio_key = raise (domain job_failed)
  recording_key completed audio_key = key_or_not_ready (present audio_key)
  recording_key queued audio_key = raise (domain job_not_ready)
  recording_key active audio_key = raise (domain job_not_ready)

  abbrev pub recording : ObjectOutput → Reply Recording
  recording object = record {
    status = 200;
    body = record {
      content_type = js "audio/wav";
      content_length = length_header object.content_length;
      bytes = object.bytes;
    };
  }

  unfoldable pub get_audio : AuthedUser → Option Loose → Act deps (Reply Recording)
  get_audio user param = do
    job ← find_owned_job deps user param
    key ← recording_key job.status job.audio_key
    object ← with_storage (get_audio_object deps.s3 deps.effects deps.config.s3_bucket key)
    pure (recording object)
