-- ===== src/Jobs/Shared.antt =====
-- What the routes of the jobs share: how a job is shown, the Idempotency-Key header, the scoped
-- lookup, and the answer to a retry.
use bengali_tts_service.Base.{ℕ, ◌||◌, Option, none, some, ◌++◌, ltb, ◌==◌, length, if◌then◌else◌}
use mathlib.Core.Option.{get_or}
use bengali_tts_service.Text.{JsString, js, text_eq}
use bengali_tts_service.Errors.{
  Result, ok, thrown, domain, not_found, validation_failed, idempotency_conflict,
}
use bengali_tts_service.Http.{Loose, one, several, validate, require_param}
use bengali_tts_service.Schema.{Job, JobStatus, completed, failed, status_eq}
use bengali_tts_service.Deps.Prisma.{anywhere}
use bengali_tts_service.Deps.Action.{AppDeps, Act, pure, raise, lift, query, ◌>>=◌}

-- What the authentication has put on the request.
pub record AuthedUser : Type 0 where
  pub id : JsString
  pub email : JsString

pub record ShownError : Type 0 where
  pub code : JsString
  pub message : JsString

-- The JSON of a job; the last two fields are there for some statuses only.
pub record JobView : Type 0 where
  pub id : JsString
  pub status : JobStatus
  pub created_at : ℕ
  pub started_at : Option ℕ
  pub completed_at : Option ℕ
  pub audio_url : Option JsString
  pub error : Option ShownError

unfoldable pub serialize_job : Job → JobView
serialize_job job = record {
  id = job.id;
  status = job.status;
  created_at = job.created_at;
  started_at = job.started_at;
  completed_at = job.completed_at;
  audio_url =
      if status_eq job.status completed
      then some (js "/v1/jobs/" ++ (job.id ++ js "/audio"))
      else none;
  error =
      if status_eq job.status failed
      then some (record {
        code = get_or job.error_code (js "INTERNAL");
        message = get_or job.error_message (js "Job failed");
      })
      else none;
}

abbrev bad_key : Result (Option JsString)
bad_key = thrown (domain (validation_failed (js "Idempotency-Key must be 1-255 characters") none))

unfoldable pub read_idempotency_key : Option Loose → Result (Option JsString)
read_idempotency_key none = ok none
read_idempotency_key (some (several l)) = bad_key
read_idempotency_key (some (one raw)) =
    if length raw == 0 || ltb 255 (length raw) then bad_key else ok (some raw)

-- An answer: its status and its JSON.
pub record Reply (B : Type 0) : Type 0 where
  pub status : ℕ
  pub body : B

pub record Submission : Type 0 where
  pub job_id : JsString
  pub status : JobStatus
  pub status_url : JsString
  pub poll_interval_ms : ℕ

abbrev pub found_or_missing : {deps : AppDeps} → Option Job → Act deps Job
found_or_missing none = raise (domain not_found)
found_or_missing (some job) = pure job

module _ (deps : AppDeps) where
  unfoldable pub find_owned_job : AuthedUser → Option Loose → Act deps Job
  find_owned_job user param = do
    id ← lift (require_param param (js "id"))
    job ←
        query
          (deps.prisma.job_find_first (record anywhere { id = some id; user_id = some user.id }))
    found_or_missing job

  unfoldable pub submission_body : Job → Submission
  submission_body job = record {
    job_id = job.id;
    status = job.status;
    status_url = js "/v1/jobs/" ++ job.id;
    poll_interval_ms = deps.config.poll_interval_ms;
  }

  unfoldable pub respond_for_idempotent_retry : Job → deps.schemas.Body → Result (Reply Submission)
  respond_for_idempotent_retry job body = elim (validate deps.schemas.submit body) [
    | thrown t ↦ thrown t
    | ok text ↦
        if text_eq text job.input_text
        then ok (record { status = 200; body = submission_body job })
        else thrown (domain idempotency_conflict)
  ]
