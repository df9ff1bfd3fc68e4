-- ===== src/Jobs/Submit/Replay.antt =====
-- A retry with an Idempotency-Key is answered from its row.
use bengali_tts_service.Base.{◌≡◌, ap, some, if◌then◌else◌}
use bengali_tts_service.Text.{JsString, text_eq}
use bengali_tts_service.Errors.{ok, thrown, domain, idempotency_conflict}
use bengali_tts_service.Http.{success}
use bengali_tts_service.Http.Checks.{validate_success}
use bengali_tts_service.Schema.{Job}
use bengali_tts_service.Deps.Action.{AppDeps, World}
use bengali_tts_service.Jobs.Shared.{
  AuthedUser, read_idempotency_key, submission_body, respond_for_idempotent_retry,
}
use bengali_tts_service.Jobs.Submit.{SubmitRequest, keyed, submit}

retry_of_parsed :
    (deps : AppDeps) (job : Job) (body : deps.schemas.Body) {text : JsString}
    → deps.schemas.submit body ≡ success text
    → respond_for_idempotent_retry deps job body ≡ (
        if text_eq text job.input_text
        then ok (record { status = 200; body = submission_body deps job })
        else thrown (domain idempotency_conflict))
unfolding respond_for_idempotent_retry
retry_of_parsed deps job body p =
    rw (validate_success deps.schemas.submit body p, respond_for_idempotent_retry)

-- Where the header holds a key, the caller's row of that key is found and the body parses, the
-- submission is answered before any gate: with the row's job where the text is the row's, as a
-- conflict otherwise; and nothing changes, neither the database nor the bucket, the queue or a
-- counter.
pub submit_replays :
    (deps : AppDeps) (user : AuthedUser) (req : SubmitRequest deps) (w : World deps)
    {key text : JsString} {job : Job}
    → read_idempotency_key req.idempotency_key ≡ ok (some key)
    → deps.prisma.job_find_first (keyed user.id key) w.db ≡ ok (some job)
    → deps.schemas.submit req.body ≡ success text
    → submit deps user req w ≡ (
      if text_eq text job.input_text
          then ok (record { status = 200; body = submission_body deps job })
          else thrown (domain idempotency_conflict),
      w,
    )
unfolding submit
submit_replays deps user req w {job = job} k f p =
    rw (k, f) (ap (λ r. (r, w)) (retry_of_parsed deps job req.body p))
