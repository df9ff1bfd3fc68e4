-- ===== src/Worker/Processor.antt =====
-- worker/src/worker/processor.py: one delivery of a job to a worker, and the listener for jobs that
-- failed without one.
pub mod Rows
pub mod Settling
pub mod Served
use bengali_tts_service.Base.{
  ℕ, ◌+◌, Bool, true, false, Option, none, some, List, [], ◌∷◌, ◌++◌, leb, if◌then◌else◌,
}
use bengali_tts_service.Text.{JsString, js, text_eq}
use bengali_tts_service.Schema.{Job, JobStatus, completed, failed}
use bengali_tts_service.Worker.{
  is_open, write, mark_active, mark_queued, mark_completed, mark_failed,
}

-- `SELECT ... WHERE id = %s`: the row with the id, if there is one.
unfoldable pub fetch_job : JsString → List Job → Option Job
fetch_job id [] = none
fetch_job id (job ∷ rest) =
    let other = fetch_job id rest in if text_eq id job.id then some job else other

-- `f"audio/{user_id}/{job_id}.wav"`
unfoldable pub audio_key : JsString → JsString → JsString
audio_key user_id job_id = js "audio/" ++ (user_id ++ (js "/" ++ (job_id ++ js ".wav")))

-- What Python code ends with: a value, or an exception, which is a TimeoutError or another one.
pub data Raised : Type 0 where
  timeout_error exception : Raised

pub data Tried (A : Type 0) : Type 0 where
  gives : A → Tried A
  raises : Raised → Tried A

-- What one delivery meets: the engine with its time limit, the upload, the times that the database
-- stores, and the text of the limit in the message of a timeout.
pub record Surroundings : Type 0 where
  pub synthesize : JsString → Tried (List ℕ)
  pub upload : JsString → List ℕ → Tried (Unit {0})
  pub active_at : ℕ
  pub ended_at : ℕ
  pub limit_text : JsString

-- How a delivery ends, for the queue: a value, an UnrecoverableError, or the exception again.
pub data Delivery : Type 0 where
  skipped : JsString → Delivery
  produced : JsString → Delivery
  unrecoverable : Delivery
  raised_again : Delivery

-- The table of jobs and the objects that were uploaded, newest first.
pub record Shared : Type 0 where
  pub jobs : List Job
  pub objects : List (JsString × List ℕ)

-- The body of the `try`, without its last write: the key and the bytes that are uploaded under it.
uploaded : JsString → List ℕ → Tried (Unit {0}) → Tried (JsString × List ℕ)
uploaded key wav (gives _) = gives (key, wav)
uploaded key wav (raises r) = raises r

unfoldable pub attempt_audio :
    Surroundings → JsString → JsString → JsString → Tried (JsString × List ℕ)
unfolding uploaded
attempt_audio env id user_id input_text = elim (env.synthesize input_text) [
  | raises r ↦ raises r
  | gives wav ↦ let key = audio_key user_id id in uploaded key wav (env.upload key wav)
]

abbrev pub update_jobs : (List Job → List Job) → Shared → Shared
update_jobs f s = record s { jobs = f s.jobs }

abbrev pub store_object : JsString → List ℕ → Shared → Shared
store_object key wav s = record s { objects = (key, wav) ∷ s.objects }

-- The end of the `try`, with its two `except` clauses.
unfoldable pub conclude :
    Surroundings → JsString → Bool → Tried (JsString × List ℕ) → Shared → Delivery × Shared
conclude env id final_attempt (gives (key, wav)) s = (
  produced key,
  update_jobs (write id (mark_completed key env.ended_at)) (store_object key wav s),
)
conclude env id final_attempt (raises timeout_error) s = (
  unrecoverable,
  update_jobs
      (write id (
        mark_failed (js "TIMEOUT")
          (js "Synthesis exceeded the " ++ (env.limit_text ++ js " second limit")) env.ended_at))
      s,
)
conclude env id true (raises exception) s = (
  raised_again,
  update_jobs (write id (mark_failed (js "INTERNAL") (js "Synthesis failed") env.ended_at)) s,
)
conclude env id false (raises exception) s = (raised_again, update_jobs (write id mark_queued) s)

-- `row.status.lower()` of a terminal row.
abbrev lower_status : JobStatus → JsString
lower_status completed = js "completed"
lower_status failed = js "failed"
lower_status JobStatus.queued = js "queued"
lower_status JobStatus.active = js "active"

-- One delivery, after `made` earlier ones of `attempts` at most.
unfoldable pub process : Surroundings → JsString → ℕ → ℕ → Shared → Delivery × Shared
process env id made attempts s = elim (fetch_job id s.jobs) [
  | none ↦ (skipped (js "missing"), s)
  | some row ↦
      if is_open row.status
      then conclude env id (leb attempts (made + 1))
          (attempt_audio env id row.user_id row.input_text)
          (update_jobs (write id (mark_active env.active_at)) s)
      else (skipped (lower_status row.status), s)
]

-- The listener: `deferred` is whether the job failed without a delivery.
unfoldable pub record_bypassed_failure : Bool → JsString → ℕ → Shared → Shared
record_bypassed_failure deferred id now s =
    if deferred
    then (elim (fetch_job id s.jobs) [
      | none ↦ s
      | some row ↦
          if is_open row.status
          then update_jobs (write id (mark_failed (js "INTERNAL") (js "Synthesis failed") now)) s
          else s
    ])
    else s
