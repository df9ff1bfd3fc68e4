-- ===== src/Worker.antt =====
-- worker/src/worker/db.py: the worker's writes to the table of jobs. The gateway reads the outcome
-- of a job there and nowhere else.
pub mod Terminal
pub mod Processor
pub mod Lifecycle
pub mod Settings
pub mod Start
use bengali_tts_service.Base.{
  ℕ, Bool, true, false, ◌&&◌, Option, some, List, [], ◌∷◌, map, if◌then◌else◌,
}
use bengali_tts_service.Text.{JsString, text_eq}
use bengali_tts_service.Schema.{Job, JobStatus, queued, active, completed, failed}

-- `status NOT IN ('COMPLETED', 'FAILED')`
abbrev pub is_open : JobStatus → Bool
is_open completed = false
is_open failed = false
is_open _ = true

-- `UPDATE jobs SET ... WHERE id = %s AND status NOT IN (...)`, on one row.
abbrev pub where_open : JsString → (Job → Job) → Job → Job
where_open id set job = if text_eq id job.id && is_open job.status then set job else job

-- The four writers, each with the database's time where it stores one.
pub data Writer : Type 0 where
  mark_active : ℕ → Writer
  mark_queued : Writer
  mark_completed : JsString → ℕ → Writer
  mark_failed : JsString → JsString → ℕ → Writer

-- The SET part of a writer.
unfoldable pub set : Writer → Job → Job
set (mark_active now) job = record job { status = active; started_at = some now }
set mark_queued job = record job { status = queued }
set (mark_completed key now) job = record job {
  status = completed;
  audio_key = some key;
  completed_at = some now;
}
set (mark_failed code message now) job = record job {
  status = failed;
  error_code = some code;
  error_message = some message;
  completed_at = some now;
}

-- A write, on the whole table.
unfoldable pub write : JsString → Writer → List Job → List Job
write id writer l = map (where_open id (set writer)) l

-- Writes one after the other, of any number of workers.
unfoldable pub write_all : List (JsString × Writer) → List Job → List Job
write_all [] l = l
write_all ((id, writer) ∷ rest) l = write_all rest (write id writer l)
