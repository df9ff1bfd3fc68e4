-- ===== src/Schema.antt =====
-- gateway/prisma/schema.prisma: the rows of the database, as the generated client hands them out.
-- A time is a number of milliseconds.
use bengali_tts_service.Base.{ℕ, Option, Bool, true, false}
use bengali_tts_service.Text.{JsString}

pub record User : Type 0 where
  pub id : JsString
  pub email : JsString
  pub password_hash : JsString
  pub created_at : ℕ

pub data JobStatus : Type 0 where
  queued active completed failed : JobStatus

abbrev pub status_eq : JobStatus → JobStatus → Bool
status_eq queued queued = true
status_eq active active = true
status_eq completed completed = true
status_eq failed failed = true
status_eq _ _ = false

pub record Job : Type 0 where
  pub id : JsString
  pub user_id : JsString
  pub status : JobStatus
  pub input_text : JsString
  pub idempotency_key : Option JsString
  pub audio_key : Option JsString
  pub error_code : Option JsString
  pub error_message : Option JsString
  pub created_at : ℕ
  pub started_at : Option ℕ
  pub completed_at : Option ℕ

pub record ApiKey : Type 0 where
  pub id : JsString
  pub user_id : JsString
  pub key_hash : JsString
  pub key_prefix : JsString
  pub created_at : ℕ
  pub last_used_at : Option ℕ
  pub revoked_at : Option ℕ
