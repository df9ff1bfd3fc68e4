-- ===== src/Config.antt =====
-- gateway/src/config.ts: the settings.
pub mod Schema
pub mod Load
use bengali_tts_service.Base.{ℕ, Option}
use bengali_tts_service.Text.{JsString}

pub record Config : Type 0 where
  pub port : ℕ
  pub database_url : JsString
  pub redis_url : JsString
  pub s3_endpoint : JsString
  pub s3_access_key : JsString
  pub s3_secret_key : JsString
  pub s3_bucket : JsString
  pub log_level : JsString
  pub tts_queue_name : JsString
  pub tts_max_text_length : ℕ
  pub poll_interval_ms : ℕ
  pub sse_poll_interval_ms : ℕ
  pub tts_rate_limit_per_minute : ℕ
  pub tts_pending_cap : ℕ
  pub tts_queue_capacity : ℕ
  pub tts_job_attempts : ℕ
  pub tts_retry_backoff_ms : ℕ

-- The environment of a process.
abbrev pub Env : Type 0
Env = JsString → Option JsString
