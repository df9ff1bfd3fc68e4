-- ===== src/Config/Schema.antt =====
-- gateway/src/config.ts: configSchema, and what the schema library is documented to make of it.
use bengali_tts_service.Base.{
  ℕ, ◌≤◌, ◌<◌, ◌≡◌, ◌≢◌, ◌⊎◌, Option, none, some, List, [], ◌∷◌, All, length,
}
use bengali_tts_service.Text.{JsString, js}
use bengali_tts_service.Http.{Parsed, success}
use bengali_tts_service.Config.{Config, Env}

-- A variable, with the setting that it becomes: `z.string()`, with its least length and its default,
-- if it has them, or `z.coerce.number().int().positive().default(...)`.
pub data Field : Type 0 where
  text_field : JsString → ℕ → Option JsString → (Config → JsString) → Field
  number_field : JsString → ℕ → (Config → ℕ) → Field

unfoldable pub config_schema : List Field
config_schema =
    number_field (js "PORT") 3000 (λ config. config.port)
    ∷ text_field (js "DATABASE_URL") 1 none (λ config. config.database_url)
    ∷ text_field (js "REDIS_URL") 1 none (λ config. config.redis_url)
    ∷ text_field (js "S3_ENDPOINT") 1 none (λ config. config.s3_endpoint)
    ∷ text_field (js "S3_ACCESS_KEY") 1 none (λ config. config.s3_access_key)
    ∷ text_field (js "S3_SECRET_KEY") 1 none (λ config. config.s3_secret_key)
    ∷ text_field (js "S3_BUCKET") 1 (some (js "tts-audio")) (λ config. config.s3_bucket)
    ∷ text_field (js "LOG_LEVEL") 0 (some (js "info")) (λ config. config.log_level)
    ∷ text_field (js "TTS_QUEUE_NAME") 1 (some (js "tts")) (λ config. config.tts_queue_name)
    ∷ number_field (js "TTS_MAX_TEXT_LENGTH") 1000 (λ config. config.tts_max_text_length)
    ∷ number_field (js "POLL_INTERVAL_MS") 2000 (λ config. config.poll_interval_ms)
    ∷ number_field (js "SSE_POLL_INTERVAL_MS") 1000 (λ config. config.sse_poll_interval_ms)
    ∷ number_field (js "TTS_RATE_LIMIT_PER_MINUTE") 30 (λ config. config.tts_rate_limit_per_minute)
    ∷ number_field (js "TTS_PENDING_CAP") 10 (λ config. config.tts_pending_cap)
    ∷ number_field (js "TTS_QUEUE_CAPACITY") 100 (λ config. config.tts_queue_capacity)
    ∷ number_field (js "TTS_JOB_ATTEMPTS") 2 (λ config. config.tts_job_attempts)
    ∷ number_field (js "TTS_RETRY_BACKOFF_MS") 5000 (λ config. config.tts_retry_backoff_ms)
    ∷ []

-- `z.object(fields).safeParse(env)`, of the schema library.
abbrev pub Zod : Type 0
Zod = List Field → Env → Parsed Config

-- Whether a setting is what its field makes of the environment. How a number is read is left open.
abbrev pub IsReadBy : Env → Config → Field → Type 0
IsReadBy env config (text_field name least default value) =
    ((env name ≡ none) × (default ≡ some (value config)))
    ⊎ ((env name ≡ some (value config)) × (least ≤ length (value config)))
IsReadBy env config (number_field name default value) =
    ((env name ≡ none) × (value config ≡ default)) ⊎ ((env name ≢ none) × (0 < value config))

-- An object that is accepted has each of its fields as the field's schema reads it.
abbrev pub ZodLaw : Zod → Type 0
ZodLaw zod =
    (fields : List Field) (env : Env) (config : Config)
    → zod fields env ≡ success config
    → All (IsReadBy env config) fields
