-- ===== src/Worker/Settings.antt =====
-- worker/src/worker/config.py: the settings of the worker, from the environment.
use mathlib.Core.Option.{get_or}
use bengali_tts_service.Base.{
  Bool, true, false, Option, none, some, List, [], ◌∷◌, ◌++◌, if◌then◌else◌,
}
use bengali_tts_service.Text.{JsString, js}
use bengali_tts_service.Config.{Env}
use bengali_tts_service.Config.Load.{join_commas}
use bengali_tts_service.Errors.{Result, ok, thrown, other}

-- The number of seconds is what `float` makes of a string.
pub record Settings (Seconds : Type 0) : Type 0 where
  pub redis_url : JsString
  pub database_url : JsString
  pub s3_endpoint : JsString
  pub s3_access_key : JsString
  pub s3_secret_key : JsString
  pub s3_bucket : JsString
  pub tts_engine : JsString
  pub tts_device : JsString
  pub queue_name : JsString
  pub job_timeout_seconds : Seconds
  pub fake_delay_seconds : Seconds

abbrev pub required : List JsString
required =
    js "REDIS_URL"
    ∷ js "DATABASE_URL"
    ∷ js "S3_ENDPOINT"
    ∷ js "S3_ACCESS_KEY"
    ∷ js "S3_SECRET_KEY"
    ∷ []

-- `not env.get(name)`
abbrev pub is_missing : Option JsString → Bool
is_missing none = true
is_missing (some []) = true
is_missing (some (c ∷ s)) = false

unfoldable pub missing_of : Env → List JsString → List JsString
missing_of env [] = []
missing_of env (name ∷ names) =
    let rest = missing_of env names in if is_missing (env name) then name ∷ rest else rest

module _ {A B : Type 0} where
  infixl 5 ◌>>=◌
  unfoldable pub ◌>>=◌ : Result A → (A → Result B) → Result B
  m >>= f = elim m [ ok a ↦ f a | thrown t ↦ thrown t ]

-- `env[name]`, which raises a KeyError.
unfoldable pub value : Env → JsString → Result JsString
value env name = elim (env name) [ some v ↦ ok v | none ↦ thrown (other name) ]

-- `Settings(...)`, with its arguments in their order.
unfoldable pub build :
    {Seconds : Type 0} → (JsString → Result Seconds) → Env → Result (Settings Seconds)
build float env = do
  redis_url ← value env (js "REDIS_URL")
  database_url ← value env (js "DATABASE_URL")
  s3_endpoint ← value env (js "S3_ENDPOINT")
  s3_access_key ← value env (js "S3_ACCESS_KEY")
  s3_secret_key ← value env (js "S3_SECRET_KEY")
  timeout ← float (get_or (env (js "TTS_JOB_TIMEOUT_SECONDS")) (js "300"))
  delay ← float (get_or (env (js "TTS_FAKE_DELAY_SECONDS")) (js "0"))
  ok (record {
    redis_url = redis_url;
    database_url = database_url;
    s3_endpoint = s3_endpoint;
    s3_access_key = s3_access_key;
    s3_secret_key = s3_secret_key;
    s3_bucket = get_or (env (js "S3_BUCKET")) (js "tts-audio");
    tts_engine = get_or (env (js "TTS_ENGINE")) (js "fake");
    tts_device = get_or (env (js "TTS_DEVICE")) (js "auto");
    queue_name = get_or (env (js "TTS_QUEUE_NAME")) (js "tts");
    job_timeout_seconds = timeout;
    fake_delay_seconds = delay;
  })

abbrev build_unless :
    {Seconds : Type 0}
    → (JsString → Result Seconds)
    → Env
    → List JsString
    → Result (Settings Seconds)
build_unless float env [] = build float env
build_unless float env (name ∷ names) =
    thrown (other (js "Missing required environment variables: " ++ join_commas (name ∷ names)))

unfoldable pub load_settings :
    {Seconds : Type 0} → (JsString → Result Seconds) → Env → Result (Settings Seconds)
load_settings float env = build_unless float env (missing_of env required)
