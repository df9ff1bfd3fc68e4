-- ===== src/Tests/Starts.antt =====
-- A worker that starts beside the gateway, on an environment that names a bucket and leaves the queue
-- to its default.
use mathlib.Core.List.{Memᴰ}
use mathlib.Core.Path.{subst}
use bengali_tts_service.Base.{
  ℕ, ◌≤◌, ◌<◌, ◌⊎◌, ◌==◌, ==→eq, leb, leb→le, length, ◌&&◌, Bool, List, All, ap, ◌≡◌, ◌≢◌, refl,
  inl, inr, if◌then◌else◌, true, false, Option, none, some, [], ◌∷◌,
}
use bengali_tts_service.Text.{JsString, js, text_eq}
use bengali_tts_service.Errors.{ok}
use bengali_tts_service.Http.{Parsed, success, failure}
use bengali_tts_service.Config.{Config, Env}
use bengali_tts_service.Config.Schema.{
  Field, text_field, number_field, config_schema, Zod, ZodLaw, IsReadBy,
}
use bengali_tts_service.Text.Laws.{text_eq_sound}
use bengali_tts_service.Config.Load.{load_config}
use bengali_tts_service.Worker.Settings.{Settings, load_settings, missing_of, build, value}
use bengali_tts_service.Worker.Start.{
  Machine, Consumer, moved, consuming, consumer, fake_engine, create_engine, run_worker,
}
use bengali_tts_service.Worker.Start.Order.{Consumes, run-Consumes}
use bengali_tts_service.Worker.Start.Agreement.{IsJoined, worker_settings, starts_agree}
use bengali_tts_service.Tests.Setting.{gateway}

success_inj : {A : Type 0} {a b : A} → success a ≡ success b → a ≡ b
success_inj h = cc

both : (a b : Bool) → a && b ≡ true → (a ≡ true) × (b ≡ true)
both true b h = (refl, h)
both false b h = cc

abbrev reads_text : Option JsString → Option JsString → ℕ → JsString → Bool
reads_text none none least v = false
reads_text none (some d) least v = text_eq d v
reads_text (some s) default least v = text_eq s v && leb least (length v)

abbrev reads_number : Option JsString → ℕ → ℕ → Bool
reads_number none default n = n == default
reads_number (some s) default n = leb 1 n

-- The schema's parts, as documented.
abbrev at_least_one : Option JsString → Option JsString
at_least_one none = none
at_least_one (some []) = none
at_least_one (some (c ∷ s)) = some (c ∷ s)

abbrev or_default : JsString → Option JsString → Option JsString
or_default default none = some default
or_default default (some s) = at_least_one (some s)

module _ {A B : Type 0} where
  infixl 5 ◌>>=◌
  unfoldable ◌>>=◌ : Option A → (A → Option B) → Option B
  m >>= f = elim m [ some a ↦ f a | none ↦ none ]

abbrev defaults : Config
defaults = record gateway.config {
  log_level = js "info";
  tts_max_text_length = 1000;
  poll_interval_ms = 2000;
  sse_poll_interval_ms = 1000;
  tts_rate_limit_per_minute = 30;
  tts_pending_cap = 10;
  tts_queue_capacity = 100;
  tts_job_attempts = 2;
  tts_retry_backoff_ms = 5000;
}

unfoldable read : Env → Option Config
read env = do
  redis_url ← at_least_one (env (js "REDIS_URL"))
  database_url ← at_least_one (env (js "DATABASE_URL"))
  s3_endpoint ← at_least_one (env (js "S3_ENDPOINT"))
  s3_access_key ← at_least_one (env (js "S3_ACCESS_KEY"))
  s3_secret_key ← at_least_one (env (js "S3_SECRET_KEY"))
  s3_bucket ← or_default (js "tts-audio") (env (js "S3_BUCKET"))
  tts_queue_name ← or_default (js "tts") (env (js "TTS_QUEUE_NAME"))
  some (record defaults {
    redis_url = redis_url;
    database_url = database_url;
    s3_endpoint = s3_endpoint;
    s3_access_key = s3_access_key;
    s3_secret_key = s3_secret_key;
    s3_bucket = s3_bucket;
    tts_queue_name = tts_queue_name;
  })

-- A candidate that has every field as the field reads it.
abbrev is_read : Env → Config → Field → Bool
is_read env config (text_field name least default value) =
    reads_text (env name) default least (value config)
is_read env config (number_field name default value) =
    reads_number (env name) default (value config)

abbrev are_read : Env → Config → List Field → Bool
are_read env config [] = true
are_read env config (f ∷ fields) = is_read env config f && are_read env config fields

abbrev keep_if : Bool → Config → Parsed Config
keep_if true config = success config
keep_if false config = failure []

abbrev parsed : Option Config → List Field → Env → Parsed Config
parsed (some config) fields env = keep_if (are_read env config fields) config
parsed none fields env = failure []

abbrev zod : Zod
zod fields env = parsed (read env) fields env

read_text :
    (o default : Option JsString) (least : ℕ) (v : JsString)
    → reads_text o default least v ≡ true
    → ((o ≡ none) × (default ≡ some v)) ⊎ ((o ≡ some v) × (least ≤ length v))
read_text none none least v h = cc
read_text none (some d) least v h = inl (refl, ap some (text_eq_sound d v h))
read_text (some s) default least v h =
    let (same, long) = both (text_eq s v) (leb least (length v)) h in
    inr (ap some (text_eq_sound s v same), leb→le least (length v) long)

read_number :
    (o : Option JsString) (default n : ℕ)
    → reads_number o default n ≡ true
    → ((o ≡ none) × (n ≡ default)) ⊎ ((o ≢ none) × (0 < n))
read_number none default n h = inl (refl, ==→eq n default h)
read_number (some s) default n h = inr (λ e. cc, leb→le 1 n h)

are_read_sound :
    (env : Env) (config : Config) (fields : List Field)
    → are_read env config fields ≡ true
    → All (IsReadBy env config) fields
are_read_sound env config [] h = tt
are_read_sound env config (text_field name least default value ∷ fields) h =
    let (a, b) =
      both (reads_text (env name) default least (value config)) (are_read env config fields) h in
    (read_text (env name) default least (value config) a, are_read_sound env config fields b)
are_read_sound env config (number_field name default value ∷ fields) h =
    let (a, b) =
      both (reads_number (env name) default (value config)) (are_read env config fields) h in
    (read_number (env name) default (value config) a, are_read_sound env config fields b)

kept : (b : Bool) (c config : Config) → keep_if b c ≡ success config → (b ≡ true) × (c ≡ config)
kept true c config h = (refl, success_inj h)
kept false c config h = cc

law_of :
    (o : Option Config) (fields : List Field) (env : Env) (config : Config)
    → parsed o fields env ≡ success config
    → All (IsReadBy env config) fields
law_of (some c) fields env config h =
    let (ok_all, same) = kept (are_read env c fields) c config h in
    subst (λ x. All (IsReadBy env x) fields) same (are_read_sound env c fields ok_all)
law_of none fields env config h = cc

law : ZodLaw zod
law fields env config h = law_of (read env) fields env config h

abbrev env : Env
env name =
    if text_eq name (js "REDIS_URL")
    then some (js "redis://redis")
    else if text_eq name (js "DATABASE_URL")
    then some (js "postgres://db")
    else if text_eq name (js "S3_ENDPOINT")
    then some (js "http://minio")
    else if text_eq name (js "S3_ACCESS_KEY")
    then some (js "a")
    else if text_eq name (js "S3_SECRET_KEY")
    then some (js "s")
    else if text_eq name (js "S3_BUCKET")
    then some (js "voices")
    else none

abbrev config : Config
config = record defaults {
  redis_url = js "redis://redis";
  database_url = js "postgres://db";
  s3_endpoint = js "http://minio";
  s3_access_key = js "a";
  s3_secret_key = js "s";
  s3_bucket = js "voices";
  tts_queue_name = js "tts";
}

abbrev machine : Machine
machine = record {
  Seconds = JsString;
  float = λ s. ok s;
  repr = λ s. s;
  ping = λ url. ok tt;
  connect = λ url. ok tt;
  hf_hub_download = ok tt;
  from_pretrained = ok tt;
  move_to = λ device. moved;
  has_cuda = false;
  has_mps = true;
  close_worker = ok tt;
}

abbrev settings : Settings JsString
settings = worker_settings config env (js "300") (js "0")

abbrev begun : Consumer JsString
begun = consumer machine settings (fake_engine (js "0"))

is_loaded : load_config zod env ≡ ok config
unfolding load_config config_schema read ◌>>=◌ js text_eq
is_loaded = refl

consumes : Memᴰ (consuming begun) (run_worker machine env true).1
unfolding run_worker load_settings missing_of build value create_engine js text_eq
    bengali_tts_service.Worker.Settings.◌>>=◌
consumes = Memᴰ.tail (Memᴰ.tail (Memᴰ.head refl))

run-Consumes_example : Consumes machine env true begun
run-Consumes_example = run-Consumes machine env true begun consumes

starts_agree_example : IsJoined config begun
starts_agree_example = starts_agree machine zod law env config true begun is_loaded consumes
