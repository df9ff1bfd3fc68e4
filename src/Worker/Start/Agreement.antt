-- ===== src/Worker/Start/Agreement.antt =====
-- gateway/src/config.ts and worker/src/worker/config.py on one environment: the gateway and a worker
-- that both start are joined by one queue, one database and one bucket.
use mathlib.Core.List.{Memᴰ}
use mathlib.Core.Option.{get_or}
use mathlib.Core.Path.{subst}
use bengali_tts_service.Base.{
  ◌≤◌, length, arith, Bool, false, ◌≡◌, ◌≢◌, ◌⊎◌, inl, inr, refl, sym, ap, ◌∙◌, none, some, [], ◌∷◌,
}
use bengali_tts_service.Text.{JsString, js}
use bengali_tts_service.Errors.{Result, ok, thrown}
use bengali_tts_service.Config.{Config, Env}
use bengali_tts_service.Config.Schema.{Zod, ZodLaw, IsReadBy, text_field, config_schema}
use bengali_tts_service.Config.Load.{load_config}
use bengali_tts_service.Server.Boot.{connections, load_config_sound}
use bengali_tts_service.Worker.Settings.{
  Settings, is_missing, missing_of, load_settings, required, build, value, ◌>>=◌,
}
use bengali_tts_service.Worker.Start.Order.{run-Consumes}
use bengali_tts_service.Worker.Start.{Machine, Engine, Consumer, consuming, consumer, run_worker}

-- `z.string().min(1)`, and the same with a default for a variable that is not there.
abbrev pub IsRequired : Env → JsString → JsString → Type 0
IsRequired env name v = (env name ≡ some v) × (v ≢ [])

abbrev pub IsDefaulted : Env → JsString → JsString → JsString → Type 0
IsDefaulted env name default v =
    ((env name ≡ none) × (v ≡ default)) ⊎ ((env name ≡ some v) × (v ≢ []))

settings_inj : {A : Type 0} (a b : A) → ok a ≡ ok b → b ≡ a
settings_inj a b e = cc

some_inj : {A : Type 0} {a b : A} → some a ≡ some b → a ≡ b
some_inj h = cc

long-ne-nil : (v : JsString) → 1 ≤ length v → v ≢ []
long-ne-nil [] h = omega arith
long-ne-nil (c ∷ v) h = λ e. cc

-- What the settings that the schema makes of an environment have from it, for the variables that the
-- worker reads too.
pub record Reads (env : Env) (config : Config) : Type 0 where
  pub redis_url : IsRequired env (js "REDIS_URL") config.redis_url
  pub database_url : IsRequired env (js "DATABASE_URL") config.database_url
  pub s3_endpoint : IsRequired env (js "S3_ENDPOINT") config.s3_endpoint
  pub s3_access_key : IsRequired env (js "S3_ACCESS_KEY") config.s3_access_key
  pub s3_secret_key : IsRequired env (js "S3_SECRET_KEY") config.s3_secret_key
  pub s3_bucket : IsDefaulted env (js "S3_BUCKET") (js "tts-audio") config.s3_bucket
  pub tts_queue_name : IsDefaulted env (js "TTS_QUEUE_NAME") (js "tts") config.tts_queue_name

read-IsRequired :
    (env : Env) (config : Config) (name : JsString) (value : Config → JsString)
    → IsReadBy env config (text_field name 1 none value)
    → IsRequired env name (value config)
read-IsRequired env config name value (inl (_, e)) = cc
read-IsRequired env config name value (inr (e, long)) = (e, long-ne-nil (value config) long)

read-IsDefaulted :
    (env : Env) (config : Config) (name default : JsString) (value : Config → JsString)
    → IsReadBy env config (text_field name 1 (some default) value)
    → IsDefaulted env name default (value config)
read-IsDefaulted env config name default value (inl (e, d)) = inl (e, sym (some_inj d))
read-IsDefaulted env config name default value (inr (e, long)) =
    inr (e, long-ne-nil (value config) long)

-- What the gateway's schema has read.
pub config_schema-Reads :
    (zod : Zod) (law : ZodLaw zod) (env : Env) (config : Config)
    → load_config zod env ≡ ok config
    → Reads env config
unfolding config_schema
config_schema-Reads zod law env config accepted =
    let (_, (database, (redis, (endpoint, (access, (secret, (bucket, (_, (queue, _))))))))) =
      law config_schema env config (load_config_sound zod env config accepted) in
    record {
      redis_url = read-IsRequired env config _ (λ x. x.redis_url) redis;
      database_url = read-IsRequired env config _ (λ x. x.database_url) database;
      s3_endpoint = read-IsRequired env config _ (λ x. x.s3_endpoint) endpoint;
      s3_access_key = read-IsRequired env config _ (λ x. x.s3_access_key) access;
      s3_secret_key = read-IsRequired env config _ (λ x. x.s3_secret_key) secret;
      s3_bucket = read-IsDefaulted env config _ _ (λ x. x.s3_bucket) bucket;
      tts_queue_name = read-IsDefaulted env config _ _ (λ x. x.tts_queue_name) queue;
    }

present : (env : Env) (name v : JsString) → IsRequired env name v → is_missing (env name) ≡ false
present env name [] (e, n) = absurd (n refl)
present env name (c ∷ s) (e, n) = rw e refl

defaulted :
    (env : Env) (name default v : JsString)
    → IsDefaulted env name default v
    → get_or (env name) default ≡ v
defaulted env name default v (inl (e, d)) = rw e (sym d)
defaulted env name default v (inr (e, n)) = rw e refl

-- The settings of a worker, by those of the gateway and what is the worker's own.
abbrev pub worker_settings :
    {Seconds : Type 0} → Config → Env → Seconds → Seconds → Settings Seconds
worker_settings config env timeout delay = record {
  redis_url = config.redis_url;
  database_url = config.database_url;
  s3_endpoint = config.s3_endpoint;
  s3_access_key = config.s3_access_key;
  s3_secret_key = config.s3_secret_key;
  s3_bucket = config.s3_bucket;
  tts_engine = get_or (env (js "TTS_ENGINE")) (js "fake");
  tts_device = get_or (env (js "TTS_DEVICE")) (js "auto");
  queue_name = config.tts_queue_name;
  job_timeout_seconds = timeout;
  fake_delay_seconds = delay;
}

has : (env : Env) (name v : JsString) → IsRequired env name v → value env name ≡ ok v
unfolding value
has env name v (e, n) = rw (value, e) refl

bound : {A B : Type 0} {m : Result A} {a : A} (f : A → Result B) → m ≡ ok a → (m >>= f) ≡ f a
unfolding ◌>>=◌
bound f e = ap (λ r. r >>= f) e

module _ {Seconds : Type 0} (float : JsString → Result Seconds) (env : Env) (config : Config)
    (reads : Reads env config) where
  abbrev pub with_numbers : Result Seconds → Result Seconds → Result (Settings Seconds)
  with_numbers (thrown t) _ = thrown t
  with_numbers (ok timeout) (thrown t) = thrown t
  with_numbers (ok timeout) (ok delay) = ok (worker_settings config env timeout delay)

  nothing_missing : missing_of env required ≡ []
  unfolding missing_of
  nothing_missing =
      rw
        (
          present env _ _ reads.redis_url,
          present env _ _ reads.database_url,
          present env _ _ reads.s3_endpoint,
          present env _ _ reads.s3_access_key,
          present env _ _ reads.s3_secret_key,
        )
        refl

  abbrev own : Seconds → Seconds → Settings Seconds
  own timeout delay = record (worker_settings config env timeout delay) {
    s3_bucket = get_or (env (js "S3_BUCKET")) (js "tts-audio");
    queue_name = get_or (env (js "TTS_QUEUE_NAME")) (js "tts");
  }

  own-worker_settings :
      (timeout delay : Seconds) → own timeout delay ≡ worker_settings config env timeout delay
  own-worker_settings timeout delay =
      rw (defaulted env _ _ _ reads.s3_bucket, defaulted env _ _ _ reads.tts_queue_name) refl

  numbers :
      (x y : Result Seconds)
      → (x >>= λ timeout. (y >>= λ delay. ok (own timeout delay))) ≡ with_numbers x y
  unfolding ◌>>=◌
  numbers (thrown t) y = refl
  numbers (ok timeout) (thrown t) = refl
  numbers (ok timeout) (ok delay) = ap ok (own-worker_settings timeout delay)

  built :
      build float env
      ≡ with_numbers
          (float (get_or (env (js "TTS_JOB_TIMEOUT_SECONDS")) (js "300")))
          (float (get_or (env (js "TTS_FAKE_DELAY_SECONDS")) (js "0")))
  unfolding build
  built =
      bound _ (has env _ _ reads.redis_url)
      ∙ (bound _ (has env _ _ reads.database_url)
          ∙ (bound _ (has env _ _ reads.s3_endpoint)
              ∙ (bound _ (has env _ _ reads.s3_access_key)
                  ∙ (bound _ (has env _ _ reads.s3_secret_key) ∙ numbers _ _))))

  -- On an environment that the gateway accepts, only a number of the worker's own can be refused.
  pub load_settings_accepted :
      load_settings float env
      ≡ with_numbers
          (float (get_or (env (js "TTS_JOB_TIMEOUT_SECONDS")) (js "300")))
          (float (get_or (env (js "TTS_FAKE_DELAY_SECONDS")) (js "0")))
  unfolding load_settings
  load_settings_accepted = rw nothing_missing built

  pub numbered :
      (s : Settings Seconds) (x y : Result Seconds)
      → with_numbers x y ≡ ok s
      → (timeout : Seconds) × (delay : Seconds) × (x ≡ ok timeout)
        × (y ≡ ok delay)
        × (s ≡ worker_settings config env timeout delay)
  numbered s (thrown t) y e = cc
  numbered s (ok timeout) (thrown t) e = cc
  numbered s (ok timeout) (ok delay) e =
      (timeout, delay, refl, refl, settings_inj (worker_settings config env timeout delay) s e)

-- A worker's consumer is joined to the gateway's clients: by the queue and its Redis, by the database,
-- and by the storage with its bucket.
abbrev pub IsJoined : {Seconds : Type 0} → Config → Consumer Seconds → Type 0
IsJoined config o =
    let clients = connections config in
    (o.queue_name ≡ clients.queue.name)
    × (o.connection ≡ clients.queue.connection.url)
    × (o.processor.conn ≡ clients.database_url)
    × (o.processor.bucket ≡ config.s3_bucket)
    × (o.processor.s3.endpoint_url ≡ clients.s3.endpoint)
    × (o.processor.s3.aws_access_key_id ≡ clients.s3.access_key_id)
    × (o.processor.s3.aws_secret_access_key ≡ clients.s3.secret_access_key)
    × (o.processor.s3.region_name ≡ clients.s3.region)

consumer-IsJoined :
    (machine : Machine) (env : Env) (config : Config) (settings : Settings machine.Seconds)
    (engine : Engine machine.Seconds) (timeout delay : machine.Seconds)
    → settings ≡ worker_settings config env timeout delay
    → IsJoined config (consumer machine settings engine)
consumer-IsJoined machine env config settings engine timeout delay e =
    rw e (refl, refl, refl, refl, refl, refl, refl, refl)

-- With a schema library that reads the fields of a schema as documented: on an environment from which
-- the gateway has its settings by its schema, a worker that consumes jobs takes them from the queue into which the
-- gateway puts them, in the same Redis, writes to the gateway's database, and uploads to the storage
-- and the bucket from which the gateway serves recordings, whichever variables are left to their
-- defaults on either side.
pub starts_agree :
    (machine : Machine) (zod : Zod) (law : ZodLaw zod) (env : Env) (config : Config)
    (signalled : Bool) (o : Consumer machine.Seconds)
    → load_config zod env ≡ ok config
    → Memᴰ (consuming o) (run_worker machine env signalled).1
    → IsJoined config o
starts_agree machine zod law env config signalled o accepted m =
    let c = run-Consumes machine env signalled o m in
    let reads = config_schema-Reads zod law env config accepted in
    let (timeout, delay, _, _, e) =
      numbered machine.float env config reads c.settings _ _
        (sym (load_settings_accepted machine.float env config reads) ∙ c.loaded) in
    subst (IsJoined config) (sym c.is_consumer)
      (consumer-IsJoined machine env config c.settings c.engine timeout delay e)
