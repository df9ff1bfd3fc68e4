-- ===== src/Server/Boot.antt =====
-- gateway/src/server.ts: the boot.
use bengali_tts_service.Base.{ℕ, ◌≡◌, refl, sym, ap, ◌∙◌, ◌≤◌, ◌++◌}
use bengali_tts_service.Text.{JsString, js}
use bengali_tts_service.Errors.{
  Result, ok, thrown, Thrown, other, run_effect, Exit, succeed, fail, die,
}
use bengali_tts_service.Http.{Parsed, success, failure}
use bengali_tts_service.Config.{Config, Env}
use bengali_tts_service.Config.Schema.{Zod, config_schema}
use bengali_tts_service.Config.Load.{
  load_config, missing_variables, S3Options, RedisOptions, QueueOptions, create_s3, create_redis,
  create_tts_queue,
}
use bengali_tts_service.Storage.{ensure_once, ensure_bucket}
use bengali_tts_service.Storage.Attempts.{ensure_bucket-EndsWith}
use bengali_tts_service.Deps.Retry.{RetryLaw, attempt}
use bengali_tts_service.Deps.Clients.{S3Client, EffectRuntime}
use bengali_tts_service.Server.{Process, listening}

-- What the clients are made from.
pub record Connections : Type 0 where
  pub database_url : JsString
  pub redis : RedisOptions
  pub s3 : S3Options
  pub queue : QueueOptions

abbrev pub connections : Config → Connections
connections config =
    let redis = create_redis config.redis_url in
    record {
      database_url = config.database_url;
      redis = redis;
      s3 = create_s3 config;
      queue = create_tts_queue redis config.tts_queue_name;
    }

-- How a boot ends: with a throw, which ends the process before it listens, or with the server on its
-- port, its clients made from the settings.
pub data Outcome : Type 0 where
  refused : Thrown → Outcome
  serving : ℕ → Connections → Process → Outcome

abbrev pub listen_if : Config → ℕ → Result (Unit {0}) → Outcome
listen_if config now (ok _) = serving config.port (connections config) (listening now)
listen_if config now (thrown t) = refused t

module _ (s3 : S3Client) (effects : EffectRuntime) where
  abbrev pub after_config : ℕ → Result Config → s3.S3 → Outcome × s3.S3
  after_config now (thrown t) s = (refused t, s)
  after_config now (ok config) s =
      let (x, s') = ensure_bucket s3 effects config.s3_bucket s in
      (listen_if config now (run_effect x), s')

  -- The settings, the clients, the bucket, and only then the server.
  unfoldable pub boot : Zod → Env → ℕ → s3.S3 → Outcome × s3.S3
  boot zod env now s = after_config now (load_config zod env) s

ok_inj : (a b : Config) → ok a ≡ ok b → a ≡ b
ok_inj a b h = cc

loaded :
    (x : Parsed Config) (config : Config)
    → (elim x [
      | success c ↦ ok c
      | failure issues ↦ thrown (
          other
            (js "Invalid configuration, check environment variables: " ++ missing_variables issues))
    ])
      ≡ ok config
    → x ≡ success config
loaded (success c) config h = ap success (ok_inj c config h)
loaded (failure issues) config h = cc

-- Settings that were loaded are what the schema made of the environment.
pub load_config_sound :
    (zod : Zod) (env : Env) (config : Config)
    → load_config zod env ≡ ok config
    → zod config_schema env ≡ success config
unfolding load_config
load_config_sound zod env config h = loaded (zod config_schema env) config h

refused-ne-serving :
    (t : Thrown) (port : ℕ) (clients : Connections) (p : Process)
    → ¬ (refused t ≡ serving port clients p)
refused-ne-serving t port clients p h = cc

serving_inj :
    (a port : ℕ) (b clients : Connections) (c p : Process)
    → serving a b c ≡ serving port clients p
    → (port ≡ a) × (clients ≡ b) × (p ≡ c)
serving_inj a port b clients c p h = (cc, cc, cc)

listened :
    (config : Config) (now : ℕ) (x : Exit (Unit {0})) (port : ℕ) (clients : Connections)
    (p : Process)
    → listen_if config now (run_effect x) ≡ serving port clients p
    → (x ≡ succeed tt) × (port ≡ config.port) × (clients ≡ connections config) × (p ≡ listening now)
unfolding run_effect
listened config now (succeed u) port clients p h =
    let (a, b, c) = serving_inj config.port port (connections config) clients (listening now) p h in
    (refl, a, b, c)
listened config now (fail t) port clients p h = absurd (refused-ne-serving t port clients p h)
listened config now (die t) port clients p h = absurd (refused-ne-serving t port clients p h)

module _ (s3 : S3Client) (effects : EffectRuntime) (law : RetryLaw effects) where
  -- How a boot that serves has gone.
  pub record Serves (zod : Zod) (env : Env) (now : ℕ) (s : s3.S3) (port : ℕ) (clients : Connections)
      (p : Process) : Type 0 where
    pub config : Config
    pub conforms : zod config_schema env ≡ success config
    pub port_lem : port ≡ config.port
    pub clients_lem : clients ≡ connections config
    pub listens : p ≡ listening now
    pub failed : ℕ
    pub bound : failed ≤ 6
    pub bucket_lem : (attempt failed (ensure_once s3 config.s3_bucket) s).0 ≡ succeed tt

  serves :
      (zod : Zod) (env : Env) (now : ℕ) (s s' : s3.S3) (port : ℕ) (clients : Connections)
      (p : Process) (r : Result Config)
      → load_config zod env ≡ r
      → after_config s3 effects now r s ≡ (serving port clients p, s')
      → Serves zod env now s port clients p
  unfolding load_config
  serves zod env now s s' port clients p (thrown t) e h =
      absurd (refused-ne-serving t port clients p (ap (λ (o, v). o) h))
  serves zod env now s s' port clients p (ok config) e h =
      let (x, v) = ensure_bucket s3 effects config.s3_bucket s in
      let (done, port_e, clients_e, p_e) =
        listened config now x port clients p (ap (λ (o, v). o) h) in
      let ends = ensure_bucket-EndsWith s3 effects law config.s3_bucket s in
      record {
        config = config;
        conforms = load_config_sound zod env config e;
        port_lem = port_e;
        clients_lem = clients_e;
        listens = p_e;
        failed = ends.k;
        bound = ends.bound;
        bucket_lem = sym (ap (λ (y, u). y) ends.is_attempt) ∙ done;
      }

  -- The server listens only if the environment conforms to the schema of the settings and one of
  -- the seven attempts at most to have the bucket succeeded; it is then on the port of the settings,
  -- and its clients are made from them.
  pub boot-Serves :
      (zod : Zod) (env : Env) (now : ℕ) (s s' : s3.S3) (port : ℕ) (clients : Connections)
      (p : Process)
      → boot s3 effects zod env now s ≡ (serving port clients p, s')
      → Serves zod env now s port clients p
  unfolding boot
  boot-Serves zod env now s s' port clients p h =
      serves zod env now s s' port clients p (load_config zod env) refl h
