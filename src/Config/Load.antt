-- ===== src/Config/Load.antt =====
-- gateway/src/config.ts, loadConfig, and what the constructors of the clients take from the settings
-- (gateway/src/lib/storage.ts, gateway/src/lib/redis.ts, gateway/src/lib/prisma.ts and
-- gateway/src/lib/queue.ts).
use bengali_tts_service.Base.{ℕ, Bool, true, Option, none, List, [], ◌∷◌, ◌++◌, map}
use bengali_tts_service.Text.{JsString, js}
use bengali_tts_service.Errors.{Result, ok, thrown, other}
use bengali_tts_service.Http.{success, failure, ZodIssue, join_dots}
use bengali_tts_service.Config.{Config, Env}
use bengali_tts_service.Config.Schema.{Zod, config_schema}

-- `.join(', ')`
unfoldable pub join_commas : List JsString → JsString
join_commas [] = []
join_commas (s ∷ []) = s
join_commas (s ∷ t ∷ rest) = s ++ (js ", " ++ join_commas (t ∷ rest))

abbrev path_of : ZodIssue → JsString
path_of i = join_dots i.path

abbrev pub missing_variables : List ZodIssue → JsString
missing_variables issues = join_commas (map path_of issues)

unfoldable pub load_config : Zod → Env → Result Config
load_config zod env = elim (zod config_schema env) [
  | success config ↦ ok config
  | failure issues ↦ thrown (
      other (js "Invalid configuration, check environment variables: " ++ missing_variables issues))
]

pub record S3Options : Type 0 where
  pub endpoint : JsString
  pub region : JsString
  pub access_key_id : JsString
  pub secret_access_key : JsString
  pub force_path_style : Bool

abbrev pub create_s3 : Config → S3Options
create_s3 config = record {
  endpoint = config.s3_endpoint;
  region = js "us-east-1";
  access_key_id = config.s3_access_key;
  secret_access_key = config.s3_secret_key;
  force_path_style = true;
}

pub record RedisOptions : Type 0 where
  pub url : JsString
  pub max_retries_per_request : Option ℕ

abbrev pub create_redis : JsString → RedisOptions
create_redis redis_url = record { url = redis_url; max_retries_per_request = none }

pub record QueueOptions : Type 0 where
  pub name : JsString
  pub connection : RedisOptions

abbrev pub create_tts_queue : RedisOptions → JsString → QueueOptions
create_tts_queue redis queue_name = record { name = queue_name; connection = redis }
