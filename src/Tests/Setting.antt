-- ===== src/Tests/Setting.antt =====
-- A gateway whose clients keep their state in memory, with a few rows and requests.
use bengali_tts_service.Base.{
  ℕ, zero, suc, ◌≡◌, refl, Bool, Option, none, some, List, [], ◌∷◌, if◌then◌else◌, length,
}
use bengali_tts_service.Text.{JsString, js, text_eq}
use bengali_tts_service.Errors.{ok, Thrown, Exit, succeed, fail, die}
use bengali_tts_service.Schema.{Job, queued, completed}
use bengali_tts_service.Config.{Config}
use bengali_tts_service.RateLimit.{Bucket}
use bengali_tts_service.Http.{Parsed, success, failure}
use bengali_tts_service.Deps.Clients.{
  RedisClient, QueueClient, S3Client, EffectRuntime, Schemas, HistoryQuery, Sent, sent, rejected,
  ObjectOutput,
}
use bengali_tts_service.Deps.Retry.{RetryLaw, go_on}
use bengali_tts_service.Deps.Action.{AppDeps, World}
use bengali_tts_service.Jobs.Shared.{AuthedUser}
use bengali_tts_service.Tests.Memory.{memory_prisma}

abbrev set_bucket : JsString → Bucket → (JsString → Option Bucket) → JsString → Option Bucket
set_bucket key b r k = if text_eq k key then some b else r k

-- Its clock stands still, and it is always reached.
abbrev memory_redis : RedisClient
memory_redis = record {
  Redis = JsString → Option Bucket;
  unreachable = λ r. none;
  time = λ r. (5000, 0);
  hmget = λ key r. r key;
  hset = λ key b r. set_bucket key b r;
  pexpire = λ key ms r. r;
}

-- The ids that wait in the queue.
abbrev pub memory_queue : QueueClient
memory_queue = record {
  Queue = List JsString;
  get_job_counts = λ q. (ok (some (length q) ∷ none ∷ some 0 ∷ []), q);
  add = λ name payload options q. (ok tt, payload.job_id ∷ q);
}

abbrev object_at : JsString → List (JsString × List ℕ) → Sent ObjectOutput
object_at key [] = rejected (some 404)
object_at key ((k, bytes) ∷ l) =
    if text_eq k key
    then sent (record { content_length = some (length bytes); bytes = bytes })
    else object_at key l

abbrev pub memory_s3 : S3Client
memory_s3 = record {
  S3 = List (JsString × List ℕ);
  head_bucket = λ bucket s. (sent tt, s);
  create_bucket = λ bucket s. (sent tt, s);
  get_object = λ bucket key s. (object_at key s, s);
}

abbrev retried : {S A : Type 0} → (Thrown → Bool) → (S → Exit A × S) → Exit A × S → Exit A × S
retried again later (succeed a, s) = (succeed a, s)
retried again later (fail t, s) = if again t then later s else (fail t, s)
retried again later (die t, s) = (die t, s)

abbrev retry_at_once : (S A : Type 0) → (Thrown → Bool) → ℕ → (S → Exit A × S) → S → Exit A × S
retry_at_once S A again zero m s = m s
retry_at_once S A again (suc n) m s = retried again (retry_at_once S A again n m) (m s)

abbrev pub memory_effects : EffectRuntime
memory_effects = record { retry = retry_at_once }

retried_once :
    (S A : Type 0) (again : Thrown → Bool) (n : ℕ) (m : S → Exit A × S) (r : Exit A × S)
    → retried again (retry_at_once S A again n m) r ≡ go_on memory_effects again (suc n) m r
retried_once S A again n m (succeed a, s) = refl
retried_once S A again n m (fail t, s) = refl
retried_once S A again n m (die t, s) = refl

retried_lem :
    (S A : Type 0) (again : Thrown → Bool) (n : ℕ) (m : S → Exit A × S) (s : S)
    → memory_effects.retry S A again n m s ≡ go_on memory_effects again n m (m s)
retried_lem S A again zero m s = refl
retried_lem S A again (suc n) m s = retried_once S A again n m (m s)

pub memory_retry : RetryLaw memory_effects
memory_retry = record { retry_lem = retried_lem }

-- A body is its text, if it is not the empty string; a query is its own parse.
abbrev parse_body : JsString → Parsed JsString
parse_body [] = failure (record { path = js "text" ∷ []; message = js "Required" } ∷ [])
parse_body (c ∷ s) = success (c ∷ s)

abbrev memory_schemas : Schemas
memory_schemas = record {
  Body = JsString;
  Query = HistoryQuery;
  submit = parse_body;
  history = λ q. success q;
}

abbrev settings : Config
settings = record {
  port = 3000;
  database_url = js "postgres://db";
  redis_url = js "redis://redis";
  s3_endpoint = js "http://minio";
  s3_access_key = js "access";
  s3_secret_key = js "secret";
  log_level = js "info";
  tts_queue_name = js "tts";
  s3_bucket = js "audio";
  tts_max_text_length = 20;
  poll_interval_ms = 1000;
  sse_poll_interval_ms = 1000;
  tts_rate_limit_per_minute = 2;
  tts_pending_cap = 2;
  tts_queue_capacity = 5;
  tts_job_attempts = 3;
  tts_retry_backoff_ms = 500;
}

abbrev pub gateway : AppDeps
gateway = record {
  config = settings;
  prisma = memory_prisma;
  redis = memory_redis;
  queue = memory_queue;
  s3 = memory_s3;
  effects = memory_effects;
  schemas = memory_schemas;
}

abbrev pub rahim : AuthedUser
rahim = record { id = js "rahim"; email = js "rahim@example.com" }

abbrev pub karim : AuthedUser
karim = record { id = js "karim"; email = js "karim@example.com" }

-- The Bengali word for Bengali.
abbrev pub bangla : JsString
bangla = 0x09ac ∷ 0x09be ∷ 0x0982 ∷ 0x09b2 ∷ 0x09be ∷ []

abbrev pub done_job : Job
done_job = record {
  id = js "job-0";
  user_id = js "rahim";
  status = completed;
  input_text = bangla;
  idempotency_key = some (js "k1");
  audio_key = some (js "audio/job-0.wav");
  error_code = none;
  error_message = none;
  created_at = 0;
  started_at = some 1;
  completed_at = some 2;
}

abbrev pub waiting_job : Job
waiting_job = record done_job {
  id = js "job-1";
  status = queued;
  idempotency_key = none;
  audio_key = none;
  started_at = none;
  completed_at = none;
}

abbrev pub start : World gateway
start = record {
  db = waiting_job ∷ done_job ∷ [];
  redis = λ key. none;
  queue = js "job-1" ∷ [];
  s3 = (js "audio/job-0.wav", 82 ∷ 73 ∷ 70 ∷ 70 ∷ []) ∷ [];
  rejections = record { rate_limit = 0; pending_cap = 0; queue_full = 0 };
}
