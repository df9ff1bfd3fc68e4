-- ===== src/Deps/Clients.antt =====
-- The other clients: Redis, the job queue, object storage, the schemas, and the Effect runtime.
use bengali_tts_service.Base.{ℕ, Bool, Option, List}
use bengali_tts_service.Text.{JsString}
use bengali_tts_service.Errors.{Result, Exit, Thrown}
use bengali_tts_service.RateLimit.{Bucket}
use bengali_tts_service.Http.{Parsed}

-- The commands of the token bucket's script, and whether an evaluation reaches the server.
pub record RedisClient : Type 1 where
  pub Redis : Type 0
  pub unreachable : Redis → Option Thrown
  pub time : Redis → ℕ × ℕ
  pub hmget : JsString → Redis → Option Bucket
  pub hset : JsString → Bucket → Redis → Redis
  pub pexpire : JsString → ℕ → Redis → Redis

-- What a job carries through the queue, and the options of its delivery.
pub record TtsJobPayload : Type 0 where
  pub job_id : JsString
  pub correlation_id : Option JsString

pub record AddOptions : Type 0 where
  pub job_id : JsString
  pub attempts : ℕ
  pub backoff_ms : ℕ

-- Reading the queue takes time, in which it may change: so a read has a next state too.
pub record QueueClient : Type 1 where
  pub Queue : Type 0
  pub get_job_counts : Queue → Result (List (Option ℕ)) × Queue
  pub add : JsString → TtsJobPayload → AddOptions → Queue → Result (Unit {0}) × Queue

-- `Effect.retry`: again while the test holds of the failure, `n` times more at most.
pub record EffectRuntime : Type 1 where
  pub retry : (S A : Type 0) → (Thrown → Bool) → ℕ → (S → Exit A × S) → S → Exit A × S

-- How a call to object storage ends: with its output, or rejected by a cause, which has the HTTP
-- status of an answer if there was one.
pub data Sent (A : Type 0) : Type 0 where
  sent : A → Sent A
  rejected : Option ℕ → Sent A

-- The output of a GetObjectCommand: the body's bytes, and the length if it is given.
pub record ObjectOutput : Type 0 where
  pub content_length : Option ℕ
  pub bytes : List ℕ

pub record S3Client : Type 1 where
  pub S3 : Type 0
  pub head_bucket : JsString → S3 → Sent (Unit {0}) × S3
  pub create_bucket : JsString → S3 → Sent (Unit {0}) × S3
  pub get_object : JsString → JsString → S3 → Sent ObjectOutput × S3

-- What `limit` and `cursor` of a history query are parsed to.
pub record HistoryQuery : Type 0 where
  pub limit : ℕ
  pub cursor : Option JsString

pub record Schemas : Type 1 where
  pub Body : Type 0
  pub Query : Type 0
  pub submit : Body → Parsed JsString
  pub history : Query → Parsed HistoryQuery
