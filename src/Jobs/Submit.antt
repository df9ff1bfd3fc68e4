-- ===== src/Jobs/Submit.antt =====
-- POST /v1/tts, and the rate limit's Effect on the gateway's Redis (gateway/src/lib/rate-limit.ts).
pub mod Admission
pub mod Cap
pub mod Gates
pub mod HandOver
pub mod Insertion
pub mod Rows
pub mod Transaction
pub mod Replay
pub mod Held
pub mod Twice
pub mod Overshoot
use bengali_tts_service.Base.{
  ℕ, ◌+◌, Bool, false, Option, none, some, List, [], ◌∷◌, ◌++◌, leb, if◌then◌else◌,
}
use bengali_tts_service.Text.{JsString, js, text_eq}
use bengali_tts_service.Errors.{
  Result, ok, thrown, Thrown, Exit, fail, die, domain, prisma_known_request, run_effect,
  pending_cap_exceeded, queue_full,
}
use bengali_tts_service.RateLimit.{now_ms, take_token, rate_limit_exit}
use bengali_tts_service.TtsText.{validate_tts_text}
use bengali_tts_service.Http.{Loose, one, several, validate}
use bengali_tts_service.Schema.{Job, queued, active}
use bengali_tts_service.Queue.{RetryPolicy, queue_depth, enqueue_tts_job}
use bengali_tts_service.Deps.Prisma.{JobWhere, anywhere}
use bengali_tts_service.Deps.Clients.{RedisClient}
use bengali_tts_service.Deps.Action.{
  World, AppDeps, Rejections, Act, pure, raise, lift, query, update, with_queue, catching,
  count_rejection, ◌>>=◌, ◌>>◌,
}
use bengali_tts_service.Jobs.Shared.{
  AuthedUser, Reply, Submission, read_idempotency_key, submission_body,
  respond_for_idempotent_retry,
}

-- `redis.eval(TAKE_TOKEN, 1, "rate:" + user, perMinute)`, and the verdict on it. An evaluation that
-- does not reach Redis is a defect of the Effect, not one of its failures.
unfoldable pub take_rate_limit_token :
    (client : RedisClient) → JsString → ℕ → client.Redis → Exit (Unit {0}) × client.Redis
take_rate_limit_token client user_id per_minute r = elim (client.unreachable r) [
  | some fault ↦ (die fault, r)
  | none ↦
      let key = js "rate:" ++ user_id in
      let v = take_token per_minute (now_ms (client.time r)) (client.hmget key r) in
      (rate_limit_exit v, client.pexpire key 60000 (client.hset key v.bucket r))
]

pub record SubmitRequest (deps : AppDeps) : Type 0 where
  pub id : Loose
  pub idempotency_key : Option Loose
  pub body : deps.schemas.Body

-- `typeof req.id === 'string' ? req.id : undefined`
abbrev pub correlation_id : Loose → Option JsString
correlation_id (one id) = some id
correlation_id (several l) = none

abbrev pub count_rate_limit : Rejections → Rejections
count_rate_limit r = record r { rate_limit = r.rate_limit + 1 }

abbrev pub count_pending_cap : Rejections → Rejections
count_pending_cap r = record r { pending_cap = r.pending_cap + 1 }

abbrev pub count_queue_full : Rejections → Rejections
count_queue_full r = record r { queue_full = r.queue_full + 1 }

-- `Effect.tapError`: only a failure is counted, neither a success nor a defect.
abbrev pub tap_error : Exit (Unit {0}) → Rejections → Rejections
tap_error (fail e) r = count_rate_limit r
tap_error _ r = r

-- What the `try` round the transaction ends with: a new row, or an answer that was sent already.
pub data Admitted : Type 0 where
  inserted : Job → Admitted
  replayed : Reply Submission → Admitted

-- `{ userId, status: { in: ['QUEUED', 'ACTIVE'] } }`, `{ userId, idempotencyKey }`.
abbrev pub pending_of : JsString → JobWhere
pending_of user_id = record anywhere {
  user_id = some user_id;
  status_in = some (queued ∷ active ∷ []);
}

abbrev pub keyed : JsString → JsString → JobWhere
keyed user_id key = record anywhere { user_id = some user_id; idempotency_key = some key }

-- The test `err instanceof PrismaClientKnownRequestError && err.code === 'P2002'`.
abbrev pub is_unique_violation : Thrown → Bool
is_unique_violation (prisma_known_request code) = text_eq code (js "P2002")
is_unique_violation _ = false

-- What the transaction does before its insert, in order.
pub data Gate : Type 0 where
  takes_lock counts_pending reads_depth : Gate

abbrev pub gates : List Gate
gates = takes_lock ∷ counts_pending ∷ reads_depth ∷ []

module _ (deps : AppDeps) where
  -- The first gate, with its metric.
  unfoldable pub rate_limit_gate : AuthedUser → Act deps (Unit {0})
  rate_limit_gate user w =
      let (x, r) =
        take_rate_limit_token deps.redis user.id deps.config.tts_rate_limit_per_minute w.redis in
      (run_effect x, record w { redis = r; rejections = tap_error x w.rejections })

  -- The second gate: the user's unfinished jobs.
  unfoldable pub pending_gate : AuthedUser → Act deps (Unit {0})
  pending_gate user = do
    pending ← query (deps.prisma.job_count (pending_of user.id))
    if leb deps.config.tts_pending_cap pending
        then (count_rejection count_pending_cap >> raise (domain pending_cap_exceeded))
        else pure tt

  -- The third gate: the backlog of the queue.
  unfoldable pub queue_gate : Act deps (Unit {0})
  queue_gate = do
    depth ← with_queue (queue_depth deps.queue deps.effects)
    if leb deps.config.tts_queue_capacity depth
        then (count_rejection count_queue_full >> raise (domain queue_full))
        else pure tt

  -- The statements of the transaction before its insert. `takes_lock` is `pg_advisory_xact_lock`.
  abbrev pub run_gate : AuthedUser → Gate → Act deps (Unit {0})
  run_gate user takes_lock = update (deps.prisma.advisory_lock user.id)
  run_gate user counts_pending = pending_gate user
  run_gate user reads_depth = queue_gate

  abbrev pub in_order : AuthedUser → List Gate → Act deps Job → Act deps Job
  in_order user [] insert = insert
  in_order user (g ∷ rest) insert = run_gate user g >> in_order user rest insert

  abbrev pub insert_job : AuthedUser → JsString → Option JsString → Act deps Job
  insert_job user text key = update (
      deps.prisma.job_create
        (record { user_id = user.id; input_text = text; idempotency_key = key }))

  -- The body of the transaction.
  unfoldable pub admit_in_transaction : AuthedUser → JsString → Option JsString → Act deps Job
  admit_in_transaction user text key = in_order user gates (insert_job user text key)

  -- A rollback, and then the throw.
  abbrev pub undo : {A : Type 0} → deps.prisma.Db → Thrown → Act deps A
  undo before t w = (thrown t, record w { db = deps.prisma.rollback before w.db })

  -- `prisma.$transaction(body)`: what the body wrote is committed; it is rolled back if the body
  -- throws or the commit fails.
  abbrev pub end_transaction :
      {A : Type 0} → deps.prisma.Db → Result A × World deps → Result A × World deps
  end_transaction before (ok a, w) = catching (update deps.prisma.commit >> pure a) (undo before) w
  end_transaction before (thrown t, w) = undo before t w

  unfoldable pub transaction : {A : Type 0} → Act deps A → Act deps A
  transaction body w = end_transaction w.db (body w)

  abbrev pub winner_or : Option Job → Thrown → deps.schemas.Body → Act deps Admitted
  winner_or none err body = raise err
  winner_or (some winner) err body = do
    reply ← lift (respond_for_idempotent_retry deps winner body)
    pure (replayed reply)

  -- The `catch` round the transaction: a lost race for the key is answered from the winner's row.
  unfoldable pub recover :
      AuthedUser → Option JsString → deps.schemas.Body → Thrown → Act deps Admitted
  recover user none body err = raise err
  recover user (some key) body err =
      if is_unique_violation err
      then (do
        winner ← query (deps.prisma.job_find_first (keyed user.id key))
        winner_or winner err body)
      else raise err

  unfoldable pub insert_row :
      AuthedUser → JsString → Option JsString → deps.schemas.Body → Act deps Admitted
  insert_row user text key body =
      catching (transaction (admit_in_transaction user text key) >>= λ job. pure (inserted job))
        (recover user key body)

  -- The workers' own retry policy, carried on the job.
  abbrev pub delivery : RetryPolicy
  delivery = record {
    attempts = deps.config.tts_job_attempts;
    backoff_ms = deps.config.tts_retry_backoff_ms;
  }

  -- The hand-over to the queue; a row that has no entry there is deleted again.
  unfoldable pub hand_over : Loose → Job → Act deps (Unit {0})
  hand_over req_id job =
      catching (with_queue (enqueue_tts_job deps.queue job.id delivery (correlation_id req_id)))
        (λ err. catching (update (deps.prisma.job_delete job.id)) (λ _. pure tt) >> raise err)

  abbrev pub finish : SubmitRequest deps → Admitted → Act deps (Reply Submission)
  finish req (replayed reply) = pure reply
  finish req (inserted job) =
      hand_over req.id job >> pure (record { status = 202; body = submission_body deps job })

  -- What follows the replay: the gates in order, the row, the hand-over.
  unfoldable pub admit :
      AuthedUser → Option JsString → SubmitRequest deps → Act deps (Reply Submission)
  admit user key req = do
    rate_limit_gate user
    text ← lift (validate deps.schemas.submit req.body)
    lift (run_effect (validate_tts_text text deps.config.tts_max_text_length))
    admitted ← insert_row user text key req.body
    finish req admitted

  abbrev pub find_existing : AuthedUser → Option JsString → Act deps (Option Job)
  find_existing user none = pure none
  find_existing user (some key) = query (deps.prisma.job_find_first (keyed user.id key))

  abbrev pub replay_or_admit :
      AuthedUser → Option JsString → SubmitRequest deps → Option Job → Act deps (Reply Submission)
  replay_or_admit user key req none = admit user key req
  replay_or_admit user key req (some existing) =
      lift (respond_for_idempotent_retry deps existing req.body)

  unfoldable pub submit : AuthedUser → SubmitRequest deps → Act deps (Reply Submission)
  submit user req = do
    key ← lift (read_idempotency_key req.idempotency_key)
    existing ← find_existing user key
    replay_or_admit user key req existing
