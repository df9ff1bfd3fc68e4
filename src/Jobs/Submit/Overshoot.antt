-- ===== src/Jobs/Submit/Overshoot.antt =====
-- The gate of the queue under submissions that overlap: the depth is read in the transaction, and the
-- hand-over comes after it.
use bengali_tts_service.Base.{
  ℕ, zero, suc, ◌+◌, ◌-◌, ◌≤◌, ◌<◌, ◌≡◌, sym, ap, ◌∙◌, Option, List, arith,
}
use bengali_tts_service.Text.{JsString, js}
use bengali_tts_service.Errors.{ok, thrown, Thrown, Exit, succeed}
use bengali_tts_service.Http.{Loose}
use bengali_tts_service.Schema.{Job}
use bengali_tts_service.Queue.{read_depth, queue_depth, enqueue_tts_job}
use bengali_tts_service.Queue.Depth.{total, queue_depth-EndsWith, read_depth-eq-succeed}
use bengali_tts_service.Deps.Clients.{QueueClient, TtsJobPayload, AddOptions}
use bengali_tts_service.Deps.Retry.{RetryLaw, attempt}
use bengali_tts_service.Deps.Action.{AppDeps, World}
use bengali_tts_service.Jobs.Submit.{queue_gate, hand_over, delivery, correlation_id}
use bengali_tts_service.Jobs.Submit.Gates.{queue_gate_open}

-- The documented behaviour of the queue: the counts are those of its depth, a read adds no job, and an
-- addition adds one at most, the id being the job's.
pub record QueueDepth (q : QueueClient) : Type 0 where
  pub depth : q.Queue → ℕ
  pub counts_lem :
      (s : q.Queue) (counts : List (Option ℕ))
      → (q.get_job_counts s).0 ≡ ok counts
      → total counts ≡ depth s
  pub read_adds_none : (s : q.Queue) → depth (q.get_job_counts s).1 ≤ depth s
  pub add_one :
      (name : JsString) (payload : TtsJobPayload) (options : AddOptions) (s : q.Queue)
      → depth (q.add name payload options s).1 ≤ depth s + 1

module _ (deps : AppDeps) (law : RetryLaw deps.effects) (jq : QueueDepth deps.queue) where
  -- What happens to the queue and to the number of submissions between the read of the depth and the
  -- hand-over: a gate lets a submission through, where there were fewer than `n` of them, or does not;
  -- a submission hands its job over, well or not, or ends without; workers take jobs off.
  pub data Step (n : ℕ) : deps.queue.Queue → ℕ → deps.queue.Queue → ℕ → Type 0 where
    passed :
        (w : World deps) (k : ℕ)
        → k < n
        → (queue_gate deps w).0 ≡ ok tt
        → Step n w.queue k (queue_gate deps w).1.queue (suc k)
    refused :
        (w : World deps) (k : ℕ) (t : Thrown)
        → (queue_gate deps w).0 ≡ thrown t
        → Step n w.queue k (queue_gate deps w).1.queue k
    handed :
        (id : Loose) (job : Job) (w : World deps) (k : ℕ)
        → Step n w.queue (suc k) (hand_over deps id job w).1.queue k
    ended : (q : deps.queue.Queue) (k : ℕ) → Step n q (suc k) q k
    worked : (q q' : deps.queue.Queue) (k : ℕ) → jq.depth q' ≤ jq.depth q → Step n q k q' k

  pub data Run (n : ℕ) : deps.queue.Queue → ℕ → deps.queue.Queue → ℕ → Type 0 where
    done : (q : deps.queue.Queue) (k : ℕ) → Run n q k q k
    next :
        (q q' q'' : deps.queue.Queue) (k k' k'' : ℕ)
        → Step n q k q' k'
        → Run n q' k' q'' k''
        → Run n q k q'' k''

  read_depth-le : (q : deps.queue.Queue) → jq.depth (read_depth deps.queue q).1 ≤ jq.depth q
  unfolding read_depth
  read_depth-le q = ground (arith, jq.read_adds_none q)

  attempt-le :
      (k : ℕ) (q : deps.queue.Queue) → jq.depth (attempt k (read_depth deps.queue) q).1 ≤ jq.depth q
  attempt-le zero q = read_depth-le q
  attempt-le (suc k) q = omega (arith, attempt-le k (read_depth deps.queue q).1, read_depth-le q)

  -- A depth that is read bounds the depth after the read.
  attempt-succeeds :
      (k : ℕ) (q : deps.queue.Queue) (n : ℕ)
      → (attempt k (read_depth deps.queue) q).0 ≡ succeed n
      → jq.depth (attempt k (read_depth deps.queue) q).1 ≤ n
  attempt-succeeds zero q n h =
      let (counts, given, sum) = read_depth-eq-succeed deps.queue deps.effects law q n h in
      omega (arith, read_depth-le q, sum, jq.counts_lem q counts given)
  attempt-succeeds (suc k) q n h = attempt-succeeds k (read_depth deps.queue q).1 n h

  queue-queue_gate :
      (w : World deps)
      → (queue_gate deps w).1.queue ≡ (queue_depth deps.queue deps.effects w.queue).1
  unfolding queue_gate
  queue-queue_gate w = ground arith

  queue_gate-le : (w : World deps) → jq.depth (queue_gate deps w).1.queue ≤ jq.depth w.queue
  queue_gate-le w =
      let ends = queue_depth-EndsWith deps.queue deps.effects law w.queue in
      rw (queue-queue_gate w, ends.is_attempt) (attempt-le ends.k w.queue)

  -- The gate lets a submission through only below the capacity.
  passed-lt :
      (w : World deps)
      → (queue_gate deps w).0 ≡ ok tt
      → jq.depth (queue_gate deps w).1.queue < deps.config.tts_queue_capacity
  passed-lt w h =
      let (n, read, below) = queue_gate_open deps w h in
      let ends = queue_depth-EndsWith deps.queue deps.effects law w.queue in
      let le : jq.depth (attempt ends.k (read_depth deps.queue) w.queue).1 ≤ n =
        attempt-succeeds ends.k w.queue n
          (ap (λ (r : Exit ℕ × deps.queue.Queue). r.0) (sym ends.is_attempt) ∙ read) in
      rw (queue-queue_gate w, ends.is_attempt) (omega (arith, le, below))

  enqueue-le :
      (id : JsString) (correlation : Option JsString) (q : deps.queue.Queue)
      → jq.depth (enqueue_tts_job deps.queue id (delivery deps) correlation q).1 ≤ jq.depth q + 1
  unfolding enqueue_tts_job
  enqueue-le id correlation q =
      let one =
        jq.add_one (js "synthesize") (record { job_id = id; correlation_id = correlation })
          (record {
            job_id = id;
            attempts = deps.config.tts_job_attempts;
            backoff_ms = deps.config.tts_retry_backoff_ms;
          })
          q in
      ground (arith, one)

  queue-hand_over :
      (id : Loose) (job : Job) (w : World deps)
      → (hand_over deps id job w).1.queue
        ≡ (enqueue_tts_job deps.queue job.id (delivery deps) (correlation_id id) w.queue).1
  unfolding hand_over
  queue-hand_over id job w = ground arith

  handed-le :
      (id : Loose) (job : Job) (w : World deps)
      → jq.depth (hand_over deps id job w).1.queue ≤ jq.depth w.queue + 1
  handed-le id job w = rw (queue-hand_over id job w) (enqueue-le job.id (correlation_id id) w.queue)

  -- The jobs of the queue and the submissions that may add one.
  abbrev pub IsBounded : ℕ → deps.queue.Queue → ℕ → Type 0
  IsBounded n q k = jq.depth q + k ≤ deps.config.tts_queue_capacity - 1 + n

  Step-IsBounded :
      {n : ℕ} {q q' : deps.queue.Queue} {k k' : ℕ}
      → Step n q k q' k'
      → IsBounded n q k
      → IsBounded n q' k'
  Step-IsBounded (passed w k lt below) h = omega (arith, passed-lt w below)
  Step-IsBounded (refused w k t shut) h = omega (arith, queue_gate-le w)
  Step-IsBounded (handed id job w k) h = omega (arith, handed-le id job w)
  Step-IsBounded (ended q k) h = omega arith
  Step-IsBounded (worked q q' k le) h = omega arith

  -- With a queue and retries as documented: where at most `n` submissions are between their read of the
  -- depth and their hand-over at a time, no run of submissions and workers brings the queue over the
  -- capacity by more than `n - 1` jobs, from a queue that is within it with no submission in between.
  pub Run-IsBounded :
      {n : ℕ} {q q' : deps.queue.Queue} {k k' : ℕ}
      → Run n q k q' k'
      → IsBounded n q k
      → IsBounded n q' k'
  Run-IsBounded (done q k) h = h
  Run-IsBounded (next q q' q'' k k' k'' step rest) h = Run-IsBounded rest (Step-IsBounded step h)
