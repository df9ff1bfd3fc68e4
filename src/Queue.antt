-- ===== src/Queue.antt =====
-- gateway/src/lib/queue.ts: the depth of the job queue, and the hand-over of a job.
pub mod Depth
use bengali_tts_service.Base.{ℕ, zero, ◌+◌, true, Option, none, some, List, [], ◌∷◌}
use bengali_tts_service.Text.{JsString, js}
use bengali_tts_service.Errors.{Result, ok, thrown, Thrown, Exit, succeed, fail, queue_unavailable}
use bengali_tts_service.Deps.Clients.{QueueClient, EffectRuntime, TtsJobPayload, AddOptions}

-- The retries of a read of the depth, after the first attempt.
abbrev pub depth_read_retries : ℕ
depth_read_retries = 2

abbrev pub RetryPolicy : Type 0
RetryPolicy = record { attempts : ℕ; backoff_ms : ℕ }

-- `reduce((sum, n) => sum + (n ?? 0), 0)`, from the left.
unfoldable pub sum_counts : ℕ → List (Option ℕ) → ℕ
sum_counts sum [] = sum
sum_counts sum (none ∷ l) = sum_counts (sum + 0) l
sum_counts sum (some n ∷ l) = sum_counts (sum + n) l

module _ (queue : QueueClient) where
  -- One attempt to read the counts of the waiting, active, delayed and prioritized jobs.
  unfoldable pub read_depth : queue.Queue → Exit ℕ × queue.Queue
  unfolding sum_counts
  read_depth q =
      let (r, q') = queue.get_job_counts q in
      elim r [
        | ok counts ↦ (succeed (sum_counts 0 counts), q')
        | thrown cause ↦ (fail (queue_unavailable (js "getJobCounts")), q')
      ]

  unfoldable pub queue_depth : EffectRuntime → queue.Queue → Exit ℕ × queue.Queue
  queue_depth effects = effects.retry queue.Queue ℕ (λ _. true) depth_read_retries read_depth

  -- The id of the row is the id of the queue's job too.
  unfoldable pub enqueue_tts_job :
      JsString → RetryPolicy → Option JsString → queue.Queue → Exit (Unit {0}) × queue.Queue
  enqueue_tts_job job_id retry correlation_id q =
      let (r, q') =
        queue.add (js "synthesize") (record { job_id = job_id; correlation_id = correlation_id })
          (record { job_id = job_id; attempts = retry.attempts; backoff_ms = retry.backoff_ms })
          q in
      elim r [ ok _ ↦ (succeed tt, q') | thrown cause ↦ (fail (queue_unavailable (js "add")), q') ]
