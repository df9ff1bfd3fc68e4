-- ===== src/Tests/Overshoots.antt =====
-- Submissions of several users that overlap at the gate of the queue.
use bengali_tts_service.Text.Decimal.{decimal}
use bengali_tts_service.Base.{
  ℕ, ◌+◌, ◌-◌, ◌≤◌, ◌≡◌, refl, none, some, Option, List, [], ◌∷◌, arith, length,
}
use bengali_tts_service.Text.{JsString, js, text_eq}
use bengali_tts_service.Errors.{ok, run_effect}
use bengali_tts_service.Http.{one}
use bengali_tts_service.Queue.{queue_depth, read_depth, enqueue_tts_job}
use bengali_tts_service.Queue.Depth.{total}
use bengali_tts_service.Deps.Action.{AppDeps, World}
use bengali_tts_service.Jobs.Submit.{
  queue_gate, hand_over, transaction, admit_in_transaction, pending_gate,
}
use bengali_tts_service.Jobs.Submit.Overshoot.{
  QueueDepth, Run, passed, handed, next, done, Run-IsBounded,
}
use bengali_tts_service.Tests.Memory.{ok_inj, find_row}
use bengali_tts_service.Tests.Setting.{
  gateway, memory_queue, memory_retry, rahim, karim, bangla, start, waiting_job,
}

sum_of :
    (q : List JsString) (counts : List (Option ℕ))
    → (some (length q) ∷ none ∷ some 0 ∷ []) ≡ counts
    → total counts ≡ length q
sum_of q counts e = rw (← e) (omega arith)

abbrev queue_lengths : QueueDepth memory_queue
queue_lengths = record {
  depth = λ q. length q;
  counts_lem = λ q counts h. sum_of q counts (ok_inj h);
  read_adds_none = λ q. omega arith;
  add_one = λ name payload options q. omega arith;
}

-- A queue that takes two jobs, and has one.
abbrev tight : AppDeps
tight = record gateway { config = record gateway.config { tts_queue_capacity = 2 } }

abbrev before : World tight
before = record {
  db = start.db;
  redis = start.redis;
  queue = start.queue;
  s3 = start.s3;
  rejections = start.rejections;
}

-- Three transactions, each after the end of the one before.
abbrev first : World tight
first = (transaction tight (admit_in_transaction tight rahim bangla none) before).1

abbrev second : World tight
second = (transaction tight (admit_in_transaction tight karim bangla none) first).1

abbrev third : World tight
third = (transaction tight (admit_in_transaction tight karim bangla none) second).1

-- All of them pass the gate, since none has handed over its job yet.
all_pass :
    ((queue_gate tight before).0 ≡ ok tt)
    × ((queue_gate tight first).0 ≡ ok tt)
    × ((queue_gate tight second).0 ≡ ok tt)
unfolding queue_gate run_effect queue_depth read_depth transaction admit_in_transaction pending_gate
    text_eq js find_row decimal
all_pass = (refl, refl, refl)

abbrev hand : JsString → World tight → World tight
hand id w = (hand_over tight (one (js "r1")) (record waiting_job { id = id }) w).1

abbrev one_over : World tight
one_over = hand (js "job-2") third

abbrev two_over : World tight
two_over = hand (js "job-3") one_over

abbrev three_over : World tight
three_over = hand (js "job-4") two_over

-- So the queue gets twice the jobs that it takes.
four_wait : length three_over.queue ≡ 4
unfolding hand_over run_effect enqueue_tts_job transaction admit_in_transaction pending_gate
    queue_gate queue_depth read_depth text_eq js find_row decimal
four_wait = refl

abbrev run : Run tight memory_retry queue_lengths 3 before.queue 0 three_over.queue 0
unfolding transaction queue_gate admit_in_transaction run_effect pending_gate queue_depth text_eq
    read_depth js find_row decimal
run = next _ _ _ _ _ _ (passed before 0 (omega arith) all_pass.0) (
    next _ _ _ _ _ _ (passed first 1 (omega arith) all_pass.1) (
      next _ _ _ _ _ _ (passed second 2 (omega arith) all_pass.2) (
        next _ _ _ _ _ _ (handed (one (js "r1")) (record waiting_job { id = js "job-2" }) third 2) (
          next _ _ _ _ _ _
            (handed (one (js "r1")) (record waiting_job { id = js "job-3" }) one_over 1)
            (next _ _ _ _ _ _
              (handed (one (js "r1")) (record waiting_job { id = js "job-4" }) two_over 0)
              (done three_over.queue 0))))))

Run-IsBounded_example : length three_over.queue + 0 ≤ 2 - 1 + 3
Run-IsBounded_example = Run-IsBounded tight memory_retry queue_lengths run (omega arith)
