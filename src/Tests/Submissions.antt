-- ===== src/Tests/Submissions.antt =====
-- Submissions to the gateway in memory.
use bengali_tts_service.Base.{
  ℕ, true, false, [], ◌∷◌, ◌≡◌, refl, Option, none, some, count_if-le-length,
}
use bengali_tts_service.Text.{JsString, js, text_eq, trim, code_points}
use bengali_tts_service.Errors.{ok, run_effect}
use bengali_tts_service.Http.{one, validate}
use bengali_tts_service.Schema.{queued}
use bengali_tts_service.Deps.Action.{World}
use bengali_tts_service.Jobs.Shared.{
  AuthedUser, Reply, Submission, submission_body, read_idempotency_key,
}
use bengali_tts_service.Jobs.Submit.{
  takes_lock, counts_pending, reads_depth, run_gate, insert_job, SubmitRequest, submit, transaction,
  admit_in_transaction, admit, rate_limit_gate, take_rate_limit_token, insert_row, hand_over,
  pending_gate, queue_gate, pending_of,
}
use bengali_tts_service.Jobs.Submit.Admission.{IsAccepted, submit_accepts}
use bengali_tts_service.Tests.Memory.{memory_table, find_row}
use bengali_tts_service.Tests.Setting.{gateway, rahim, bangla, start}
use bengali_tts_service.RateLimit.{rate_limit_exit, take_token, spend, refilled}
use bengali_tts_service.TtsText.{validate_tts_text, bengali_ratio, is_bengali}
use bengali_tts_service.Queue.{enqueue_tts_job, queue_depth, read_depth}
use bengali_tts_service.Text.Decimal.{decimal}
use bengali_tts_service.Deps.Prisma.{meets}
use bengali_tts_service.Jobs.Submit.Rows.{IsSettled, submit_settles}
use bengali_tts_service.Jobs.Submit.Cap.{
  Session, running, over, begins, put, locked, passed, committed, rolled_back, Run, done, next,
  IsCapped,
}
use bengali_tts_service.Jobs.Submit.Cap.Burst.{Run-IsCapped}

abbrev pub request : Option JsString → SubmitRequest gateway
request none = record { id = one (js "r1"); idempotency_key = none; body = bangla }
request (some key) = record { id = one (js "r1"); idempotency_key = some (one key); body = bangla }

abbrev pub after_submit : World gateway
after_submit = (submit gateway rahim (request none) start).1

abbrev pub accepted : Reply Submission
accepted = record {
  status = 202;
  body = record {
    job_id = js "job-2";
    status = queued;
    status_url = js "/v1/jobs/job-2";
    poll_interval_ms = 1000;
  };
}

pub submits : submit gateway rahim (request none) start ≡ (ok accepted, after_submit)
unfolding submit read_idempotency_key admit rate_limit_gate run_effect take_rate_limit_token
    rate_limit_exit take_token spend refilled validate validate_tts_text trim code_points
    bengali_ratio is_bengali insert_row transaction submission_body admit_in_transaction hand_over
    pending_gate queue_gate enqueue_tts_job queue_depth read_depth js text_eq decimal find_row
submits = refl

submit_accepts_example :
    IsAccepted gateway memory_table rahim (request none) start after_submit accepted
submit_accepts_example =
    submit_accepts gateway memory_table rahim (request none) start after_submit accepted submits
      refl

submit_settles_example :
    IsSettled gateway memory_table start.db
      (submit gateway rahim (request none) start).0
      (submit gateway rahim (request none) start).1.db
submit_settles_example = submit_settles gateway memory_table rahim (request none) start

-- Two submissions of a user: the first goes through its statements, while the second gives up.
abbrev users : ℕ → AuthedUser
users _ = rahim

abbrev texts : ℕ → JsString
texts _ = bangla

abbrev keys : ℕ → Option JsString
keys _ = none

abbrev both_begin : ℕ → Session
both_begin _ = begins

abbrev first_holds : ℕ → Session
first_holds = put 0 (running true (counts_pending ∷ reads_depth ∷ [])) both_begin

abbrev second_gone : ℕ → Session
second_gone = put 1 over first_holds

abbrev first_counted : ℕ → Session
first_counted = put 0 (running true (reads_depth ∷ [])) second_gone

abbrev first_ready : ℕ → Session
first_ready = put 0 (running true []) first_counted

abbrev after_lock : World gateway
after_lock = (run_gate gateway rahim takes_lock start).1

abbrev after_count : World gateway
after_count = (run_gate gateway rahim counts_pending after_lock).1

abbrev after_depth : World gateway
after_depth = (run_gate gateway rahim reads_depth after_count).1

abbrev after_insert : World gateway
after_insert = (insert_job gateway rahim bangla none after_depth).1

start-IsCapped : IsCapped gateway memory_table users texts keys start.db
start-IsCapped user_id = count_if-le-length (meets (pending_of user_id)) start.db

burst :
    Run gateway memory_table users texts keys start both_begin after_insert (put 0 over first_ready)
unfolding pending_gate queue_gate queue_depth read_depth run_effect text_eq js decimal find_row
burst =
    next start after_lock after_insert both_begin first_holds (put 0 over first_ready)
      (locked 0 false (counts_pending ∷ reads_depth ∷ []) start both_begin refl (λ m h. absurd h))
      (next after_lock after_lock after_insert first_holds second_gone (put 0 over first_ready)
        (rolled_back 1 after_lock after_lock first_holds refl)
        (next after_lock after_count after_insert second_gone first_counted (put 0 over first_ready)
          (passed 0 true counts_pending (reads_depth ∷ []) after_lock second_gone refl (λ e. cc)
            refl)
          (next after_count after_depth after_insert first_counted first_ready
            (put 0 over first_ready)
            (passed 0 true reads_depth [] after_count first_counted refl (λ e. cc) refl)
            (next after_depth after_insert after_insert first_ready (put 0 over first_ready)
              (put 0 over first_ready)
              (committed 0 true _ after_depth after_insert first_ready refl refl refl)
              (done after_insert (put 0 over first_ready))))))

Run-IsCapped_example : IsCapped gateway memory_table users texts keys after_insert.db
Run-IsCapped_example =
    Run-IsCapped gateway memory_table users texts keys start after_insert (put 0 over first_ready)
      burst start-IsCapped
