-- ===== src/Tests/Lifecycles.antt =====
-- A job from its submission to its recording, and a second submission of it.
use bengali_tts_service.Base.{◌≢◌, ◌≡◌, refl, ℕ, Option, some, List, [], ◌∷◌, arith, if◌then◌else◌}
use bengali_tts_service.Tests.Setting.{waiting_job, gateway, start, rahim, bangla, memory_retry}
use bengali_tts_service.Tests.Reads.{apart}
use bengali_tts_service.Worker.Processor.{
  update_jobs, Surroundings, Shared, process, conclude, attempt_audio, audio_key, fetch_job,
}
use bengali_tts_service.Worker.Processor.Settling.{IsElsewhere, outcomes, settle, recorded}
use bengali_tts_service.Worker.Lifecycle.Single.{KeepsSingle, IsSingle-cons}
use mathlib.Core.List.{Memᴰ}
use bengali_tts_service.Text.{JsString, js, text_eq, trim, code_points}
use bengali_tts_service.Text.Decimal.{decimal}
use bengali_tts_service.Errors.{ok, thrown, domain, idempotency_conflict, run_effect}
use bengali_tts_service.Http.{one, validate}
use bengali_tts_service.Schema.{Job}
use bengali_tts_service.Deps.Clients.{ObjectOutput, sent}
use bengali_tts_service.Deps.Action.{World}
use bengali_tts_service.Jobs.Shared.{JobView, submission_body, read_idempotency_key}
use bengali_tts_service.Jobs.Read.{get_job, get_audio, recording}
use bengali_tts_service.Jobs.Read.Isolation.{owned}
use bengali_tts_service.Jobs.Submit.{
  keyed, submit, transaction, admit_in_transaction, admit, rate_limit_gate, take_rate_limit_token,
  insert_row, hand_over, pending_gate, queue_gate,
}
use bengali_tts_service.Jobs.Submit.Twice.{submit_twice}
use bengali_tts_service.RateLimit.{rate_limit_exit, take_token, spend, refilled}
use bengali_tts_service.TtsText.{validate_tts_text, bengali_ratio, is_bengali}
use bengali_tts_service.Queue.{enqueue_tts_job, queue_depth, read_depth}
use bengali_tts_service.Worker.{Writer, mark_active, write, set, write_all}
use bengali_tts_service.Worker.Processor.Served.{find_object}
use bengali_tts_service.Worker.Lifecycle.Shown.{ShownAs, all_deliveries, submission_settles}
use bengali_tts_service.Worker.Lifecycle.Heard.{submission_heard}
use bengali_tts_service.Tests.Memory.{memory_table, find_row}
use bengali_tts_service.Tests.Submissions.{request, after_submit, accepted, submits}
use bengali_tts_service.Tests.Deliveries.{broken, working}

abbrev job_2 : JsString
job_2 = 106 ∷ js "ob-2"

abbrev tries : List Surroundings
tries = broken ∷ working ∷ working ∷ []

-- Before each delivery a job of another user comes.
abbrev foreign_job : Job
foreign_job = record waiting_job { id = js "job-9"; user_id = js "karim" }

abbrev others : ℕ → Shared → Shared
others n s = update_jobs (λ l. foreign_job ∷ l) s

elsewhere : IsElsewhere job_2 others
unfolding fetch_job text_eq js
elsewhere n s = refl

other_id : foreign_job.id ≢ job_2
unfolding js text_eq
other_id = apart (js "job-9") job_2 refl

keeps : KeepsSingle job_2 rahim.id others
keeps n s h = IsSingle-cons job_2 rahim.id foreign_job s.jobs other_id h

abbrev finished : Shared
finished = all_deliveries gateway others job_2 tries after_submit.db []

-- The gateway after the deliveries, with the recording in its storage.
abbrev later : World gateway
later = record after_submit { db = (others 3 finished).jobs; s3 = finished.objects }

job_is : accepted.body.job_id ≡ job_2
unfolding js
job_is = refl

parses : validate gateway.schemas.submit bangla ≡ ok bangla
unfolding validate
parses = refl

abbrev found_job : Option Job
found_job = find_row (owned job_2 (js "rahim")) (others 3 finished).jobs

submission_settles_example :
    (view : JobView) × (get_job gateway rahim (some (one job_2)) later
      ≡ (ok (record { status = 200; body = view }), later))
    × (view.id ≡ job_2)
    × ShownAs job_2 (settle (outcomes job_2 rahim.id bangla tries)) view
submission_settles_example =
    submission_settles gateway memory_table rahim (request Option.none) start after_submit later
      accepted others tries [] 106 (js "ob-2") bangla 3 found_job submits refl job_is parses refl
      (omega arith) elsewhere keeps refl refl

abbrev key_2 : JsString
key_2 = audio_key rahim.id job_2

abbrev sound : ObjectOutput
sound = record { content_length = some 2; bytes = 82 ∷ 73 ∷ [] }

comes : settle (outcomes job_2 rahim.id bangla tries) ≡ recorded key_2 (82 ∷ 73 ∷ [])
unfolding attempt_audio
comes = refl

gets : gateway.s3.get_object gateway.config.s3_bucket key_2 later.s3 ≡ (sent sound, later.s3)
unfolding submit read_idempotency_key admit rate_limit_gate run_effect take_rate_limit_token
    rate_limit_exit take_token spend refilled validate validate_tts_text trim code_points
    bengali_ratio is_bengali insert_row transaction submission_body admit_in_transaction hand_over
    pending_gate queue_gate enqueue_tts_job queue_depth read_depth js text_eq decimal find_row
    process fetch_job conclude attempt_audio audio_key set write write_all
gets = refl

stored : some sound.bytes ≡ find_object key_2 finished.objects
unfolding submit read_idempotency_key admit rate_limit_gate run_effect take_rate_limit_token
    rate_limit_exit take_token spend refilled validate validate_tts_text trim code_points
    bengali_ratio is_bengali insert_row transaction submission_body admit_in_transaction hand_over
    pending_gate queue_gate enqueue_tts_job queue_depth read_depth js text_eq decimal find_row
    process fetch_job conclude attempt_audio audio_key set write write_all
stored = refl

submission_heard_example :
    (get_audio gateway rahim (some (one job_2)) later
      ≡ (ok (recording gateway sound), record later { s3 = later.s3 }))
    × (sound.bytes ≡ 82 ∷ 73 ∷ [])
submission_heard_example =
    submission_heard gateway memory_table memory_retry rahim (request Option.none) start
      after_submit later accepted others tries [] 106 (js "ob-2") bangla 3 found_job key_2
      (82 ∷ 73 ∷ []) sound later.s3 submits refl job_is parses refl (omega arith) elsewhere keeps
      refl refl comes gets stored

-- A submission with a key, and the same one after a worker has begun with the job.
abbrev key : JsString
key = js "k2"

abbrev after_first : World gateway
after_first = (submit gateway rahim (request (some key)) start).1

first_accepted : submit gateway rahim (request (some key)) start ≡ (ok accepted, after_first)
unfolding submit read_idempotency_key admit rate_limit_gate run_effect take_rate_limit_token
    rate_limit_exit take_token spend refilled validate validate_tts_text trim code_points
    bengali_ratio is_bengali insert_row transaction submission_body admit_in_transaction hand_over
    pending_gate queue_gate enqueue_tts_job queue_depth read_depth js text_eq decimal find_row
first_accepted = refl

key_is : read_idempotency_key (request (some key)).idempotency_key ≡ ok (some key)
unfolding read_idempotency_key js
key_is = refl

abbrev begun : List (JsString × Writer)
begun = (job_2, mark_active 9) ∷ []

abbrev once_more : World gateway
once_more = record after_first { db = write_all begun after_first.db }

submit_twice_example :
    (job : Job) × Memᴰ job once_more.db
    × (job.id ≡ accepted.body.job_id)
    × (validate gateway.schemas.submit bangla ≡ ok job.input_text)
    × (submit gateway rahim (request (some key)) once_more ≡ (
      if text_eq bangla job.input_text
          then ok (record { status = 200; body = submission_body gateway job })
          else thrown (domain idempotency_conflict),
      once_more,
    ))
submit_twice_example =
    submit_twice gateway memory_table rahim (request (some key)) (request (some key)) start
      after_first once_more accepted begun [] (find_row (keyed rahim.id key) once_more.db) key
      bangla first_accepted refl key_is key_is refl tt refl refl
