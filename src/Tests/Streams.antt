-- ===== src/Tests/Streams.antt =====
-- Event streams.
use bengali_tts_service.Base.{◌≡◌, refl, true, false, some, List, [], ◌∷◌, ◌++◌, map}
use bengali_tts_service.Errors.{ok}
use bengali_tts_service.Schema.{Job, active}
use bengali_tts_service.Jobs.Shared.{serialize_job}
use bengali_tts_service.Jobs.Stream.{
  Stream, open_stream, Event, tick, answered, closed, run, step, is_terminal, on_poll,
}
use bengali_tts_service.Jobs.Stream.Frames.{
  IsChain, run-IsChain, run-polls, polls, changes, newest_first,
}
use bengali_tts_service.Jobs.Stream.Overlap.{overlap_writes_after_end}
use bengali_tts_service.Tests.Setting.{waiting_job, done_job}

abbrev running_job : Job
running_job = record waiting_job { status = active; started_at = some 1 }

abbrev events : List Event
events =
    tick ∷ tick ∷ answered (ok (some running_job)) ∷ answered (ok (some running_job)) ∷ closed ∷ []

abbrev after_events : Stream
after_events = record {
  frames = serialize_job running_job ∷ serialize_job waiting_job ∷ [];
  last_status = active;
  ended = false;
  ticking = false;
  registered = false;
  in_flight = 0;
}

runs : run events (open_stream waiting_job) ≡ some after_events
unfolding run step open_stream is_terminal on_poll
runs = refl

run-IsChain_example : IsChain active (serialize_job running_job ∷ serialize_job waiting_job ∷ [])
run-IsChain_example = run-IsChain waiting_job events after_events runs

watched : is_terminal waiting_job.status ≡ false
unfolding is_terminal
watched = refl

still_watched : is_terminal running_job.status ≡ false
unfolding is_terminal
still_watched = refl

over : is_terminal done_job.status ≡ true
unfolding is_terminal
over = refl

run-polls_example :
    run
      (polls ((waiting_job ∷ running_job ∷ running_job ∷ []) ++ done_job ∷ []))
      (open_stream waiting_job)
    ≡ some (record {
      frames = newest_first (serialize_job waiting_job ∷ []) (
          map serialize_job (
            changes waiting_job.status
              ((waiting_job ∷ running_job ∷ running_job ∷ []) ++ done_job ∷ [])));
      last_status = done_job.status;
      ended = true;
      ticking = false;
      registered = false;
      in_flight = 0;
    })
run-polls_example =
    run-polls waiting_job (waiting_job ∷ running_job ∷ running_job ∷ []) done_job watched
      (watched, (still_watched, (still_watched, tt))) over

overlap_writes_after_end_example :
    (first second : Stream) × (run
        (tick ∷ tick ∷ answered (ok (some done_job)) ∷ [])
        (open_stream waiting_job)
      ≡ some first)
    × (first.ended ≡ true)
    × (step (answered (ok (some running_job))) first ≡ some second)
    × (second.frames ≡ serialize_job running_job ∷ first.frames)
overlap_writes_after_end_example =
    overlap_writes_after_end waiting_job done_job running_job watched over still_watched
