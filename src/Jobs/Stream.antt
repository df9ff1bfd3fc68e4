-- ===== src/Jobs/Stream.antt =====
-- GET /v1/jobs/:id/events and the hub of open streams (gateway/src/lib/sse.ts): a snapshot, then a
-- frame for each change that a poll of the row sees.
pub mod Frames
pub mod Overlap
use bengali_tts_service.Base.{
  ℕ, zero, suc, ◌+◌, Bool, true, false, Option, none, some, List, [], ◌∷◌, if◌then◌else◌,
}
use bengali_tts_service.Errors.{Result, ok, thrown}
use bengali_tts_service.Http.{Loose}
use bengali_tts_service.Schema.{Job, JobStatus, queued, active, completed, failed, status_eq}
use bengali_tts_service.Deps.Action.{AppDeps, Act, pure, ◌>>=◌}
use bengali_tts_service.Jobs.Shared.{AuthedUser, JobView, serialize_job, find_owned_job}

-- One connection: the frames written, newest first, each as the JSON that it shows; the status of
-- the newest one; whether the answer has been ended; whether the timer runs; whether the hub has
-- the answer; and the polls that the database has not answered yet.
pub record Stream : Type 0 where
  pub frames : List JobView
  pub last_status : JobStatus
  pub ended : Bool
  pub ticking : Bool
  pub registered : Bool
  pub in_flight : ℕ

unfoldable pub is_terminal : JobStatus → Bool
is_terminal completed = true
is_terminal failed = true
is_terminal queued = false
is_terminal active = false

abbrev pub send : Job → Stream → Stream
send row s = record s { frames = serialize_job row ∷ s.frames }

abbrev pub stop : Stream → Stream
stop s = record s { ticking = false; registered = false }

abbrev pub finish_stream : Stream → Stream
finish_stream s = record s { ended = true }

-- Snapshot first; a terminal job is not watched.
unfoldable pub open_stream : Job → Stream
open_stream job = record {
  frames = serialize_job job ∷ [];
  last_status = job.status;
  ended = is_terminal job.status;
  ticking = if is_terminal job.status then false else true;
  registered = if is_terminal job.status then false else true;
  in_flight = 0;
}

abbrev pub show_change : Job → Stream → Stream
show_change row s =
    if status_eq row.status s.last_status
    then s
    else send row (record s { last_status = row.status })

abbrev pub end_if_terminal : Job → Stream → Stream
end_if_terminal row s = if is_terminal row.status then finish_stream (stop s) else s

-- The answer to a poll: a row, no row, or an error.
unfoldable pub on_poll : Result (Option Job) → Stream → Stream
on_poll (ok (some row)) s = end_if_terminal row (show_change row s)
on_poll (ok none) s = finish_stream (stop s)
on_poll (thrown t) s = finish_stream (stop s)

-- `closeAll` of the hub, on this connection: the timer goes on until the connection is closed.
unfoldable pub close_all : Stream → Stream
close_all s = if s.registered then record s { ended = true; registered = false } else s

-- What can happen to a connection: the timer fires, the database answers the poll, the connection
-- is closed, the process shuts down.
pub data Event : Type 0 where
  tick : Event
  answered : Result (Option Job) → Event
  closed : Event
  shut_down : Event

abbrev pub answer_one : Result (Option Job) → Stream → ℕ → Option Stream
answer_one r s zero = none
answer_one r s (suc n) = some (on_poll r (record s { in_flight = n }))

-- The state after an event, if it can happen.
unfoldable pub step : Event → Stream → Option Stream
step tick s = if s.ticking then some (record s { in_flight = suc s.in_flight }) else none
step (answered r) s = answer_one r s s.in_flight
step closed s = some (stop s)
step shut_down s = some (close_all s)

-- A sequence of events.
unfoldable pub run : List Event → Stream → Option Stream
run [] s = some s
run (e ∷ rest) s = elim (step e s) [ none ↦ none | some s' ↦ run rest s' ]

module _ (deps : AppDeps) where
  -- The lookup runs before any stream state.
  unfoldable pub watch_job : AuthedUser → Option Loose → Act deps Stream
  watch_job user param = do job ← find_owned_job deps user param; pure (open_stream job)
