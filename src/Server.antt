-- ===== src/Server.antt =====
-- gateway/src/server.ts and gateway/src/lib/shutdown.ts: the process of the gateway, from its boot
-- to its exit.
pub mod Runs
pub mod Boot
pub mod Clean
pub mod Deadline
use bengali_tts_service.Base.{
  ℕ, zero, suc, ◌+◌, ◌-◌, ◌*◌, Bool, true, false, ◌&&◌, Option, none, some, List, [], ◌∷◌, leb,
  if◌then◌else◌,
}

-- The HTTP server and the process around it: whether it accepts connections; its connections, by
-- what they do (an open event stream, a request in progress, nothing); the callbacks that wait for
-- the last connection; the runs of the cleanup, by what they wait for (the queue to close, the
-- database to disconnect); which clients are still open; the failsafe timers, by the time at which
-- they are due; the clock; and the code with which the process has exited.
pub record Process : Type 0 where
  pub accepting : Bool
  pub streams : ℕ
  pub busy : ℕ
  pub idle : ℕ
  pub waiting : ℕ
  pub closing : ℕ
  pub disconnecting : ℕ
  pub queue_open : Bool
  pub prisma_open : Bool
  pub redis_open : Bool
  pub s3_open : Bool
  pub timers : List ℕ
  pub now : ℕ
  pub exited : Option ℕ

-- `app.listen(...)`, once it listens.
abbrev pub listening : ℕ → Process
listening now = record {
  accepting = true;
  streams = 0;
  busy = 0;
  idle = 0;
  waiting = 0;
  closing = 0;
  disconnecting = 0;
  queue_open = true;
  prisma_open = true;
  redis_open = true;
  s3_open = true;
  timers = [];
  now = now;
  exited = none;
}

-- `sse.closeAll()`: the answers of the open streams are ended; the connections still have to close.
abbrev pub close_streams : Process → Process
close_streams p = record p { streams = 0; busy = p.busy + p.streams }

-- `server.close(...)`, `server.closeIdleConnections()` and the timer, in this order.
unfoldable pub graceful_shutdown : ℕ → Process → Process
graceful_shutdown timeout_ms p = record p {
  accepting = false;
  waiting = p.waiting + 1;
  idle = 0;
  timers = (p.now + timeout_ms) ∷ p.timers;
}

abbrev pub failsafe_ms : ℕ
failsafe_ms = 10000

-- The handler of SIGTERM and of SIGINT. A second signal runs it again.
unfoldable pub shutdown : Process → Process
shutdown p = graceful_shutdown failsafe_ms (close_streams p)

-- What can happen to the process. A request begins on a new connection or on an idle one, becomes an
-- event stream, or is answered; a stream ends; an idle connection is closed by its client; the last
-- connection is gone; a cleanup's wait for the queue or for the database resolves or rejects; a timer
-- fires; time passes.
pub data Event : Type 0 where
  signal connects begins opens_stream answered stream_ends hangs_up : Event
  drained : Event
  queue_closed disconnected : Bool → Event
  timer_fires : Event
  passes : ℕ → Event

abbrev pub exit : ℕ → Process → Process
exit code p = record p { exited = some code }

-- Whether every timer is due at a time or later, and whether one is due by it.
abbrev pub none_before : ℕ → List ℕ → Bool
none_before t [] = true
none_before t (due ∷ rest) = leb t due && none_before t rest

abbrev pub one_due : ℕ → List ℕ → Bool
one_due now [] = false
one_due now (due ∷ rest) = if leb due now then true else one_due now rest

abbrev when : Bool → Process → Option Process
when true p = some p
when false p = none

-- An answered request leaves its connection idle, unless the server is closing.
abbrev after_answer : Bool → ℕ → Process → Process
after_answer true busy p = record p { busy = busy; idle = p.idle + 1 }
after_answer false busy p = record p { busy = busy }

abbrev pub is_drained : Process → Bool
is_drained p = elim p.accepting [ true ↦ false | false ↦ leb (p.streams + p.busy + p.idle) 0 ]

-- The cleanup after `await queue.close()`, and after `await prisma.$disconnect()`: the other two
-- clients are closed at once. One that rejects does nothing more, and exits with 1.
abbrev after_close : Bool → Process → Process
after_close true p = record p { queue_open = false; disconnecting = p.disconnecting + 1 }
after_close false p = exit 1 p

abbrev after_disconnect : Bool → Process → Process
after_disconnect true p =
    exit 0 (record p { prisma_open = false; redis_open = false; s3_open = false })
after_disconnect false p = exit 1 p

-- The next state, if the event can happen. When the last connection is gone, every waiting callback
-- runs the cleanup. A timer that is due fires before more time passes.
abbrev pub go : Event → Process → Option Process
go signal p = some (shutdown p)
go connects p = when p.accepting (record p { busy = p.busy + 1 })
go begins p = elim p.idle [ zero ↦ none | suc n ↦ some (record p { idle = n; busy = p.busy + 1 }) ]
go opens_stream p = elim p.busy [
  | zero ↦ none
  | suc n ↦ some (record p { busy = n; streams = p.streams + 1 })
]
go answered p = elim p.busy [ zero ↦ none | suc n ↦ some (after_answer p.accepting n p) ]
go stream_ends p = elim p.streams [
  | zero ↦ none
  | suc n ↦ some (record p { streams = n; busy = p.busy + 1 })
]
go hangs_up p = elim p.idle [ zero ↦ none | suc n ↦ some (record p { idle = n }) ]
go drained p = when (is_drained p) (record p { waiting = 0; closing = p.closing + p.waiting })
go (queue_closed done) p = elim p.closing [
  | zero ↦ none
  | suc n ↦ some (after_close done (record p { closing = n }))
]
go (disconnected done) p = elim p.disconnecting [
  | zero ↦ none
  | suc n ↦ some (after_disconnect done (record p { disconnecting = n }))
]
go timer_fires p = when (one_due p.now p.timers) (exit 1 p)
go (passes ms) p = when (none_before (p.now + ms) p.timers) (record p { now = p.now + ms })

-- Nothing happens to a process that has exited.
unfoldable pub occurs : Event → Process → Option Process
occurs e p = elim p.exited [ none ↦ go e p | some code ↦ none ]

unfoldable pub run_events : List Event → Process → Option Process
run_events [] p = some p
run_events (e ∷ es) p = elim (occurs e p) [ none ↦ none | some q ↦ run_events es q ]
