-- ===== src/Tests/Processes.antt =====
-- The process of the gateway, from its boot to its exit.
use bengali_tts_service.Errors.{run_effect}
use bengali_tts_service.Config.Load.{load_config}
use bengali_tts_service.Base.{
  none, ℕ, ◌+◌, ◌≤◌, ◌≡◌, ◌⊎◌, refl, true, false, some, List, [], ◌∷◌, ◌++◌,
}
use bengali_tts_service.Http.{success}
use bengali_tts_service.Server.{
  Process, Event, signal, connects, answered, drained, queue_closed, disconnected, passes,
  timer_fires, run_events, listening, failsafe_ms, occurs, shutdown, graceful_shutdown,
}
use bengali_tts_service.Server.Boot.{Serves, connections, boot, serving, boot-Serves}
use bengali_tts_service.Server.Clean.{IsQuiet, IsClosed, run_events-clean}
use bengali_tts_service.Server.Deadline.{shutdown_deadline}
use bengali_tts_service.Storage.{ensure_bucket, ensure_once}
use bengali_tts_service.Tests.Setting.{gateway, start, memory_s3, memory_effects, memory_retry}

-- A request is in progress when the signal comes; it is answered, and then the cleanup runs.
abbrev orderly : List Event
orderly =
    connects ∷ signal ∷ passes 20 ∷ answered ∷ drained ∷ queue_closed true ∷ disconnected true ∷ []

abbrev gone : Process
gone = record {
  accepting = false;
  streams = 0;
  busy = 0;
  idle = 0;
  waiting = 0;
  closing = 0;
  disconnecting = 0;
  queue_open = false;
  prisma_open = false;
  redis_open = false;
  s3_open = false;
  timers = 10000 ∷ [];
  now = 20;
  exited = some 0;
}

ends : run_events orderly (listening 0) ≡ some gone
unfolding run_events occurs shutdown graceful_shutdown
ends = refl

run_events-clean_example :
    IsQuiet gone
    × IsClosed gone
    × ((before : List Event) × (orderly ≡ before ++ (disconnected true ∷ [])))
run_events-clean_example = run_events-clean 0 orderly gone ends refl

abbrev busy : Process
busy = record (listening 0) { busy = 1 }

abbrev draining : Process
draining = record busy { accepting = false; waiting = 1; timers = 10000 ∷ []; now = 20 }

connected : run_events (connects ∷ []) (listening 0) ≡ some busy
unfolding run_events occurs
connected = refl

waits : run_events (signal ∷ passes 20 ∷ []) busy ≡ some draining
unfolding run_events occurs shutdown graceful_shutdown
waits = refl

shutdown_deadline_example :
    (20 ≤ 0 + failsafe_ms)
    × (((code : ℕ) × (draining.exited ≡ some code))
        ⊎ ((ms : ℕ) × (20 + ms ≤ 0 + failsafe_ms)
            × (r : Process) × (run_events (passes ms ∷ timer_fires ∷ []) draining ≡ some r)
            × (r.exited ≡ some 1)))
shutdown_deadline_example =
    shutdown_deadline 0 (connects ∷ []) (passes 20 ∷ []) busy draining connected waits

booted :
    boot memory_s3 memory_effects (λ fields env. success gateway.config) (λ name. none) 5 start.s3
    ≡ (serving 3000 (connections gateway.config) (listening 5), start.s3)
unfolding boot load_config run_effect ensure_bucket ensure_once
booted = refl

boot-Serves_example :
    Serves memory_s3 memory_effects memory_retry
      (λ fields env. success gateway.config)
      (λ name. none)
      5
      start.s3
      3000
      (connections gateway.config)
      (listening 5)
boot-Serves_example =
    boot-Serves memory_s3 memory_effects memory_retry (λ fields env. success gateway.config)
      (λ name. none) 5 start.s3 start.s3 3000 (connections gateway.config) (listening 5) booted
