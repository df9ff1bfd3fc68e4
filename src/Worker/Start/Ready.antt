-- ===== src/Worker/Start/Ready.antt =====
-- worker/src/worker/main.py: when a worker comes up beside a gateway.
use mathlib.Core.List.{Memᴰ}
use mathlib.Core.Option.{get_or}
use bengali_tts_service.Base.{Bool, ◌≡◌}
use bengali_tts_service.Text.{js}
use bengali_tts_service.Errors.{ok}
use bengali_tts_service.Config.{Config, Env}
use bengali_tts_service.Worker.Start.{
  Machine, Engine, Consumer, consuming, create_engine, run_worker,
}
use bengali_tts_service.Worker.Start.Agreement.{worker_settings}

-- What a worker's start needs beyond an environment that the gateway accepts.
pub record CanStart (machine : Machine) (env : Env) (config : Config) : Type 0 where
  pub timeout : machine.Seconds
  pub delay : machine.Seconds
  pub engine : Engine machine.Seconds
  pub timeout_is :
      machine.float (get_or (env (js "TTS_JOB_TIMEOUT_SECONDS")) (js "300")) ≡ ok timeout
  pub delay_is : machine.float (get_or (env (js "TTS_FAKE_DELAY_SECONDS")) (js "0")) ≡ ok delay
  pub answers : machine.ping config.redis_url ≡ ok tt
  pub connects : machine.connect config.database_url ≡ ok tt
  pub made : create_engine machine (worker_settings config env timeout delay) ≡ ok engine

abbrev pub IsConsuming : Machine → Env → Bool → Type 0
IsConsuming machine env signalled =
    (o : Consumer machine.Seconds) × Memᴰ (consuming o) (run_worker machine env signalled).1
