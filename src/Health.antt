-- ===== src/Health.antt =====
-- gateway/src/routes/health.ts: the probes and the readiness of the gateway.
pub mod Ready
use bengali_tts_service.Base.{ℕ, Bool, true, false, ◌&&◌, if◌then◌else◌}
use bengali_tts_service.Text.{JsString}
use bengali_tts_service.Errors.{Exit, succeed, fail, die}
use bengali_tts_service.Storage.{check_bucket}
use bengali_tts_service.Deps.Action.{AppDeps, World}
use bengali_tts_service.Jobs.Shared.{Reply}

pub data CheckResult : Type 0 where
  check_ok unreachable : CheckResult

-- How a check stands at its deadline: it has ended, or it is silent.
pub data AtDeadline (A : Type 0) : Type 0 where
  ended : Exit A → AtDeadline A
  silent : AtDeadline A

-- `Effect.timeout` makes a failure of silence; failures and defects are caught.
unfoldable pub probe : {A : Type 0} → AtDeadline A → CheckResult
probe (ended (succeed a)) = check_ok
probe (ended (fail t)) = unreachable
probe (ended (die t)) = unreachable
probe silent = unreachable

pub record Checks : Type 0 where
  pub postgres : CheckResult
  pub redis : CheckResult
  pub storage : CheckResult

abbrev pub is_ok : CheckResult → Bool
is_ok check_ok = true
is_ok unreachable = false

-- `status: ready ? 'ready' : 'unavailable'` and the three checks.
pub record Readiness : Type 0 where
  pub ready : Bool
  pub checks : Checks

abbrev pub answer_checks : Checks → Reply Readiness
answer_checks c =
    let ready = is_ok c.postgres && (is_ok c.redis && is_ok c.storage) in
    record { status = if ready then 200 else 503; body = record { ready = ready; checks = c } }

-- The answers of the database and of Redis are theirs; the storage check is `check_bucket`, which
-- may still be silent at the deadline.
unfoldable pub storage_check : (deps : AppDeps) → Bool → World deps → AtDeadline (Unit {0})
storage_check deps late w =
    if late then silent else ended (check_bucket deps.s3 deps.config.s3_bucket w.s3).0

unfoldable pub readyz :
    {A B : Type 0} (deps : AppDeps)
    → AtDeadline A
    → AtDeadline B
    → Bool
    → World deps
    → Reply Readiness
readyz deps postgres redis late w = answer_checks (record {
  postgres = probe postgres;
  redis = probe redis;
  storage = probe (storage_check deps late w);
})
