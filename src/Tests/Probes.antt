-- ===== src/Tests/Probes.antt =====
-- Readiness and metrics.
use bengali_tts_service.Base.{ℕ, ◌+◌, ◌≡◌, ◌⊎◌, ◌↔◌, false, [], ◌∷◌, List, length, count_if}
use bengali_tts_service.Errors.{succeed}
use bengali_tts_service.Schema.{Job}
use bengali_tts_service.Health.{AtDeadline, ended, silent, readyz, storage_check}
use bengali_tts_service.Health.Ready.{IsUp, readyz_iff}
use bengali_tts_service.Metrics.{Durations, is_new, collect}
use bengali_tts_service.Metrics.Scrapes.{collect_once}
use bengali_tts_service.Tests.Setting.{gateway, start, done_job, waiting_job}

abbrev one_row : AtDeadline ℕ
one_row = ended (succeed 1)

abbrev no_pong : AtDeadline ℕ
no_pong = silent

readyz_iff_example :
    (((readyz gateway one_row no_pong false start).status ≡ 200)
      ⊎ ((readyz gateway one_row no_pong false start).status ≡ 503))
    × (((readyz gateway one_row no_pong false start).status ≡ 200)
        ↔ (IsUp one_row × IsUp no_pong × IsUp (storage_check gateway false start)))
readyz_iff_example = readyz_iff gateway one_row no_pong false start

abbrev table : List Job
table = waiting_job ∷ done_job ∷ []

abbrev fresh : Durations
fresh = record { observed_up_to = 1; observed = [] }

collect_once_example :
    (length (collect table fresh).observed
      ≡ count_if (is_new fresh.observed_up_to) table + length fresh.observed)
    × (collect table (collect table fresh) ≡ collect table fresh)
collect_once_example = collect_once table fresh
