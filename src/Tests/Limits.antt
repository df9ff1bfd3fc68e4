-- ===== src/Tests/Limits.antt =====
-- The token bucket, the retries of storage and of the queue.
use bengali_tts_service.Base.{◌+◌, ◌-◌, ◌*◌, ◌≤◌, true, none, [], ◌∷◌, arith}
use bengali_tts_service.RateLimit.{parts}
use bengali_tts_service.RateLimit.Throughput.{allowed_count, last, allowed_count_bound}

allowed_count_bound_example :
    allowed_count (λ _. true) 2 none (0 ∷ 0 ∷ 10 ∷ 90000 ∷ []) * parts
    ≤ (parts + (last 0 (0 ∷ 10 ∷ 90000 ∷ []) - 0)) * 2
allowed_count_bound_example =
    allowed_count_bound (λ _. true) 2 0 (0 ∷ 10 ∷ 90000 ∷ [])
      (omega arith, (omega arith, (omega arith, tt)))
