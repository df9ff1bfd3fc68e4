-- ===== src/RateLimit.antt =====
-- gateway/src/lib/rate-limit.ts: the token bucket that Redis evaluates, and the Effect around it.
-- A balance is counted in parts of 1/60000 token, so that a millisecond refills `capacity` parts
-- exactly, where the script rounds doubles. A clock that goes back makes a balance negative.
pub mod Balance
pub mod Throughput
use bengali_tts_service.Base.{
  ℕ, ◌+◌, ◌-◌, ◌*◌, ◌/◌, ◌%◌, Bool, Option, none, some, ltb, ◌==◌, if◌then◌else◌,
}
use bengali_tts_service.Base.Int.{ℤ, pos, pos_part, neg_part, sub_ℕ, leb_ℤ}
use bengali_tts_service.Errors.{Exit, succeed, fail, domain, rate_limited}

-- The parts of a token: also the milliseconds of a minute.
abbrev pub parts : ℕ
parts = 60000

-- The hash that the script keeps under a user's key.
pub record Bucket : Type 0 where
  pub tokens : ℤ
  pub stamp_ms : ℕ

-- `{allowed, retry_after_ms}`, and the hash that is written.
pub record Verdict : Type 0 where
  pub allowed : ℕ
  pub retry_after_ms : ℕ
  pub bucket : Bucket

-- `TIME` answers in seconds and microseconds.
unfoldable pub now_ms : ℕ × ℕ → ℕ
now_ms (seconds, micros) = seconds * 1000 + micros / 1000

abbrev min_ℤ : ℤ → ℤ → ℤ
min_ℤ a b = if leb_ℤ a b then a else b

-- The balance after the refill: a key that is not there stands for a full bucket.
unfoldable pub refilled : ℕ → ℕ → Option Bucket → ℤ
refilled capacity now none = min_ℤ (pos (capacity * parts)) (pos (capacity * parts))
refilled capacity now (some b) =
    min_ℤ (pos (capacity * parts))
      (sub_ℕ (pos_part b.tokens + now * capacity) (neg_part b.tokens + b.stamp_ms * capacity))

abbrev pub ceil_div : ℕ → ℕ → ℕ
ceil_div a c = (a + c - 1) / c

-- The rest of the script, on the refilled balance.
unfoldable pub spend : ℕ → ℕ → ℤ → Verdict
spend capacity now tokens =
    if leb_ℤ (pos parts) tokens
    then record {
      allowed = 1;
      retry_after_ms = 0;
      bucket = record { tokens = pos (pos_part tokens - parts); stamp_ms = now };
    }
    else record {
      allowed = 0;
      retry_after_ms = ceil_div (parts + neg_part tokens - pos_part tokens) capacity;
      bucket = record { tokens = tokens; stamp_ms = now };
    }

-- The script TAKE_TOKEN on the hash under its key.
unfoldable pub take_token : ℕ → ℕ → Option Bucket → Verdict
take_token capacity now state = spend capacity now (refilled capacity now state)

abbrev max_ℕ : ℕ → ℕ → ℕ
max_ℕ a b = if ltb a b then b else a

-- The seconds of Retry-After.
unfoldable pub retry_seconds : ℕ → ℕ
retry_seconds ms = max_ℕ 1 (ceil_div ms 1000)

-- What `takeRateLimitToken` makes of the script's answer.
unfoldable pub rate_limit_exit : Verdict → Exit (Unit {0})
rate_limit_exit v =
    if v.allowed == 1
    then succeed tt
    else fail (domain (rate_limited (retry_seconds v.retry_after_ms)))
