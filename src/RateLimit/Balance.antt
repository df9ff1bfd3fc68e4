-- ===== src/RateLimit/Balance.antt =====
-- The balance of a bucket under a clock that does not go back.
use bengali_tts_service.Base.{
  ℕ, ◌+◌, ◌-◌, ◌*◌, ◌≤◌, ◌<◌, ◌≡◌, refl, none, some, arith, ap, ◌∙◌, sym,
}
use Prim.Native.Nat.{min}
use native.Mathlib.Decide.{dec_lt}
use bengali_tts_service.Base.Int.{pos}
use bengali_tts_service.RateLimit.{Bucket, parts, refilled, spend, take_token, ceil_div}

-- A bucket as the script leaves it: a balance between nothing and the capacity.
pub record IsSound (capacity : ℕ) (b : Bucket) : Type 0 where
  pub held : ℕ
  pub holds : b.tokens ≡ pos held
  pub within : held ≤ capacity * parts

-- What a sound bucket holds at a later time.
abbrev pub balance : ℕ → ℕ → ℕ → ℕ → ℕ
balance capacity held stamp now = min (capacity * parts) (held + (now - stamp) * capacity)

-- The product of a time that is a stamp and what has passed since.
pub elapsed : (c stamp now : ℕ) → stamp ≤ now → now * c ≡ stamp * c + (now - stamp) * c
elapsed c stamp now h =
    let e : now ≡ stamp + (now - stamp) = omega arith in ap (λ (t : ℕ). t * c) e ∙ omega arith

pub refilled_sound :
    (capacity now held : ℕ) (b : Bucket)
    → b.tokens ≡ pos held
    → b.stamp_ms ≤ now
    → refilled capacity now (some b) ≡ pos (balance capacity held b.stamp_ms now)
unfolding refilled
refilled_sound capacity now held b e h = rw e (ground (arith, elapsed capacity b.stamp_ms now h))

pub refilled-none : (capacity now : ℕ) → refilled capacity now none ≡ pos (capacity * parts)
unfolding refilled
refilled-none capacity now = ground arith

-- What the script does with a balance that is not negative.
pub spend_enough :
    (capacity now n : ℕ)
    → parts ≤ n
    → spend capacity now (pos n) ≡ record {
      allowed = 1;
      retry_after_ms = 0;
      bucket = record { tokens = pos (n - parts); stamp_ms = now };
    }
unfolding spend
spend_enough capacity now n h = ground arith

pub spend_short :
    (capacity now n : ℕ)
    → n < parts
    → spend capacity now (pos n) ≡ record {
      allowed = 0;
      retry_after_ms = ceil_div (parts - n) capacity;
      bucket = record { tokens = pos n; stamp_ms = now };
    }
unfolding spend
spend_short capacity now n h = ground arith

-- A minute of idleness fills a bucket.
full_of_idle :
    (capacity held stamp now : ℕ)
    → stamp + parts ≤ now
    → balance capacity held stamp now ≡ capacity * parts
full_of_idle capacity held stamp now h = let k : parts ≤ now - stamp = omega arith in grind arith

-- On a sound bucket that has been idle for a minute or more the script does what it does on a
-- missing key: letting the key expire loses nothing.
pub take_token_expired :
    (capacity now : ℕ) (b : Bucket)
    → IsSound capacity b
    → b.stamp_ms + parts ≤ now
    → take_token capacity now (some b) ≡ take_token capacity now none
unfolding take_token
take_token_expired capacity now b s h = ap (spend capacity now) (
    refilled_sound capacity now s.held b s.holds (omega arith)
    ∙ (ap pos (full_of_idle capacity s.held b.stamp_ms now h) ∙ sym (refilled-none capacity now)))

-- The script on a bucket whose balance is known is `spend` on what it holds by now.
pub take_token_sound :
    (capacity now held : ℕ) (b : Bucket)
    → b.tokens ≡ pos held
    → b.stamp_ms ≤ now
    → take_token capacity now (some b)
      ≡ spend capacity now (pos (balance capacity held b.stamp_ms now))
unfolding take_token
take_token_sound capacity now held b e h =
    ap (spend capacity now) (refilled_sound capacity now held b e h)

spend-IsSound :
    (capacity now n : ℕ)
    → n ≤ capacity * parts
    → let after = (spend capacity now (pos n)).bucket in
      IsSound capacity after × (after.stamp_ms ≡ now)
spend-IsSound capacity now n h = elim (dec_lt n parts) [
  | yes short ↦
      rw (spend_short capacity now n short) (record { held = n; holds = refl; within = h }, refl)
  | no enough ↦
      rw (spend_enough capacity now n (omega arith))
        (record { held = n - parts; holds = refl; within = omega arith }, refl)
]

-- On a sound bucket whose stamp is not in the future the script leaves a sound bucket, stamped
-- with its time: the balance is neither negative nor above the capacity.
take_token-IsSound :
    (capacity now : ℕ) (b : Bucket)
    → IsSound capacity b
    → b.stamp_ms ≤ now
    → let after = (take_token capacity now (some b)).bucket in
      IsSound capacity after × (after.stamp_ms ≡ now)
take_token-IsSound capacity now b s h =
    rw (take_token_sound capacity now s.held b s.holds h)
      (spend-IsSound capacity now (balance capacity s.held b.stamp_ms now) (omega arith))

-- So it does where no bucket was.
pub take_token-none-IsSound :
    (capacity now : ℕ)
    → let after = (take_token capacity now none).bucket in
      IsSound capacity after × (after.stamp_ms ≡ now)
unfolding take_token
take_token-none-IsSound capacity now =
    rw (refilled-none capacity now) (spend-IsSound capacity now (capacity * parts) (omega arith))
