-- ===== src/RateLimit/Throughput.antt =====
-- How many requests of one user get through, over any run of the script on that user's key.
use Prim.Native.Nat.{min}
use native.Mathlib.Decide.{dec_lt}
use bengali_tts_service.Base.{
  ℕ, ◌+◌, ◌-◌, ◌*◌, ◌≤◌, ◌≡◌, refl, Bool, true, ◌&&◌, Option, none, some, List, [], ◌∷◌, arith, ap,
  ◌∙◌, leb, replicate, zero, suc, ◌<◌, if◌then◌else◌, leb→le, Bool-cases, inl, inr,
}
use bengali_tts_service.Base.Int.{pos}
use bengali_tts_service.RateLimit.{Bucket, Verdict, parts, take_token, spend}
use bengali_tts_service.RateLimit.Balance.{
  balance, spend_enough, spend_short, take_token_sound, take_token_expired, refilled-none,
}

-- What a request finds under the key: Redis may have dropped a bucket that was idle for a minute.
abbrev pub found : (ℕ → Bool) → ℕ → Option Bucket → Option Bucket
found dropped now none = none
found dropped now (some b) = if dropped now && leb (b.stamp_ms + parts) now then none else some b

-- How many of the requests at the given times are allowed.
pub allowed_count : (ℕ → Bool) → ℕ → Option Bucket → List ℕ → ℕ
allowed_count dropped capacity state [] = 0
allowed_count dropped capacity state (now ∷ later) =
    let v = take_token capacity now (found dropped now state) in
    v.allowed + allowed_count dropped capacity (some v.bucket) later

-- Times that do not go back, from a first one on, and the last of them.
abbrev pub IsForward : ℕ → List ℕ → Type 0
IsForward start [] = Unit
IsForward start (t ∷ ts) = (start ≤ t) × IsForward t ts

abbrev pub last : ℕ → List ℕ → ℕ
last start [] = start
last start (t ∷ ts) = last t ts

start-le-last : (start : ℕ) (ts : List ℕ) → IsForward start ts → start ≤ last start ts
start-le-last start [] h = omega arith
start-le-last start (t ∷ ts) h = omega (arith, start-le-last t ts h.1)

and_right : (a b : Bool) → (a && b) ≡ true → b ≡ true
and_right a b h = ground arith

split_span : (c a b d : ℕ) → a ≤ b → b ≤ d → (d - a) * c ≡ (d - b) * c + (b - a) * c
split_span c a b d h k =
    let e : d - a ≡ (d - b) + (b - a) = omega arith in ap (λ (t : ℕ). t * c) e ∙ omega arith

-- A verdict pays from a balance of `n` parts for what it allows, and leaves the rest.
record Pays (v : Verdict) (now n : ℕ) : Type 0 where
  left : ℕ
  holds : v.bucket ≡ record { tokens = pos left; stamp_ms = now }
  paid : v.allowed * parts + left ≤ n
  below : left ≤ n

spend-Pays : (capacity now n : ℕ) → Pays (spend capacity now (pos n)) now n
spend-Pays capacity now n = elim (dec_lt n parts) [
  | yes short ↦
      rw (spend_short capacity now n short)
        (record { left = n; holds = refl; paid = omega arith; below = omega arith })
  | no enough ↦
      rw (spend_enough capacity now n (omega arith))
        (record { left = n - parts; holds = refl; paid = omega arith; below = omega arith })
]

module _ (dropped : ℕ → Bool) (capacity : ℕ) where
  -- Whether or not the key was dropped, the request meets what the bucket holds by now.
  pub take_found :
      (now held stamp : ℕ)
      → held ≤ capacity * parts
      → stamp ≤ now
      → take_token capacity now
          (found dropped now (some (record { tokens = pos held; stamp_ms = stamp })))
        ≡ spend capacity now (pos (balance capacity held stamp now))
  take_found now held stamp within h =
      let b : Bucket = record { tokens = pos held; stamp_ms = stamp } in
      let kept = take_token_sound capacity now held b refl h in
      elim (Bool-cases (dropped now && leb (stamp + parts) now)) [
        | inl gone ↦ rw gone (
            rw
              (
                ← take_token_expired capacity now b
                    (record { held = held; holds = refl; within = within })
                    (leb→le _ _ (and_right (dropped now) _ gone)),
                kept,
              )
              refl)
        | inr there ↦ rw (there, kept) refl
      ]

  step-Pays :
      (now held stamp : ℕ)
      → held ≤ capacity * parts
      → stamp ≤ now
      → Pays
          (take_token capacity now
            (found dropped now (some (record { tokens = pos held; stamp_ms = stamp }))))
          now
          (balance capacity held stamp now)
  step-Pays now held stamp within h =
      rw (take_found now held stamp within h)
        (spend-Pays capacity now (balance capacity held stamp now))

  -- From a bucket that holds `held` parts, what is allowed is paid for by those and the refill.
  allowed_count_from :
      (held stamp : ℕ) (times : List ℕ)
      → held ≤ capacity * parts
      → IsForward stamp times
      → allowed_count dropped capacity (some (record { tokens = pos held; stamp_ms = stamp })) times
          * parts
        ≤ held + (last stamp times - stamp) * capacity
  unfolding allowed_count
  allowed_count_from held stamp [] within h = omega arith
  allowed_count_from held stamp (now ∷ later) within (h, rest) =
      let p = step-Pays now held stamp within h in
      let ih = allowed_count_from p.left now later (omega (arith, p.below)) rest in
      rw p.holds (
        omega (
          arith,
          p.paid,
          ih,
          split_span capacity stamp now (last now later) h (start-le-last now later rest),
        ))

-- Of the requests of one user at times that do not go back, from a key that is not there, at most
-- the capacity and the refill between the first and the last of them get through, whenever Redis
-- drops a key that was idle for a minute.
pub allowed_count_bound :
    (dropped : ℕ → Bool) (capacity first : ℕ) (times : List ℕ)
    → IsForward first times
    → allowed_count dropped capacity none (first ∷ times) * parts
      ≤ (parts + (last first times - first)) * capacity
unfolding allowed_count take_token
allowed_count_bound dropped capacity first times h =
    let p = spend-Pays capacity first (capacity * parts) in
    let ih = allowed_count_from dropped capacity p.left first times p.below h in
    rw (refilled-none capacity first, p.holds) (omega (arith, p.paid, ih))

-- A bucket of `m` tokens at the moment of its stamp.
abbrev filled : ℕ → ℕ → Bucket
filled m now = record { tokens = pos (m * parts); stamp_ms = now }

found_at_once :
    (dropped : ℕ → Bool) (m now : ℕ) → found dropped now (some (filled m now)) ≡ some (filled m now)
found_at_once dropped m now = ground arith

take_at_once :
    (capacity m now : ℕ)
    → m ≤ capacity
    → take_token capacity now (some (filled m now)) ≡ spend capacity now (pos (m * parts))
take_at_once capacity m now h =
    take_token_sound capacity now (m * parts) (filled m now) refl (omega arith)
    ∙ ap (λ (n : ℕ). spend capacity now (pos n)) (grind arith)

burst_from :
    (dropped : ℕ → Bool) (capacity now m n : ℕ)
    → m ≤ capacity
    → allowed_count dropped capacity (some (filled m now)) (replicate n now) ≡ min n m
unfolding allowed_count
burst_from dropped capacity now m zero h = omega arith
burst_from dropped capacity now zero (suc n) h =
    rw (found_at_once dropped zero now, take_at_once capacity zero now h)
      (rw (spend_short capacity now 0 (omega arith))
        (omega (arith, burst_from dropped capacity now zero n h)))
burst_from dropped capacity now (suc m) (suc n) h =
    let e : suc m * parts - parts ≡ m * parts = omega arith in
    rw (found_at_once dropped (suc m) now, take_at_once capacity (suc m) now h)
      (rw (spend_enough capacity now (suc m * parts) (omega arith))
        (rw e (omega (arith, burst_from dropped capacity now m n (omega arith)))))

-- For a positive capacity, of `n` requests at one moment, on a key that is not there, exactly the
-- first `capacity` get through, or all of them where they are fewer.
burst_exact :
    (dropped : ℕ → Bool) (capacity now n : ℕ)
    → 0 < capacity
    → allowed_count dropped capacity none (replicate n now) ≡ min n capacity
unfolding allowed_count take_token
burst_exact dropped capacity now zero h = omega arith
burst_exact dropped capacity now (suc n) h =
    let e : capacity * parts - parts ≡ (capacity - 1) * parts = omega arith in
    rw (refilled-none capacity now, spend_enough capacity now (capacity * parts) (omega arith))
      (rw e (omega (arith, burst_from dropped capacity now (capacity - 1) n (omega arith))))
