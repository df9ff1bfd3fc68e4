-- ===== src/Deps/Retry.antt =====
-- The documented behaviour of `Effect.retry` with a bounded schedule, and what follows from it.
use bengali_tts_service.Base.{
  ℕ, zero, suc, ◌≤◌, ◌<◌, ◌≡◌, refl, Bool, true, false, arith, if◌then◌else◌, Bool-cases, inl, inr,
}
use mathlib.Core.Path.{subst}
use bengali_tts_service.Errors.{Exit, succeed, fail, die, Thrown}
use bengali_tts_service.Deps.Clients.{EffectRuntime}

-- After one attempt: again from the state that it left, if it failed, the test holds of the
-- failure, and attempts are left. A success or a defect ends it.
abbrev pub go_on :
    (e : EffectRuntime) {S A : Type 0}
    → (Thrown → Bool)
    → ℕ
    → (S → Exit A × S)
    → Exit A × S
    → Exit A × S
go_on e again zero m (x, s) = (x, s)
go_on e again (suc n) m (succeed a, s) = (succeed a, s)
go_on e {S} {A} again (suc n) m (fail t, s) =
    if again t then e.retry S A again n m s else (fail t, s)
go_on e again (suc n) m (die t, s) = (die t, s)

pub record RetryLaw (e : EffectRuntime) : Type 1 where
  pub retry_lem :
      (S A : Type 0) (again : Thrown → Bool) (n : ℕ) (m : S → Exit A × S) (s : S)
      → e.retry S A again n m s ≡ go_on e again n m (m s)

-- The attempt after `k` earlier ones.
abbrev pub attempt : {S A : Type 0} → ℕ → (S → Exit A × S) → S → Exit A × S
attempt zero m s = m s
attempt (suc k) m s = attempt k m (m s).1

-- Whether an attempt calls for another one.
abbrev pub wants_retry : {A : Type 0} → (Thrown → Bool) → Exit A → Bool
wants_retry again (fail t) = again t
wants_retry again _ = false

-- The retry ends with the attempt after `k` others, each of which called for another one; and
-- that attempt calls for none, or is the last that the schedule has.
pub record EndsWith {S A : Type 0} (again : Thrown → Bool) (n : ℕ) (m : S → Exit A × S) (s : S)
    (result : Exit A × S) : Type 0 where
  pub k : ℕ
  pub bound : k ≤ n
  pub is_attempt : result ≡ attempt k m s
  pub earlier : (j : ℕ) → j < k → wants_retry again (attempt j m s).0 ≡ true
  pub final : k < n → wants_retry again result.0 ≡ false

first_attempt :
    {S A : Type 0} (again : Thrown → Bool) (n : ℕ) (m : S → Exit A × S) (s : S)
    → (0 < n → wants_retry again (m s).0 ≡ false)
    → EndsWith again n m s (m s)
first_attempt again n m s h = record {
  k = 0;
  bound = omega arith;
  is_attempt = refl;
  earlier = λ j l. elim l [ ];
  final = h;
}

-- One more attempt in front.
next_attempt :
    {S A : Type 0} (again : Thrown → Bool) (n : ℕ) (m : S → Exit A × S) (s : S) (r : Exit A × S)
    → wants_retry again (m s).0 ≡ true
    → EndsWith again n m (m s).1 r
    → EndsWith again (suc n) m s r
next_attempt again n m s r first ih = record {
  k = suc ih.k;
  bound = omega (arith, ih.bound);
  is_attempt = ih.is_attempt;
  earlier = λ j l. earlier_from j l;
  final = λ l. ih.final (omega arith);
}
  where
    earlier_from : (j : ℕ) → j < suc ih.k → wants_retry again (attempt j m s).0 ≡ true
    earlier_from zero l = first
    earlier_from (suc j) l = ih.earlier j (omega arith)

module _ (e : EffectRuntime) where
  gone_on :
      {S A : Type 0} (again : Thrown → Bool) (n : ℕ) (m : S → Exit A × S) (s : S) (x : Exit A)
      → (m s).0 ≡ x
      → EndsWith again n m (m s).1 (e.retry S A again n m (m s).1)
      → EndsWith again (suc n) m s (go_on e again (suc n) m (x, (m s).1))
  gone_on again n m s (succeed a) h ih =
      subst (λ (x : Exit _). EndsWith again (suc n) m s (x, (m s).1)) h
        (first_attempt again (suc n) m s (λ _. rw h))
  gone_on again n m s (die t) h ih =
      subst (λ (x : Exit _). EndsWith again (suc n) m s (x, (m s).1)) h
        (first_attempt again (suc n) m s (λ _. rw h))
  gone_on again n m s (fail t) h ih = elim (Bool-cases (again t)) [
    | inl more ↦ rw more (next_attempt again n m s _ (rw (h, more)) ih)
    | inr stop ↦ rw stop (
        subst (λ (x : Exit _). EndsWith again (suc n) m s (x, (m s).1)) h
          (first_attempt again (suc n) m s (λ _. rw (h, stop))))
  ]

module _ (e : EffectRuntime) (law : RetryLaw e) where
  -- A retried Effect ends with the first attempt that calls for no other one, or the last one.
  pub retry-EndsWith :
      {S A : Type 0} (again : Thrown → Bool) (n : ℕ) (m : S → Exit A × S) (s : S)
      → EndsWith again n m s (e.retry S A again n m s)
  retry-EndsWith {S} {A} again zero m s =
      rw (law.retry_lem S A again zero m s) (first_attempt again zero m s (λ h. elim h [ ]))
  retry-EndsWith {S} {A} again (suc n) m s =
      rw (law.retry_lem S A again (suc n) m s)
        (gone_on e again n m s (m s).0 refl (retry-EndsWith again n m (m s).1))
