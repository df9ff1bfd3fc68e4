-- ===== src/Queue/Depth.antt =====
-- Reading the depth.
use bengali_tts_service.Base.{
  zero, suc, sym, ap, ◌∙◌, inl, inr, refl, ℕ, ◌+◌, ◌≡◌, true, Option, none, some, List, [], ◌∷◌,
  arith,
}
use bengali_tts_service.Errors.{Exit, succeed, ok, Result-cases}
use bengali_tts_service.Deps.Clients.{QueueClient, EffectRuntime}
use bengali_tts_service.Deps.Retry.{RetryLaw, EndsWith, retry-EndsWith, attempt}
use bengali_tts_service.Queue.{sum_counts, read_depth, queue_depth}

-- The depth is the sum of the counts that are given.
abbrev pub total : List (Option ℕ) → ℕ
total [] = 0
total (none ∷ l) = total l
total (some n ∷ l) = n + total l

sum_counts-eq-total : (acc : ℕ) (l : List (Option ℕ)) → sum_counts acc l ≡ acc + total l
unfolding sum_counts
sum_counts-eq-total acc [] = omega arith
sum_counts-eq-total acc (none ∷ l) = omega (arith, sum_counts-eq-total (acc + 0) l)
sum_counts-eq-total acc (some n ∷ l) = omega (arith, sum_counts-eq-total (acc + n) l)

module _ (queue : QueueClient) (e : EffectRuntime) (law : RetryLaw e) where
  -- With a runtime that obeys the law of retries, the depth is read at most three times, again
  -- only after a failure and while attempts are left, and the result is that of the last time.
  pub queue_depth-EndsWith :
      (q : queue.Queue) → EndsWith (λ _. true) 2 (read_depth queue) q (queue_depth queue e q)
  unfolding queue_depth
  queue_depth-EndsWith q = retry-EndsWith e law (λ _. true) 2 (read_depth queue) q

  attempt_from :
      {S A : Type 0} (k : ℕ) (m : S → Exit A × S) (s : S) → (s' : S) × (attempt k m s ≡ m s')
  attempt_from zero m s = (s, refl)
  attempt_from (suc k) m s = attempt_from k m (m s).1

  pub read_depth-eq-succeed :
      (q : queue.Queue) (n : ℕ)
      → (read_depth queue q).0 ≡ succeed n
      → (counts : List (Option ℕ)) × ((queue.get_job_counts q).0 ≡ ok counts) × (n ≡ total counts)
  unfolding read_depth
  read_depth-eq-succeed q n h = elim (Result-cases (queue.get_job_counts q).0) [
    | inl (counts, e) ↦ (counts, e, ground (arith, e, h, sum_counts-eq-total 0 counts))
    | inr (t, e) ↦ absurd (ground (arith, e, h))
  ]

  -- With a runtime that obeys the law of retries, the depth is read at most three times, again only
  -- after a failure and while attempts are left, and the result is that of the last time; and a
  -- depth that is returned is the sum of the counts that one read of the queue has given, a missing
  -- count being none.
  queue_depth_lem :
      (q : queue.Queue)
      → EndsWith (λ _. true) 2 (read_depth queue) q (queue_depth queue e q)
        × ((n : ℕ)
            → (queue_depth queue e q).0 ≡ succeed n
            → (read : queue.Queue) × (counts : List (Option ℕ)) × ((queue.get_job_counts read).0
                ≡ ok counts)
              × (n ≡ total counts))
  queue_depth_lem q =
      let ends = queue_depth-EndsWith q in
      (
        ends,
        λ n h.
            let (read, same) = attempt_from ends.k (read_depth queue) q in
            let at_read : (read_depth queue read).0 ≡ succeed n =
              ap (λ (r : Exit ℕ × queue.Queue). r.0) (sym same)
              ∙ (ap (λ (r : Exit ℕ × queue.Queue). r.0) (sym ends.is_attempt) ∙ h) in
            let (counts, given, sum) = read_depth-eq-succeed read n at_read in
            (read, counts, given, sum),
      )
