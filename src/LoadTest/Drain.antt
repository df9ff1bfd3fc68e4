-- ===== src/LoadTest/Drain.antt =====
-- load/tts-load.js, teardown: the loop that watches the queue drain.
use bengali_tts_service.Base.{
  ℕ, zero, suc, ◌+◌, ◌*◌, ◌≤◌, ◌≡◌, refl, ◌⊎◌, inl, inr, ◌++◌, true, false, ◌&&◌, Option, some,
  arith, ltb, Bool-cases,
}
use bengali_tts_service.Base.Int.{pos, sub_ℕ, ◌≤ℤ◌}
use bengali_tts_service.Text.{JsString, js}
use bengali_tts_service.LoadTest.{
  load_queue_depth, drain, drain_time, is_positive, teardown, Drained,
}
use bengali_tts_service.LoadTest.Client.{K6, ClockLaw}

module _ (k6 : K6) (law : ClockLaw k6) (url : JsString) where
  -- A round lasts two seconds at least.
  round_advances :
      (s : k6.State) → k6.now s + 2000 ≤ k6.now (load_queue_depth k6 url (k6.sleep 2000 s)).1
  unfolding load_queue_depth
  round_advances s =
      omega (arith, law.sleep_lem 2000 s, law.get_lem (url ++ js "/metrics") (k6.sleep 2000 s))

  load_advances : (s : k6.State) → k6.now s ≤ k6.now (load_queue_depth k6 url s).1
  unfolding load_queue_depth
  load_advances s = law.get_lem (url ++ js "/metrics") s

  time_over :
      (s s' : k6.State) (depth : Option ℕ)
      → (is_positive depth ≡ false) ⊎ (k6.now s + drain_time ≤ k6.now s')
      → (is_positive depth ≡ false) ⊎ (pos drain_time ≤ℤ sub_ℕ (k6.now s') (k6.now s))
  time_over s s' depth (inl h) = inl h
  time_over s s' depth (inr h) = inr (ground arith)

  -- What a drain ends with, if it ends: the depth is not positive, or the time is over.
  abbrev pub Ends : ℕ → Option (Option ℕ × k6.State) → Type 0
  Ends deadline r =
      (depth : Option ℕ) × (s : k6.State) × (r ≡ some (depth, s))
      × ((is_positive depth ≡ false) ⊎ (deadline ≤ k6.now s))

  stop_here :
      (deadline : ℕ) (depth : Option ℕ) (s : k6.State)
      → (is_positive depth && ltb (k6.now s) deadline) ≡ false
      → (is_positive depth ≡ false) ⊎ (deadline ≤ k6.now s)
  stop_here deadline depth s h = elim (Bool-cases (is_positive depth)) [
    | inl p ↦ inr (ground arith)
    | inr p ↦ inl p
  ]

  over_time :
      (deadline : ℕ) (depth : Option ℕ) (s : k6.State)
      → deadline ≤ k6.now s
      → ¬ ((is_positive depth && ltb (k6.now s) deadline) ≡ true)
  over_time deadline depth s h go = ground arith

  drain-Ends :
      (n deadline : ℕ) (depth : Option ℕ) (s : k6.State)
      → deadline ≤ k6.now s + 2000 * n
      → Ends deadline (drain k6 url (suc n) deadline depth s)
  unfolding drain
  drain-Ends zero deadline depth s h =
      elim (Bool-cases (is_positive depth && ltb (k6.now s) deadline)) [
        | inl go ↦ absurd (over_time deadline depth s (omega (arith, h)) go)
        | inr over ↦ rw over (depth, s, refl, stop_here deadline depth s over)
      ]
  drain-Ends (suc n) deadline depth s h =
      elim (Bool-cases (is_positive depth && ltb (k6.now s) deadline)) [
        | inl go ↦
            (let next = load_queue_depth k6 url (k6.sleep 2000 s) in
              rw go (drain-Ends n deadline next.0 next.1 (omega (arith, h, round_advances s))))
        | inr over ↦ rw over (depth, s, refl, stop_here deadline depth s over)
      ]

  teardown_of :
      (fuel : ℕ) (s : k6.State)
      → Ends (k6.now s + drain_time) (
          drain k6 url fuel
            (k6.now s + drain_time)
            (load_queue_depth k6 url s).0
            (load_queue_depth k6 url s).1)
      → (r : Drained) × (s' : k6.State) × (teardown k6 url fuel s ≡ some (r, s'))
        × ((is_positive r.depth ≡ false) ⊎ (pos drain_time ≤ℤ r.elapsed_ms))
  unfolding teardown
  teardown_of fuel s (depth, s', e, h) = rw (teardown, e) (_, s', refl, time_over s s' depth h)

  -- The drain ends: with fuel for 301 rounds or more, the loop has stopped, since a pause of two
  -- seconds per round uses up the ten minutes that it has. The depth that it reports, if positive, is
  -- reported with a time of ten minutes or more.
  pub teardown_ends :
      (fuel : ℕ) (s : k6.State)
      → 301 ≤ fuel
      → (r : Drained) × (s' : k6.State) × (teardown k6 url fuel s ≡ some (r, s'))
        × ((is_positive r.depth ≡ false) ⊎ (pos drain_time ≤ℤ r.elapsed_ms))
  teardown_ends zero s h = absurd (omega (arith, h))
  teardown_ends (suc n) s h = teardown_of (suc n) s (
      drain-Ends n (k6.now s + drain_time) (load_queue_depth k6 url s).0
        (load_queue_depth k6 url s).1 (omega (arith, h, load_advances s)))
