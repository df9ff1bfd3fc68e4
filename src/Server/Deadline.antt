-- ===== src/Server/Deadline.antt =====
-- gateway/src/lib/shutdown.ts: the failsafe timer bounds the time from a signal to the exit.
use bengali_tts_service.Base.{
  ℕ, ◌+◌, ◌-◌, ◌≤◌, ◌≡◌, refl, true, false, none, some, List, [], ◌∷◌, arith, Bool-cases, inl, inr,
  ◌⊎◌, Option-cases,
}
use bengali_tts_service.Server.Runs.{run_events-keeps, run_events-cons}
use bengali_tts_service.Server.{
  Process, Event, listening, signal, passes, timer_fires, go, exit, occurs, run_events, shutdown,
  graceful_shutdown, failsafe_ms, none_before, one_due,
}

-- A timer that is due by a time is armed, and its time is not over.
abbrev pub IsArmed : ℕ → Process → Type 0
IsArmed deadline p = (one_due deadline p.timers ≡ true) × (none_before p.now p.timers ≡ true)

-- Timers that are later than one time are later than an earlier one, and a new one is later too.
none_before-le : (t u : ℕ) (l : List ℕ) → t ≤ u → none_before u l ≡ true → none_before t l ≡ true
none_before-le t u [] h k = refl
none_before-le t u (due ∷ l) h k = ground (arith, none_before-le t u l h)

deadline_bound :
    (now deadline : ℕ) (l : List ℕ)
    → one_due deadline l ≡ true
    → none_before now l ≡ true
    → now ≤ deadline
deadline_bound now deadline [] h k = cc
deadline_bound now deadline (due ∷ l) h k = ground (arith, deadline_bound now deadline l)

go-IsArmed :
    (deadline : ℕ) (e : Event) (p q : Process)
    → p.exited ≡ none
    → IsArmed deadline p
    → go e p ≡ some q
    → IsArmed deadline q
unfolding shutdown graceful_shutdown
go-IsArmed deadline e p q live h g = ground (arith, h)

-- No timer is overdue.
abbrev IsTimely : Process → Type 0
IsTimely p = none_before p.now p.timers ≡ true

go-IsTimely :
    (e : Event) (p q : Process) → p.exited ≡ none → IsTimely p → go e p ≡ some q → IsTimely q
unfolding shutdown graceful_shutdown
go-IsTimely e p q live h g = ground (arith, h)

signal-IsArmed :
    (p q : Process) → IsTimely p → go signal p ≡ some q → IsArmed (p.now + failsafe_ms) q
unfolding shutdown graceful_shutdown
signal-IsArmed p q h g = ground (arith, h)

IsArmed-after :
    (start : ℕ) (es later : List Event) (p q : Process)
    → run_events es (listening start) ≡ some p
    → run_events (signal ∷ later) p ≡ some q
    → IsArmed (p.now + failsafe_ms) q
IsArmed-after start es later p q f g =
    let timely = run_events-keeps IsTimely go-IsTimely es (listening start) p refl f in
    let (p', live, first, rest) = run_events-cons signal later p q g in
    run_events-keeps (IsArmed (p.now + failsafe_ms)) (go-IsArmed (p.now + failsafe_ms)) later p' q
      (signal-IsArmed p p' timely first) rest

-- The timer that fires first.
not_due-none_before : (t : ℕ) (l : List ℕ) → one_due t l ≡ false → none_before t l ≡ true
not_due-none_before t [] h = refl
not_due-none_before t (due ∷ l) h = ground (arith, not_due-none_before t l)

earliest :
    (deadline : ℕ) (l : List ℕ)
    → one_due deadline l ≡ true
    → (t : ℕ) × (none_before t l ≡ true) × (one_due t l ≡ true)
earliest deadline [] h = cc
earliest deadline (due ∷ l) h = elim (Bool-cases (one_due due l)) [
  | inl sooner ↦
      (let (t, before, now) = earliest due l sooner in
        (t, ground (arith, deadline_bound t due l sooner before, before), ground (arith, now)))
  | inr first ↦ (due, ground (arith, not_due-none_before due l first), ground arith)
]

wait_and_fire :
    (ms : ℕ) (p : Process)
    → p.exited ≡ none
    → none_before (p.now + ms) p.timers ≡ true
    → one_due (p.now + ms) p.timers ≡ true
    → run_events (passes ms ∷ timer_fires ∷ []) p ≡ some (exit 1 (record p { now = p.now + ms }))
unfolding run_events occurs
wait_and_fire ms p live before due = ground (arith, live, before, due)

-- From a state with an armed timer the process exits with 1 when the first timer fires, if nothing
-- else happens.
fires :
    (deadline : ℕ) (p : Process)
    → p.exited ≡ none
    → IsArmed deadline p
    → (ms : ℕ) × (p.now + ms ≤ deadline)
      × (q : Process) × (run_events (passes ms ∷ timer_fires ∷ []) p ≡ some q)
      × (q.exited ≡ some 1)
unfolding run_events occurs
fires deadline p live (armed, timely) =
    let (t, before, due) = earliest deadline p.timers armed in
    let ahead = deadline_bound p.now t p.timers due timely in
    let le = deadline_bound t deadline p.timers armed before in
    let e : p.now + (t - p.now) ≡ t = omega (arith, ahead) in
    (
      t - p.now,
      omega (arith, e, le),
      _,
      wait_and_fire (t - p.now) p live (rw e before) (rw e due),
      refl,
    )

-- After a signal the process runs for ten seconds at most, whatever the connections and the cleanup
-- do: a state that it reaches is at most that much later. If it has not exited in that state, it exits
-- with 1 by the end of the ten seconds, if nothing else ends it before.
pub shutdown_deadline :
    (start : ℕ) (es later : List Event) (p q : Process)
    → run_events es (listening start) ≡ some p
    → run_events (signal ∷ later) p ≡ some q
    → (q.now ≤ p.now + failsafe_ms)
      × (((code : ℕ) × (q.exited ≡ some code))
          ⊎ ((ms : ℕ) × (q.now + ms ≤ p.now + failsafe_ms)
              × (r : Process) × (run_events (passes ms ∷ timer_fires ∷ []) q ≡ some r)
              × (r.exited ≡ some 1)))
shutdown_deadline start es later p q f g =
    let (armed, timely) = IsArmed-after start es later p q f g in
    (
      deadline_bound q.now (p.now + failsafe_ms) q.timers armed timely,
      elim (Option-cases q.exited) [
        | inl live ↦ inr (fires (p.now + failsafe_ms) q live (armed, timely))
        | inr gone ↦ inl gone
      ],
    )
