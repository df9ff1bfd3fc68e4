-- ===== src/Server/Clean.antt =====
-- gateway/src/lib/shutdown.ts: what the exit code of the process says.
use bengali_tts_service.Base.{
  ℕ, ◌+◌, ◌≤◌, ◌≡◌, refl, ap, ◌∙◌, true, false, none, some, List, [], ◌∷◌, arith, ◌++◌,
}
use bengali_tts_service.Server.Runs.{run_events-keeps, run_events-cons}
use bengali_tts_service.Server.{
  Process, Event, disconnected, go, run_events, listening, shutdown, graceful_shutdown,
}

-- No connection is left and none can come.
abbrev pub IsQuiet : Process → Type 0
IsQuiet p = (p.accepting ≡ false) × (p.streams + p.busy + p.idle ≡ 0)

-- No client is open.
abbrev pub IsClosed : Process → Type 0
IsClosed p =
    (p.queue_open ≡ false) × (p.prisma_open ≡ false) × (p.redis_open ≡ false) × (p.s3_open ≡ false)

-- A callback waits only after the server was closed; a cleanup runs only when it is quiet, and waits
-- for the database only when the queue is closed; so it was when the process exited with 0.
abbrev pub IsOrderly : Process → Type 0
IsOrderly p =
    ((p.accepting ≡ true) → (p.waiting ≡ 0) × (p.closing ≡ 0) × (p.disconnecting ≡ 0))
    × ((1 ≤ p.closing + p.disconnecting) → IsQuiet p)
    × ((1 ≤ p.disconnecting) → p.queue_open ≡ false)
    × ((p.exited ≡ some 0) → IsQuiet p × IsClosed p)

go-IsOrderly :
    (e : Event) (p q : Process) → p.exited ≡ none → IsOrderly p → go e p ≡ some q → IsOrderly q
unfolding shutdown graceful_shutdown
go-IsOrderly e p q live h g = ground (arith, h, live)

-- The event that exits with 0.
go-exit :
    (e : Event) (p q : Process)
    → p.exited ≡ none
    → go e p ≡ some q
    → q.exited ≡ some 0
    → e ≡ disconnected true
unfolding shutdown graceful_shutdown
go-exit e p q live g x = ground (arith, live)

not_exited : (p q : Process) → p.exited ≡ none → some p ≡ some q → ¬ (q.exited ≡ some 0)
not_exited p q live g x = cc

-- The events of a run that ends with an exit of 0 end with a disconnected database.
exit_by :
    (es : List Event) (p q : Process)
    → p.exited ≡ none
    → run_events es p ≡ some q
    → q.exited ≡ some 0
    → (before : List Event) × (es ≡ before ++ (disconnected true ∷ []))
unfolding run_events
exit_by [] p q live g x = absurd (not_exited p q live g x)
exit_by (e ∷ []) p q live g x =
    let (p', live', first, last) = run_events-cons e [] p q g in
    ([], ap (λ a. a ∷ []) (go-exit e p q live (first ∙ last) x))
exit_by (e ∷ f ∷ es) p q live g x =
    let (p', live', first, rest) = run_events-cons e (f ∷ es) p q g in
    let (p'', still, next, later) = run_events-cons f es p' q rest in
    let (before, h) = exit_by (f ∷ es) p' q still rest x in (e ∷ before, ap (λ l. e ∷ l) h)

-- The process exits with 0 only when a cleanup has disconnected the database, which is the last
-- event; and then no connection is left, no request in progress and no open stream among them, none
-- is accepted, and the queue, the database, Redis and the storage client are closed.
pub run_events-clean :
    (start : ℕ) (es : List Event) (p : Process)
    → run_events es (listening start) ≡ some p
    → p.exited ≡ some 0
    → IsQuiet p × IsClosed p × ((before : List Event) × (es ≡ before ++ (disconnected true ∷ [])))
run_events-clean start es p g x =
    let (accepting, running, waits, clean) =
      run_events-keeps IsOrderly go-IsOrderly es (listening start) p (ground arith) g in
    let (quiet, closed) = clean x in (quiet, closed, exit_by es (listening start) p refl g x)
