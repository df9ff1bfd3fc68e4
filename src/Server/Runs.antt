-- ===== src/Server/Runs.antt =====
-- gateway/src/server.ts: sequences of events, and what every event of a sequence keeps.
use bengali_tts_service.Base.{ℕ, ◌≡◌, refl, Option, none, some, List, [], ◌∷◌}
use mathlib.Core.Path.{subst}
use bengali_tts_service.Server.{Process, Event, go, occurs, run_events}

none-ne-some : {A : Type 0} (a : A) → ¬ (none ≡ some a)
none-ne-some a h = cc

if_live :
    (x : Option ℕ) (o : Option Process) (q : Process)
    → (elim x [ none ↦ o | some code ↦ none ]) ≡ some q
    → (x ≡ none) × (o ≡ some q)
if_live none o q h = (refl, h)
if_live (some code) o q h = absurd (none-ne-some q h)

-- An event that happens has happened to a process that was running.
pub occurs-eq-some :
    (e : Event) (p q : Process) → occurs e p ≡ some q → (p.exited ≡ none) × (go e p ≡ some q)
unfolding occurs
occurs-eq-some e p q h = if_live p.exited (go e p) q h

then_run :
    (o : Option Process) (es : List Event) (q : Process)
    → (elim o [ none ↦ none | some p ↦ run_events es p ]) ≡ some q
    → (p : Process) × (o ≡ some p) × (run_events es p ≡ some q)
then_run none es q h = absurd (none-ne-some q h)
then_run (some p) es q h = (p, refl, h)

-- A run splits after its first event.
pub run_events-cons :
    (e : Event) (es : List Event) (p q : Process)
    → run_events (e ∷ es) p ≡ some q
    → (p' : Process) × (p.exited ≡ none) × (go e p ≡ some p') × (run_events es p' ≡ some q)
unfolding run_events
run_events-cons e es p q h =
    let (p', first, rest) = then_run (occurs e p) es q h in
    let (live, gone) = occurs-eq-some e p p' first in (p', live, gone, rest)

some_inj : {A : Type 0} (a b : A) → some a ≡ some b → a ≡ b
some_inj a b h = cc

-- What every event keeps, a run keeps.
pub run_events-keeps {ℓ} :
    (P : Process → Type ℓ)
    → ((e : Event) (p q : Process) → p.exited ≡ none → P p → go e p ≡ some q → P q)
    → (es : List Event) (p q : Process) → P p
    → run_events es p ≡ some q
    → P q
unfolding run_events
run_events-keeps P step [] p q h g = subst P (some_inj p q g) h
run_events-keeps P step (e ∷ es) p q h g =
    let (p', live, first, rest) = run_events-cons e es p q g in
    run_events-keeps P step es p' q (step e p p' live h first) rest
