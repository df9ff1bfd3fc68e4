-- ===== src/Jobs/Stream/Frames.antt =====
-- What a subscriber is shown.
use bengali_tts_service.Base.{
  ℕ, zero, suc, ◌≡◌, refl, ap, true, false, Bool-cases, inl, inr, Option, none, some, List, [], ◌∷◌,
  ◌++◌, map, All, arith, if◌then◌else◌,
}
use mathlib.Core.Path.{subst}
use bengali_tts_service.Errors.{Result, ok, thrown}
use bengali_tts_service.Schema.{Job, JobStatus, status_eq}
use bengali_tts_service.Jobs.Shared.{JobView, serialize_job}
use bengali_tts_service.Jobs.Stream.{
  Stream, is_terminal, open_stream, on_poll, show_change, end_if_terminal, answer_one, Event, tick,
  answered, closed, shut_down, step, run, close_all,
}

-- Frames of which no two in a row show one status, the newest with the given one.
abbrev pub IsChain : JobStatus → List JobView → Type 0
IsChain status [] = Unit
IsChain status (v ∷ []) = v.status ≡ status
IsChain status (v ∷ u ∷ rest) =
    (v.status ≡ status) × (status_eq v.status u.status ≡ false) × IsChain u.status (u ∷ rest)

cons-IsChain :
    (row : Job) (last : JobStatus) (frames : List JobView)
    → IsChain last frames
    → status_eq row.status last ≡ false
    → IsChain row.status (serialize_job row ∷ frames)
unfolding serialize_job
cons-IsChain row last [] h d = refl
cons-IsChain row last (u ∷ []) h d = (refl, rw h d, refl)
cons-IsChain row last (u ∷ x ∷ rest) (e, ne, c) d = (refl, rw e d, (refl, ne, c))

shown-IsChain :
    (row : Job) (s : Stream)
    → IsChain s.last_status s.frames
    → IsChain (show_change row s).last_status (show_change row s).frames
shown-IsChain row s h = elim (Bool-cases (status_eq row.status s.last_status)) [
  | inl same ↦ rw same h
  | inr other ↦ rw other (cons-IsChain row s.last_status s.frames h other)
]

ended-IsChain :
    (row : Job) (s : Stream)
    → IsChain s.last_status s.frames
    → IsChain (end_if_terminal row s).last_status (end_if_terminal row s).frames
ended-IsChain row s h = elim (Bool-cases (is_terminal row.status)) [
  | inl over ↦ rw over h
  | inr on ↦ rw on h
]

on_poll-IsChain :
    (r : Result (Option Job)) (s : Stream)
    → IsChain s.last_status s.frames
    → IsChain (on_poll r s).last_status (on_poll r s).frames
unfolding on_poll
on_poll-IsChain (ok (some row)) s h = ended-IsChain row (show_change row s) (shown-IsChain row s h)
on_poll-IsChain (ok none) s h = h
on_poll-IsChain (thrown t) s h = h

some_inj : {x y : Stream} → some x ≡ some y → x ≡ y
some_inj h = cc

answered-IsChain :
    (r : Result (Option Job)) (s s' : Stream) (n : ℕ)
    → answer_one r s n ≡ some s'
    → IsChain s.last_status s.frames
    → IsChain s'.last_status s'.frames
answered-IsChain r s s' zero e h = cc
answered-IsChain r s s' (suc n) e h =
    subst (λ (t : Stream). IsChain t.last_status t.frames) (some_inj e)
      (on_poll-IsChain r (record s { in_flight = n }) h)

step-IsChain :
    (e : Event) (s s' : Stream)
    → step e s ≡ some s'
    → IsChain s.last_status s.frames
    → IsChain s'.last_status s'.frames
unfolding step close_all
step-IsChain tick s s' e h = elim (Bool-cases s.ticking) [
  | inl on ↦ subst (λ (t : Stream). IsChain t.last_status t.frames) (some_inj (rw on at e)) h
  | inr off ↦ cc (rw off at e)
]
step-IsChain (answered r) s s' e h = answered-IsChain r s s' s.in_flight e h
step-IsChain closed s s' e h = subst (λ (t : Stream). IsChain t.last_status t.frames) (some_inj e) h
step-IsChain shut_down s s' e h = elim (Bool-cases s.registered) [
  | inl on ↦ subst (λ (t : Stream). IsChain t.last_status t.frames) (some_inj (rw on at e)) h
  | inr off ↦ subst (λ (t : Stream). IsChain t.last_status t.frames) (some_inj (rw off at e)) h
]

-- After one event, if it can happen, the rest of the run.
run_next :
    (o : Option Stream) (rest : Stream → Option Stream) (s' : Stream) {P : Type 0}
    → elim o [ none ↦ none | some t ↦ rest t ] ≡ some s'
    → ((t : Stream) → o ≡ some t → rest t ≡ some s' → P)
    → P
run_next none rest s' e go = cc
run_next (some t) rest s' e go = go t refl e

run_from :
    (events : List Event) (s s' : Stream)
    → run events s ≡ some s'
    → IsChain s.last_status s.frames
    → IsChain s'.last_status s'.frames
unfolding run
run_from [] s s' e h = subst (λ (t : Stream). IsChain t.last_status t.frames) (some_inj e) h
run_from (event ∷ rest) s s' e h =
    run_next (step event s) (run rest) s' e
      (λ t f k. run_from rest t s' k (step-IsChain event s t f h))

-- Whatever happens to a connection, overlapping polls included, no two frames in a row show one
-- status, and the newest one shows the status that the next poll is compared with.
pub run-IsChain :
    (job : Job) (events : List Event) (s : Stream)
    → run events (open_stream job) ≡ some s
    → IsChain s.last_status s.frames
unfolding open_stream serialize_job
run-IsChain job events s h = run_from events (open_stream job) s h refl

-- The rows that show another status than the one before them.
abbrev pub changes : JobStatus → List Job → List Job
changes status [] = []
changes status (row ∷ rest) =
    let later = changes row.status rest in
    if status_eq row.status status then later else row ∷ later

-- Polls of which each is answered before the next one.
abbrev pub polls : List Job → List Event
polls [] = []
polls (row ∷ rest) = tick ∷ answered (ok (some row)) ∷ polls rest

abbrev pub newest_first : List JobView → List JobView → List JobView
newest_first shown [] = shown
newest_first shown (v ∷ rest) = newest_first (v ∷ shown) rest

status_eq_sound : (a b : JobStatus) → status_eq a b ≡ true → a ≡ b
status_eq_sound a b h = ground arith

-- A connection that is watched, with no poll under way.
abbrev watching : List JobView → JobStatus → Stream
watching frames status = record {
  frames = frames;
  last_status = status;
  ended = false;
  ticking = true;
  registered = true;
  in_flight = 0;
}

abbrev finished : List JobView → JobStatus → Stream
finished frames status = record {
  frames = frames;
  last_status = status;
  ended = true;
  ticking = false;
  registered = false;
  in_flight = 0;
}

run-polls_from :
    (frames : List JobView) (status : JobStatus) (rows : List Job) (final : Job)
    → All (λ row. is_terminal row.status ≡ false) rows
    → is_terminal final.status ≡ true
    → is_terminal status ≡ false
    → run (polls (rows ++ final ∷ [])) (watching frames status)
      ≡ some (
          finished
            (newest_first frames (map serialize_job (changes status (rows ++ final ∷ []))))
            final.status)
unfolding run step on_poll is_terminal
run-polls_from frames status [] final h t o = elim (Bool-cases (status_eq final.status status)) [
  | inl same ↦ cc (o, ap is_terminal (status_eq_sound final.status status same), t)
  | inr other ↦ rw (other, t) refl
]
run-polls_from frames status (row ∷ rows) final (open_row, h) t o =
    elim (Bool-cases (status_eq row.status status)) [
      | inl same ↦
          rw (same, open_row)
            (rw (status_eq_sound row.status status same)
              (run-polls_from frames status rows final h t o))
      | inr other ↦
          rw (other, open_row)
            (run-polls_from (serialize_job row ∷ frames) row.status rows final h t open_row)
    ]

-- A subscriber of a job that is not over, whose polls do not overlap and see a sequence of rows of
-- which the last is the first terminal one, is shown the snapshot and then exactly the rows whose
-- status is another than the one before, in order; and then the answer is ended, the timer stopped
-- and the hub left.
pub run-polls :
    (job : Job) (rows : List Job) (final : Job)
    → is_terminal job.status ≡ false
    → All (λ row. is_terminal row.status ≡ false) rows
    → is_terminal final.status ≡ true
    → run (polls (rows ++ final ∷ [])) (open_stream job)
      ≡ some (record {
        frames =
            newest_first
              (serialize_job job ∷ [])
              (map serialize_job (changes job.status (rows ++ final ∷ [])));
        last_status = final.status;
        ended = true;
        ticking = false;
        registered = false;
        in_flight = 0;
      })
unfolding open_stream
run-polls job rows final o h t =
    rw o (run-polls_from (serialize_job job ∷ []) job.status rows final h t o)
