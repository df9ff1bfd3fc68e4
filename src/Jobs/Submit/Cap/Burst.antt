-- ===== src/Jobs/Submit/Cap/Burst.antt =====
-- The cap holds under transactions of one user that overlap, since each of them counts with the lock.
use bengali_tts_service.Base.{
  ℕ, ◌≡◌, Bool, true, false, refl, sym, ap, ◌∙◌, inl, inr, Option, List, [], ◌∷◌, arith,
}
use mathlib.Core.Path.{subst}
use bengali_tts_service.Text.{JsString}
use bengali_tts_service.Errors.{Result, ok, Result-cases}
use bengali_tts_service.Schema.{Job}
use bengali_tts_service.Deps.Prisma.{JobTable, JobCreate}
use bengali_tts_service.Deps.Action.{AppDeps, World}
use bengali_tts_service.Jobs.Shared.{AuthedUser}
use bengali_tts_service.Jobs.Submit.{Gate, takes_lock, run_gate, insert_job}
use bengali_tts_service.Jobs.Submit.Cap.{
  Session, running, over, begins, Holds, put, Step, locked, passed, committed, rolled_back, deleted,
  worked, elsewhere, Run, done, next, IsCapped, IsPlaced,
}
use bengali_tts_service.Worker.Terminal.{write_pending}
use bengali_tts_service.Jobs.Submit.Cap.Places.{
  pending-without, one_more, other_job, of_put, put-IsAlone, IsPlaced-kept, Safe, fewer-IsSafe,
  same-IsSafe, moved-IsSafe, place_of, after_lock, after_gate, run_gate-rows, at_insert,
}

module _ (deps : AppDeps) (jt : JobTable deps.prisma) (users : ℕ → AuthedUser)
    (texts : ℕ → JsString) (keys : ℕ → Option JsString) where
  -- The new row is the only one that the user's transactions make meanwhile.
  committed-IsSafe :
      (n : ℕ) (holds : Bool) (job : Job) (w v : World deps) (sessions : ℕ → Session)
      → sessions n ≡ running holds []
      → (insert_job deps (users n) (texts n) (keys n) w).0 ≡ ok job
      → jt.rows v.db ≡ jt.rows (insert_job deps (users n) (texts n) (keys n) w).1.db
      → Safe deps jt users texts keys w.db sessions
      → Safe deps jt users texts keys v.db (put n over sessions)
  committed-IsSafe n holds job w v sessions here made rows safe =
      let creation : JobCreate = record {
        user_id = (users n).id;
        input_text = texts n;
        idempotency_key = keys n;
      } in
      let d' : deps.prisma.Db = (deps.prisma.job_create creation w.db).1 in
      let (row, owner, _, _, _, _) =
        jt.create_lem creation w.db d' job (ap (λ (r : Result Job). (r, d')) made) in
      let grown : jt.rows v.db ≡ job ∷ jt.rows w.db = rows ∙ row in
      let (held, room) =
        at_insert deps jt users texts keys n holds w.db
          (place_of deps jt users texts keys n _ w.db sessions here safe) in
      let holder : Holds (sessions n) = subst Holds (sym (here ∙ ap (λ b. running b []) held)) tt in
      record {
        capped = λ user_id. rw grown (
            one_more deps.config.tts_pending_cap (users n).id user_id job (jt.rows w.db) owner room
              (safe.capped user_id));
        placed = λ m.
            of_put (λ t. IsPlaced deps jt users texts keys m v.db t) n m over sessions (λ _. tt)
              (λ differ.
                IsPlaced-kept deps jt users texts keys m w.db v.db (sessions m)
                  (λ has. rw grown (
                    other_job (users m).id job (jt.rows w.db)
                      (λ e. differ (safe.alone m n has holder (e ∙ owner)))))
                  (safe.placed m));
        alone = put-IsAlone deps jt users texts keys n over sessions safe.alone (λ h. absurd h);
      }

  Step-IsSafe :
      {w v : World deps} {before after : ℕ → Session}
      → Step deps jt users texts keys w before v after
      → Safe deps jt users texts keys w.db before
      → Safe deps jt users texts keys v.db after
  Step-IsSafe (locked n holds left w sessions here free) safe =
      same-IsSafe deps jt users texts keys w.db (run_gate deps (users n) takes_lock w).1.db
        (put n (running true left) sessions)
        (run_gate-rows deps jt users texts keys (users n) takes_lock w)
        (moved-IsSafe deps jt users texts keys n (running true left) w.db sessions safe
          (after_lock deps jt users texts keys n holds left w.db
            (place_of deps jt users texts keys n _ w.db sessions here safe))
          (λ _ m has same. absurd (free m has same)))
  Step-IsSafe (passed n holds g left w sessions here other let_on) safe =
      same-IsSafe deps jt users texts keys w.db (run_gate deps (users n) g w).1.db
        (put n (running holds left) sessions) (run_gate-rows deps jt users texts keys (users n) g w)
        (moved-IsSafe deps jt users texts keys n (running holds left) w.db sessions safe
          (after_gate deps jt users texts keys n holds g left w other let_on
            (place_of deps jt users texts keys n _ w.db sessions here safe))
          (λ h m has same. safe.alone m n has (subst Holds (sym here) (still holds g left h)) same))
    where
      still :
          (holds : Bool) (g : Gate) (left : List Gate)
          → Holds (running holds left)
          → Holds (running holds (g ∷ left))
      still true g left h = tt
      still false g left h = h
  Step-IsSafe (committed n holds job w v sessions here made rows) safe =
      committed-IsSafe n holds job w v sessions here made rows safe
  Step-IsSafe (rolled_back n w v sessions rows) safe =
      same-IsSafe deps jt users texts keys w.db v.db (put n over sessions) rows
        (moved-IsSafe deps jt users texts keys n over w.db sessions safe tt (λ h. absurd h))
  Step-IsSafe (deleted id w v sessions e) safe =
      fewer-IsSafe deps jt users texts keys w.db v.db sessions
        (λ user_id.
          let d' : deps.prisma.Db = (deps.prisma.job_delete id w.db).1 in
          elim (Result-cases (deps.prisma.job_delete id w.db).0) [
            | inl (_, r) ↦
                rw (e, jt.delete_lem id w.db d' (ap (λ (x : Result (Unit {0})). (x, d')) r))
                  (pending-without id user_id (jt.rows w.db))
            | inr (t, r) ↦
                rw (e, jt.delete_thrown id w.db d' t (ap (λ (x : Result (Unit {0})). (x, d')) r))
                  (omega arith)
          ])
        safe
  Step-IsSafe (worked id writer w v sessions e) safe =
      fewer-IsSafe deps jt users texts keys w.db v.db sessions
        (λ user_id. rw e (write_pending id writer user_id (jt.rows w.db))) safe
  Step-IsSafe (elsewhere w v sessions e) safe =
      same-IsSafe deps jt users texts keys w.db v.db sessions e safe

  Run-IsSafe :
      {w v : World deps} {before after : ℕ → Session}
      → Run deps jt users texts keys w before v after
      → Safe deps jt users texts keys w.db before
      → Safe deps jt users texts keys v.db after
  Run-IsSafe (done w sessions) safe = safe
  Run-IsSafe (next w v u before between after step rest) safe =
      Run-IsSafe rest (Step-IsSafe step safe)

  begins-IsSafe :
      (d : deps.prisma.Db)
      → IsCapped deps jt users texts keys d
      → Safe deps jt users texts keys d (λ _. begins)
  begins-IsSafe d capped = record { capped = capped; placed = λ n. refl; alone = λ m n h. absurd h }

  -- With a database that keeps the documented laws of its job table, from a table where every user is
  -- within the cap of unfinished jobs: however the transactions of any number of submissions, of one
  -- user or of many, overlap statement by statement, and whatever deletions and writes of workers come
  -- between them, no user is brought over the cap, where the advisory lock of a user is given to one
  -- transaction at a time.
  pub Run-IsCapped :
      (w v : World deps) (sessions : ℕ → Session)
      → Run deps jt users texts keys w (λ _. begins) v sessions
      → IsCapped deps jt users texts keys w.db
      → IsCapped deps jt users texts keys v.db
  Run-IsCapped w v sessions run capped = (Run-IsSafe run (begins-IsSafe w.db capped)).capped
