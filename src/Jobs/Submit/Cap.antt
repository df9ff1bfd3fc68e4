-- ===== src/Jobs/Submit/Cap.antt =====
-- The cap on a user's unfinished jobs under transactions that overlap: their statements interleave in
-- any order that the advisory lock lets through.
mod Places
pub mod Burst
use bengali_tts_service.Base.{
  ℕ, ◌≤◌, ◌<◌, ◌≡◌, ◌≢◌, ◌⊎◌, ◌==◌, Bool, true, false, if◌then◌else◌, refl, sym, ap, ◌∙◌,
  Bool-cases, inl, inr, Option, List, [], ◌∷◌, arith, count_if,
}
use mathlib.Core.Path.{subst}
use bengali_tts_service.Text.{JsString, text_eq}
use bengali_tts_service.Text.Laws.{text_eq_sound}
use bengali_tts_service.Errors.{Result, ok, Result-cases}
use bengali_tts_service.Schema.{Job}
use bengali_tts_service.Deps.Prisma.{JobTable, meets, without}
use bengali_tts_service.Deps.Action.{AppDeps, World}
use bengali_tts_service.Jobs.Shared.{AuthedUser}
use bengali_tts_service.Jobs.Submit.{
  pending_of, Gate, takes_lock, counts_pending, reads_depth, gates, run_gate, insert_job,
}
use bengali_tts_service.Jobs.Submit.Gates.{transaction-IsAdmitted}
use bengali_tts_service.Jobs.Submit.Transaction.{transaction_thrown}
use bengali_tts_service.Worker.{Writer, write}
use bengali_tts_service.Worker.Terminal.{write_pending}

-- The unfinished jobs of a user.
abbrev pub pending : JsString → List Job → ℕ
pending user_id l = count_if (meets (pending_of user_id)) l

-- A submission's transaction: whether it holds its user's lock, and the statements before its insert
-- that are still to come; or over, by a commit or a rollback, which gives the lock back.
pub data Session : Type 0 where
  running : Bool → List Gate → Session
  over : Session

-- Every transaction begins without the lock, before the first statement of the gateway's code.
abbrev pub begins : Session
begins = running false gates

abbrev pub Holds : Session → Type 0
Holds (running true left) = Unit
Holds (running false left) = ⊥
Holds over = ⊥

abbrev pub put : ℕ → Session → (ℕ → Session) → ℕ → Session
put n s sessions m = if m == n then s else sessions m

module _ (deps : AppDeps) (jt : JobTable deps.prisma) (users : ℕ → AuthedUser)
    (texts : ℕ → JsString) (keys : ℕ → Option JsString) where
  -- No other transaction of the user holds the lock.
  abbrev pub IsFree : ℕ → (ℕ → Session) → Type 0
  IsFree n sessions = (m : ℕ) → Holds (sessions m) → ¬ ((users m).id ≡ (users n).id)

  -- What happens, one statement at a time, to the state that all transactions share and to the
  -- transactions, of which `n` is that of a submission by `users n`. A statement of a transaction sees
  -- the rows that are committed, and its insert is seen when it is committed.
  pub data Step : World deps → (ℕ → Session) → World deps → (ℕ → Session) → Type 0 where
    -- The lock is given to one that waits for it once no other of the user has it.
    locked :
        (n : ℕ) (holds : Bool) (left : List Gate) (w : World deps) (sessions : ℕ → Session)
        → sessions n ≡ running holds (takes_lock ∷ left)
        → IsFree n sessions
        → Step w sessions
            (run_gate deps (users n) takes_lock w).1
            (put n (running true left) sessions)
    -- A gate lets the transaction on.
    passed :
        (n : ℕ) (holds : Bool) (g : Gate) (left : List Gate) (w : World deps)
        (sessions : ℕ → Session)
        → sessions n ≡ running holds (g ∷ left)
        → g ≢ takes_lock
        → (run_gate deps (users n) g w).0 ≡ ok tt
        → Step w sessions (run_gate deps (users n) g w).1 (put n (running holds left) sessions)
    -- The insert, with the commit.
    committed :
        (n : ℕ) (holds : Bool) (job : Job) (w v : World deps) (sessions : ℕ → Session)
        → sessions n ≡ running holds []
        → (insert_job deps (users n) (texts n) (keys n) w).0 ≡ ok job
        → jt.rows v.db ≡ jt.rows (insert_job deps (users n) (texts n) (keys n) w).1.db
        → Step w sessions v (put n over sessions)
    -- A transaction ends in any other way, with no row.
    rolled_back :
        (n : ℕ) (w v : World deps) (sessions : ℕ → Session)
        → jt.rows v.db ≡ jt.rows w.db
        → Step w sessions v (put n over sessions)
    deleted :
        (id : JsString) (w v : World deps) (sessions : ℕ → Session)
        → v.db ≡ (deps.prisma.job_delete id w.db).1
        → Step w sessions v sessions
    worked :
        (id : JsString) (writer : Writer) (w v : World deps) (sessions : ℕ → Session)
        → jt.rows v.db ≡ write id writer (jt.rows w.db)
        → Step w sessions v sessions
    -- What else the gateway does leaves the rows.
    elsewhere :
        (w v : World deps) (sessions : ℕ → Session)
        → jt.rows v.db ≡ jt.rows w.db
        → Step w sessions v sessions

  -- Any number of steps.
  pub data Run : World deps → (ℕ → Session) → World deps → (ℕ → Session) → Type 0 where
    done : (w : World deps) (sessions : ℕ → Session) → Run w sessions w sessions
    next :
        (w v u : World deps) (before between after : ℕ → Session)
        → Step w before v between
        → Run v between u after
        → Run w before u after

  -- Every user is within the cap.
  abbrev pub IsCapped : deps.prisma.Db → Type 0
  IsCapped d = (user_id : JsString) → pending user_id (jt.rows d) ≤ deps.config.tts_pending_cap

  abbrev pub HasRoom : ℕ → deps.prisma.Db → Type 0
  HasRoom n d = pending (users n).id (jt.rows d) < deps.config.tts_pending_cap

  -- Where a transaction can be: before the lock, with the lock before the count, or with the lock and
  -- room for one job more.
  abbrev pub IsPlaced : ℕ → deps.prisma.Db → Session → Type 0
  IsPlaced n d over = Unit
  IsPlaced n d (running false left) = left ≡ gates
  IsPlaced n d (running true left) =
      (left ≡ counts_pending ∷ reads_depth ∷ [])
      ⊎ (((left ≡ reads_depth ∷ []) ⊎ (left ≡ [])) × HasRoom n d)

  -- Two transactions of one user do not both hold its lock.
  abbrev pub IsAlone : (ℕ → Session) → Type 0
  IsAlone sessions =
      (m n : ℕ) → Holds (sessions m) → Holds (sessions n) → (users m).id ≡ (users n).id → m ≡ n

  pub record IsSafe (d : deps.prisma.Db) (sessions : ℕ → Session) : Type 0 where
    pub capped : IsCapped d
    pub placed : (n : ℕ) → IsPlaced n d (sessions n)
    pub alone : IsAlone sessions
