-- ===== src/Jobs/Submit/Gates.antt =====
-- What each step of a submission has established when it lets the submission through.
use bengali_tts_service.Base.{
  ℕ, ◌<◌, ◌≡◌, refl, sym, ap, ◌∙◌, Option, none, ◌∷◌, ◌++◌, arith, count_if, ◌≢◌, All, List,
}
use mathlib.Core.Path.{subst}
use bengali_tts_service.Text.{JsString, js}
use bengali_tts_service.RateLimit.{now_ms, take_token, rate_limit_exit}
use bengali_tts_service.Errors.{Result, ok, thrown, Thrown, run_effect, succeed}
use bengali_tts_service.Schema.{Job, queued}
use bengali_tts_service.Queue.{queue_depth}
use bengali_tts_service.Deps.Prisma.{JobTable, JobCreate, meets}
use bengali_tts_service.Deps.Action.{
  AppDeps, World, Act, pure, update, bind-eq-ok, catching-returns, ◌>>◌,
}
use bengali_tts_service.Jobs.Shared.{AuthedUser}
use bengali_tts_service.Jobs.Submit.{
  pending_of, take_rate_limit_token, rate_limit_gate, pending_gate, queue_gate,
  admit_in_transaction, end_transaction, transaction, undo,
}

module _ (deps : AppDeps) where
  -- The rate limit touches neither the database nor the queue.
  pub db-rate_limit_gate :
      (user : AuthedUser) (w : World deps) → (rate_limit_gate deps user w).1.db ≡ w.db
  unfolding rate_limit_gate
  db-rate_limit_gate user w = refl

  -- The rate limit lets a caller through only if Redis was reached and the script has allowed it, on
  -- what is under the caller's key.
  pub rate_limit_gate_open :
      (user : AuthedUser) (w : World deps)
      → (rate_limit_gate deps user w).0 ≡ ok tt
      → (deps.redis.unreachable w.redis ≡ none)
        × ((take_token deps.config.tts_rate_limit_per_minute
              (now_ms (deps.redis.time w.redis))
              (deps.redis.hmget (js "rate:" ++ user.id) w.redis)).allowed
            ≡ 1)
  unfolding rate_limit_gate take_rate_limit_token rate_limit_exit run_effect
  rate_limit_gate_open user w h = ground arith

  pub db-queue_gate : (w : World deps) → (queue_gate deps w).1.db ≡ w.db
  unfolding queue_gate
  db-queue_gate w = ground arith

  pub db-pending_gate :
      (user : AuthedUser) (w : World deps) → (pending_gate deps user w).1.db ≡ w.db
  unfolding pending_gate
  db-pending_gate user w = ground arith

  pub pending_gate_open :
      (user : AuthedUser) (w : World deps)
      → (pending_gate deps user w).0 ≡ ok tt
      → (n : ℕ) × (deps.prisma.job_count (pending_of user.id) w.db ≡ ok n)
        × (n < deps.config.tts_pending_cap)
  unfolding pending_gate
  pending_gate_open user w h = ground arith

  -- The queue's gate is open only if a depth below the capacity was read.
  pub queue_gate_open :
      (w : World deps)
      → (queue_gate deps w).0 ≡ ok tt
      → (n : ℕ) × ((queue_depth deps.queue deps.effects w.queue).0 ≡ succeed n)
        × (n < deps.config.tts_queue_capacity)
  unfolding queue_gate run_effect
  queue_gate_open w h = ground arith

-- A job that a transaction has admitted: it is the one new row, it is the caller's, with the text
-- and the key of the request, it waits in the queue, and before it the caller had fewer unfinished
-- jobs than the cap.
pub record IsAdmitted (deps : AppDeps) (jt : JobTable deps.prisma) (user : AuthedUser)
    (text : JsString) (key : Option JsString) (before after : deps.prisma.Db) (job : Job)
    : Type 0 where
  pub row : jt.rows after ≡ job ∷ jt.rows before
  pub owner : job.user_id ≡ user.id
  pub input : job.input_text ≡ text
  pub keyed_by : job.idempotency_key ≡ key
  pub fresh : job.status ≡ queued
  pub new_id : All (λ other. job.id ≢ other.id) (jt.rows before)
  pub room : count_if (meets (pending_of user.id)) (jt.rows before) < deps.config.tts_pending_cap

module _ (deps : AppDeps) (jt : JobTable deps.prisma) (user : AuthedUser) (text : JsString)
    (key : Option JsString) where
  abbrev creation : JobCreate
  creation = record { user_id = user.id; input_text = text; idempotency_key = key }

  abbrev insert : Act deps Job
  insert = update (deps.prisma.job_create creation)

  -- The last step of the transaction.
  insert-IsAdmitted :
      (w w' : World deps) {job : Job} (d : deps.prisma.Db)
      → jt.rows w.db ≡ jt.rows d
      → count_if (meets (pending_of user.id)) (jt.rows w.db) < deps.config.tts_pending_cap
      → insert w ≡ (ok job, w')
      → IsAdmitted deps jt user text key d w'.db job
  insert-IsAdmitted w w' {job} d same room h =
      let (row, owner, input, keyed_by, fresh, new_id) =
        jt.create_lem creation w.db w'.db job
          (ap (λ (r : Result Job × World deps). (r.0, r.1.db)) h) in
      record {
        row = row ∙ ap (λ l. job ∷ l) same;
        owner = owner;
        input = input;
        keyed_by = keyed_by;
        fresh = fresh;
        new_id = subst (λ (l : List Job). All (λ other. job.id ≢ other.id) l) same new_id;
        room = rw (← same) room;
      }

  pub admit_in_transaction-IsAdmitted :
      (w w' : World deps) {job : Job}
      → admit_in_transaction deps user text key w ≡ (ok job, w')
      → IsAdmitted deps jt user text key w.db w'.db job
  unfolding admit_in_transaction
  admit_in_transaction-IsAdmitted w w' {job} h =
      let lock : Act deps (Unit {0}) = update (deps.prisma.advisory_lock user.id) in
      let fill : Act deps Job = queue_gate deps >> insert in
      let (_, locked, h1) = bind-eq-ok deps lock (λ _. pending_gate deps user >> fill) w w' h in
      let w1 : World deps = (lock w).1 in
      let (_, open1, h2) = bind-eq-ok deps (pending_gate deps user) (λ _. fill) w1 w' h1 in
      let w2 : World deps = (pending_gate deps user w1).1 in
      let (_, open2, h3) = bind-eq-ok deps (queue_gate deps) (λ _. insert) w2 w' h2 in
      let w3 : World deps = (queue_gate deps w2).1 in
      let to_w1 : jt.rows w3.db ≡ jt.rows w1.db =
        ap (λ (d : deps.prisma.Db). jt.rows d)
          (db-queue_gate deps w2 ∙ db-pending_gate deps user w1) in
      let (n, counted, room) = pending_gate_open deps user w1 open1 in
      let is_count = jt.count_lem (pending_of user.id) w1.db n counted in
      insert-IsAdmitted w3 w' w.db (to_w1 ∙ jt.lock_rows user.id w.db) (rw (to_w1, ← is_count) room)
        h3

  undo-ne-ok :
      (before : deps.prisma.Db) (t : Thrown) (w w' : World deps) {job : Job}
      → ¬ (undo deps before t w ≡ (ok job, w'))
  undo-ne-ok before t w w' h = cc

  -- So does the transaction as a whole: the commit changes no row.
  committed-IsAdmitted :
      (before : deps.prisma.Db) (r : Result Job) (v w' : World deps) {job : Job}
      → (r ≡ ok job → IsAdmitted deps jt user text key before v.db job)
      → end_transaction deps before (r, v) ≡ (ok job, w')
      → IsAdmitted deps jt user text key before w'.db job
  committed-IsAdmitted before (thrown t) v w' admitted h = cc
  committed-IsAdmitted before (ok j) v w' {job} admitted h =
      let finished =
        catching-returns deps (update deps.prisma.commit >> pure j) (undo deps before)
          (λ t u u' a k. undo-ne-ok before t u u' k) v w' h in
      let (_, done, k) = bind-eq-ok deps (update deps.prisma.commit) (λ _. pure j) v w' finished in
      let a = admitted (ap (λ (r : Result Job × World deps). r.0) k) in
      let same : jt.rows w'.db ≡ jt.rows v.db =
        ap (λ (r : Result Job × World deps). jt.rows r.1.db) (sym k) ∙ jt.commit_rows v.db done in
      record {
        row = same ∙ a.row;
        owner = a.owner;
        input = a.input;
        keyed_by = a.keyed_by;
        fresh = a.fresh;
        new_id = a.new_id;
        room = a.room;
      }

  pub transaction-IsAdmitted :
      (w w' : World deps) {job : Job}
      → transaction deps (admit_in_transaction deps user text key) w ≡ (ok job, w')
      → IsAdmitted deps jt user text key w.db w'.db job
  unfolding transaction
  transaction-IsAdmitted w w' {job} h =
      let (r, v) = admit_in_transaction deps user text key w in
      committed-IsAdmitted w.db r v w'
        (λ e. admit_in_transaction-IsAdmitted w v (ap (λ (x : Result Job). (x, v)) e)) h
