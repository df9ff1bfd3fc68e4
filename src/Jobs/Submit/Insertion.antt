-- ===== src/Jobs/Submit/Insertion.antt =====
-- What the insertion of a row and the hand-over to the queue end with.
use bengali_tts_service.Base.{◌≡◌, ap, inl, inr, Option, none, some, arith, Bool-cases}
use mathlib.Core.Path.{subst}
use bengali_tts_service.Text.{JsString}
use bengali_tts_service.Errors.{Result, ok, thrown, Thrown, run_effect, succeed}
use bengali_tts_service.Http.{Loose}
use bengali_tts_service.Schema.{Job}
use bengali_tts_service.Queue.{enqueue_tts_job}
use bengali_tts_service.Deps.Prisma.{JobTable}
use bengali_tts_service.Deps.Action.{
  AppDeps, World, Act, pure, lift, query, raise-ne-ok, bind-eq-ok, catching-eq-ok, ◌>>=◌,
}
use bengali_tts_service.Jobs.Shared.{AuthedUser, Reply, Submission, respond_for_idempotent_retry}
use bengali_tts_service.Jobs.Submit.{
  delivery, correlation_id, Admitted, inserted, replayed, is_unique_violation, keyed, winner_or,
  admit_in_transaction, transaction, recover, insert_row, hand_over,
}
use bengali_tts_service.Jobs.Submit.Gates.{IsAdmitted, transaction-IsAdmitted}

module _ (deps : AppDeps) where
  -- A retry is never answered by 202.
  pub retry_status :
      (job : Job) (body : deps.schemas.Body) {reply : Reply Submission}
      → respond_for_idempotent_retry deps job body ≡ ok reply
      → reply.status ≡ 200
  unfolding respond_for_idempotent_retry
  retry_status job body h = ground arith

  winner_replays :
      (o : Option Job) (t : Thrown) (body : deps.schemas.Body) (w w' : World deps) {a : Admitted}
      → winner_or deps o t body w ≡ (ok a, w')
      → (reply : Reply Submission) × (a ≡ replayed reply) × (reply.status ≡ 200)
  winner_replays none t body w w' h = cc
  winner_replays (some winner) t body w w' {a} h =
      let (reply, e, k) =
        bind-eq-ok deps (lift (respond_for_idempotent_retry deps winner body))
          (λ reply. pure (replayed reply)) w w' h in
      (reply, ap_ok k, retry_status winner body e)
    where
      ap_ok :
          {r : Reply Submission} → pure {deps = deps} (replayed r) w ≡ (ok a, w') → a ≡ replayed r
      ap_ok k = cc

  -- The `catch` inserts no row.
  pub recover_replays :
      (user : AuthedUser) (key : Option JsString) (body : deps.schemas.Body) (t : Thrown)
      (w w' : World deps) {a : Admitted}
      → recover deps user key body t w ≡ (ok a, w')
      → (reply : Reply Submission) × (a ≡ replayed reply) × (reply.status ≡ 200)
  unfolding recover
  recover_replays user none body t w w' h = cc
  recover_replays user (some key) body t w w' h = elim (Bool-cases (is_unique_violation t)) [
    | inl lost ↦
        let (o, read, k) =
          bind-eq-ok deps (query (deps.prisma.job_find_first (keyed user.id key)))
            (λ o. winner_or deps o t body) w w' (rw lost at h) in
        winner_replays o t body w w' k
    | inr broken ↦ absurd (raise-ne-ok deps t w w' (rw broken at h))
  ]

  pub hand_over_keeps_db :
      (id : Loose) (job : Job) (w : World deps)
      → (hand_over deps id job w).0 ≡ ok tt
      → (hand_over deps id job w).1.db ≡ w.db
  unfolding hand_over
  hand_over_keeps_db id job w h = ground arith

  -- What the `try` round the transaction ends with.
  abbrev pub IsInsertion :
      JobTable deps.prisma
      → AuthedUser
      → JsString
      → Option JsString
      → World deps
      → World deps
      → Admitted
      → Type 0
  IsInsertion jt user text key w w' (inserted job) = IsAdmitted deps jt user text key w.db w'.db job
  IsInsertion jt user text key w w' (replayed reply) = reply.status ≡ 200

  abbrev IsInserted :
      JobTable deps.prisma
      → AuthedUser
      → JsString
      → Option JsString
      → World deps
      → Result Admitted × World deps
      → Type 0
  IsInserted jt user text key w (ok a, w') = IsInsertion jt user text key w w' a
  IsInserted jt user text key w (thrown t, w') = Unit

  of_inserted :
      (jt : JobTable deps.prisma) (user : AuthedUser) (text : JsString) (key : Option JsString)
      (w v w' : World deps) (a : Admitted) {job : Job}
      → pure (inserted job) v ≡ (ok a, w')
      → IsAdmitted deps jt user text key w.db v.db job
      → IsInsertion jt user text key w w' a
  of_inserted jt user text key w v w' a k admitted =
      subst (λ (r : Result Admitted × World deps). IsInserted jt user text key w r) k admitted

  pub insert_row-IsInsertion :
      (jt : JobTable deps.prisma) (user : AuthedUser) (text : JsString) (key : Option JsString)
      (body : deps.schemas.Body) (w w' : World deps) (a : Admitted)
      → insert_row deps user text key body w ≡ (ok a, w')
      → IsInsertion jt user text key w w' a
  unfolding insert_row
  insert_row-IsInsertion jt user text key body w w' a h =
      let run : Act deps Job = transaction deps (admit_in_transaction deps user text key) in
      elim (catching-eq-ok deps (run >>= λ job. pure (inserted job)) (recover deps user key body) w
        w' h) [
          | inl done ↦
              let (job, e, k) = bind-eq-ok deps run (λ job. pure (inserted job)) w w' done in
              of_inserted jt user text key w (run w).1 w' a k (
                transaction-IsAdmitted deps jt user text key w (run w).1
                  (ap (λ (r : Result Job). (r, (run w).1)) e))
          | inr (t, e, k) ↦
              let (reply, e', status) = recover_replays user key body t _ w' k in rw e' status
        ]

  pub hand_over_enqueued :
      (id : Loose) (job : Job) (w : World deps)
      → (hand_over deps id job w).0 ≡ ok tt
      → (enqueue_tts_job deps.queue job.id (delivery deps) (correlation_id id) w.queue).0
        ≡ succeed tt
  unfolding hand_over run_effect
  hand_over_enqueued id job w h = ground arith
