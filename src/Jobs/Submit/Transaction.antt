-- ===== src/Jobs/Submit/Transaction.antt =====
-- What the transaction and the `try` round it leave in the table.
use bengali_tts_service.Base.{◌≡◌, ◌≢◌, refl, ap, ◌∙◌, inl, inr, Option, List, ◌∷◌, All, arith}
use bengali_tts_service.Text.{JsString}
use bengali_tts_service.Errors.{Result, ok, thrown, Thrown, Result-cases}
use bengali_tts_service.Schema.{Job}
use bengali_tts_service.Deps.Prisma.{JobTable}
use bengali_tts_service.Deps.Action.{AppDeps, World, Act, pure, continue, caught}
use bengali_tts_service.Jobs.Shared.{AuthedUser, Reply, Submission}
use bengali_tts_service.Jobs.Submit.{
  Admitted, inserted, replayed, admit_in_transaction, transaction, end_transaction, recover,
  insert_row,
}
use bengali_tts_service.Jobs.Submit.Gates.{IsAdmitted, transaction-IsAdmitted}
use bengali_tts_service.Jobs.Submit.Insertion.{recover_replays}

module _ (deps : AppDeps) (jt : JobTable deps.prisma) where
  -- What the `try` round the transaction leaves: no new row, and a replay if it returns; or one new
  -- row, with a new id.
  pub data Insertion (l : List Job) (r : Result Admitted) (after : deps.prisma.Db) : Type 0 where
    no_row :
        jt.rows after ≡ l
        → ((a : Admitted)
            → r ≡ ok a
            → (reply : Reply Submission) × (a ≡ replayed reply) × (reply.status ≡ 200))
        → Insertion l r after
    one_row :
        (job : Job)
        → r ≡ ok (inserted job)
        → jt.rows after ≡ job ∷ l
        → All (λ other. job.id ≢ other.id) l
        → Insertion l r after

  rolled_back :
      (before : deps.prisma.Db) (job : Job) (v : World deps) (t : Thrown)
      → (deps.prisma.commit v.db).0 ≡ thrown t
      → (end_transaction deps before (ok job, v)).1.db
        ≡ deps.prisma.rollback before (deps.prisma.commit v.db).1
  rolled_back before job v t h = ground arith

  end_thrown :
      (before : deps.prisma.Db) (r : Result Job) (v : World deps) (t : Thrown)
      → (end_transaction deps before (r, v)).0 ≡ thrown t
      → jt.rows (end_transaction deps before (r, v)).1.db ≡ jt.rows before
  end_thrown before (ok job) v t h = elim (Result-cases (deps.prisma.commit v.db).0) [
    | inl (_, e) ↦ absurd (ground (arith, e, h))
    | inr (u, e) ↦
        ap (λ (d : deps.prisma.Db). jt.rows d) (rolled_back before job v u e)
        ∙ jt.rollback_rows before _
  ]
  end_thrown before (thrown u) v t h = jt.rollback_rows before v.db

  -- A transaction that throws leaves the table as it was.
  pub transaction_thrown :
      (body : Act deps Job) (w : World deps) (t : Thrown)
      → (transaction deps body w).0 ≡ thrown t
      → jt.rows (transaction deps body w).1.db ≡ jt.rows w.db
  unfolding transaction
  transaction_thrown body w t h = end_thrown w.db (body w).0 (body w).1 t h

  module _ (user : AuthedUser) (text : JsString) (key : Option JsString)
      (body : deps.schemas.Body) where
    recover_keeps : (t : Thrown) (v : World deps) → (recover deps user key body t v).1.db ≡ v.db
    unfolding recover
    recover_keeps t v = ground arith

    recovered :
        (l : List Job) (t : Thrown) (v : World deps)
        → jt.rows v.db ≡ l
        → Insertion l (recover deps user key body t v).0 (recover deps user key body t v).1.db
    recovered l t v same =
        no_row (ap (λ (d : deps.prisma.Db). jt.rows d) (recover_keeps t v) ∙ same) (λ a e.
          recover_replays deps user key body t v (recover deps user key body t v).1
            (ap (λ (r : Result Admitted). (r, (recover deps user key body t v).1)) e))

    inserted_from :
        (w : World deps) (r : Result Job) (v : World deps)
        → ((job : Job) → r ≡ ok job → IsAdmitted deps jt user text key w.db v.db job)
        → ((t : Thrown) → r ≡ thrown t → jt.rows v.db ≡ jt.rows w.db)
        → let x =
            caught (recover deps user key body) (continue (λ job. pure (inserted job)) (r, v)) in
          Insertion (jt.rows w.db) x.0 x.1.db
    inserted_from w (ok job) v admitted same =
        let a = admitted job refl in one_row job refl a.row a.new_id
    inserted_from w (thrown t) v admitted same = recovered (jt.rows w.db) t v (same t refl)

    pub insert_row-Insertion :
        (w : World deps)
        → Insertion
            (jt.rows w.db)
            (insert_row deps user text key body w).0
            (insert_row deps user text key body w).1.db
    unfolding insert_row
    insert_row-Insertion w =
        let run = transaction deps (admit_in_transaction deps user text key) w in
        inserted_from w run.0 run.1
          (λ job e.
            transaction-IsAdmitted deps jt user text key w run.1
              (ap (λ (r : Result Job). (r, run.1)) e))
          (λ t e. transaction_thrown (admit_in_transaction deps user text key) w t e)
