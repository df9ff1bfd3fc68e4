-- ===== src/Jobs/Submit/Rows.antt =====
-- What a submission leaves in the table, however it ends.
use bengali_tts_service.Base.{
  ◌≡◌, ◌≢◌, refl, sym, ap, ◌∙◌, inl, inr, Option, none, some, List, ◌∷◌, All, arith,
}
use mathlib.Core.Path.{subst}
use bengali_tts_service.Text.{JsString}
use bengali_tts_service.Errors.{Result, ok, thrown, Thrown, run_effect, Result-cases}
use bengali_tts_service.TtsText.{validate_tts_text}
use bengali_tts_service.Http.{validate}
use bengali_tts_service.Schema.{Job}
use bengali_tts_service.Deps.Prisma.{JobTable, without}
use bengali_tts_service.Deps.Action.{AppDeps, World, Act, pure, lift, ◌>>=◌, ◌>>◌, continue}
use bengali_tts_service.Jobs.Shared.{
  AuthedUser, Reply, Submission, submission_body, read_idempotency_key,
}
use bengali_tts_service.Jobs.Submit.{
  SubmitRequest, Admitted, inserted, insert_row, hand_over, finish, admit, submit, rate_limit_gate,
  replay_or_admit, find_existing,
}
use bengali_tts_service.Jobs.Submit.Transaction.{Insertion, no_row, one_row, insert_row-Insertion}
use bengali_tts_service.Jobs.Submit.HandOver.{
  without_first, enqueued, hand_over_done, hand_over_undone,
}
use bengali_tts_service.Jobs.Submit.Gates.{db-rate_limit_gate}
use bengali_tts_service.Jobs.Submit.Insertion.{retry_status}

module _ (deps : AppDeps) (jt : JobTable deps.prisma) where
  -- How a submission can end: the table is as before, and the answer is no 202; or one new row is
  -- there, and the answer is a 202 that shows it; or one new row is there that could neither be
  -- queued nor be deleted, and the submission has thrown.
  pub data IsSettled (before : deps.prisma.Db) (r : Result (Reply Submission))
      (after : deps.prisma.Db) : Type 0 where
    kept :
        jt.rows after ≡ jt.rows before
        → ((reply : Reply Submission) → r ≡ ok reply → reply.status ≡ 200)
        → IsSettled before r after
    created :
        (job : Job)
        → jt.rows after ≡ job ∷ jt.rows before
        → r ≡ ok (record { status = 202; body = submission_body deps job })
        → IsSettled before r after
    orphaned :
        (job : Job) (t u : Thrown) (d : deps.prisma.Db)
        → r ≡ thrown t
        → jt.rows d ≡ job ∷ jt.rows before
        → deps.prisma.job_delete job.id d ≡ (thrown u, after)
        → jt.rows after ≡ job ∷ jt.rows before
        → IsSettled before r after

  abbrev Settled : deps.prisma.Db → Result (Reply Submission) × World deps → Type 0
  Settled before (r, w) = IsSettled before r w.db

  thrown_settles :
      (before : deps.prisma.Db) (t : Thrown) (after : deps.prisma.Db)
      → jt.rows after ≡ jt.rows before
      → IsSettled before (thrown t) after
  thrown_settles before t after same = kept same (λ reply e. cc)

  -- A first part that keeps the table, and then a part that settles.
  continue_settles :
      {A : Type 0} (before : deps.prisma.Db) (f : A → Act deps (Reply Submission)) (r : Result A)
      (v : World deps)
      → jt.rows v.db ≡ jt.rows before
      → ((a : A) → r ≡ ok a → Settled before (f a v))
      → Settled before (continue f (r, v))
  continue_settles before f (ok a) v same rest = rest a refl
  continue_settles before f (thrown t) v same rest = thrown_settles before t v.db same

  deleted_settles :
      (before : deps.prisma.Db) (job : Job) (t : Thrown) (d : deps.prisma.Db)
      → jt.rows d ≡ job ∷ jt.rows before
      → All (λ other. job.id ≢ other.id) (jt.rows before)
      → IsSettled before (thrown t) (deps.prisma.job_delete job.id d).1
  deleted_settles before job t d row new_id =
      let d' : deps.prisma.Db = (deps.prisma.job_delete job.id d).1 in
      elim (Result-cases (deps.prisma.job_delete job.id d).0) [
        | inl (_, e) ↦ thrown_settles before t d' (
            jt.delete_lem job.id d d' (ap (λ (r : Result (Unit {0})). (r, d')) e)
            ∙ (ap (without job.id) row ∙ without_first job (jt.rows before) new_id))
        | inr (u, e) ↦
            let gone = ap (λ (r : Result (Unit {0})). (r, d')) e in
            orphaned job t u d refl row gone (jt.delete_thrown job.id d d' u gone ∙ row)
      ]

  answered_settles :
      (before : deps.prisma.Db) (job : Job) (r : Result (Unit {0})) (v : World deps)
      → r ≡ ok tt
      → jt.rows v.db ≡ job ∷ jt.rows before
      → Settled before
          (continue (λ _. pure (record { status = 202; body = submission_body deps job })) (r, v))
  answered_settles before job (ok a) v e row = created job row refl
  answered_settles before job (thrown t) v e row = cc

  refused_settles :
      (before : deps.prisma.Db) (f : Unit {0} → Act deps (Reply Submission)) (t : Thrown)
      (r : Result (Unit {0})) (v : World deps)
      → r ≡ thrown t
      → IsSettled before (thrown t) v.db
      → Settled before (continue f (r, v))
  refused_settles before f t (ok a) v e settled = cc
  refused_settles before f t (thrown u) v e settled =
      subst (λ (x : Thrown). IsSettled before (thrown x) v.db)
        (thrown_inj (ap (λ (r : Result (Unit {0})). (r, v)) (sym e))) settled
    where
      thrown_inj :
          {x y : Thrown}
          → lift {deps = deps} {A = Unit {0}} (thrown x) v ≡ lift (thrown y) v
          → x ≡ y
      thrown_inj h = cc

  module _ (user : AuthedUser) (req : SubmitRequest deps) where
    handed_settles :
        (before : deps.prisma.Db) (job : Job) (v : World deps)
        → jt.rows v.db ≡ job ∷ jt.rows before
        → All (λ other. job.id ≢ other.id) (jt.rows before)
        → Settled before (finish deps req (inserted job) v)
    handed_settles before job v row new_id =
        let (r, u) = hand_over deps req.id job v in
        let answer =
          pure {deps = deps} (record { status = 202; body = submission_body deps job }) in
        elim (Result-cases (enqueued deps req.id job v)) [
          | inl (_, e) ↦
              let (done, same) = hand_over_done deps req.id job v e in
              answered_settles before job r u done
                (ap (λ (d : deps.prisma.Db). jt.rows d) same ∙ row)
          | inr (t, e) ↦
              let (failed, db) = hand_over_undone deps req.id job v t e in
              refused_settles before (λ _. answer) t r u failed
                (subst (λ (d : deps.prisma.Db). IsSettled before (thrown t) d) (sym db)
                  (deleted_settles before job t v.db row new_id))
        ]

    finish_settles :
        (before : deps.prisma.Db) (r : Result Admitted) (v : World deps)
        → Insertion deps jt (jt.rows before) r v.db
        → Settled before (continue (finish deps req) (r, v))
    finish_settles before (thrown t) v (no_row same replays) = thrown_settles before t v.db same
    finish_settles before (thrown t) v (one_row job e row new_id) = cc
    finish_settles before (ok a) v (no_row same replays) =
        let (reply, e, is_200) = replays a refl in
        subst (λ (x : Admitted). Settled before (finish deps req x v)) (sym e)
          (kept same (λ shown f. status_of reply shown is_200 f))
      where
        status_of : (x y : Reply Submission) → x.status ≡ 200 → ok x ≡ ok y → y.status ≡ 200
        status_of x y h e = ground arith
    finish_settles before (ok a) v (one_row job e row new_id) =
        subst (λ (r : Result Admitted). Settled before (continue (finish deps req) (r, v))) (sym e)
          (handed_settles before job v row new_id)

    admit_settles :
        (key : Option JsString) (before : deps.prisma.Db) (w : World deps)
        → jt.rows w.db ≡ jt.rows before
        → Settled before (admit deps user key req w)
    unfolding admit
    admit_settles key before w same =
        let parse : Act deps JsString = lift (validate deps.schemas.submit req.body) in
        let check : JsString → Act deps (Unit {0}) =
          λ text. lift (run_effect (validate_tts_text text deps.config.tts_max_text_length)) in
        let insert : JsString → Act deps (Reply Submission) =
          λ text. insert_row deps user text key req.body >>= finish deps req in
        let w1 : World deps = (rate_limit_gate deps user w).1 in
        let same1 : jt.rows w1.db ≡ jt.rows before =
          ap (λ (d : deps.prisma.Db). jt.rows d) (db-rate_limit_gate deps user w) ∙ same in
        continue_settles before (λ _. parse >>= λ text. check text >> insert text)
          (rate_limit_gate deps user w).0 w1 same1
          (λ _ _.
            continue_settles before (λ text. check text >> insert text) (parse w1).0 w1 same1
              (λ text _.
                continue_settles before (λ _. insert text) (check text w1).0 w1 same1
                  (λ _ _.
                    let (r, v) = insert_row deps user text key req.body w1 in
                    finish_settles before r v (
                      subst (λ (l : List Job). Insertion deps jt l r v.db) same1
                        (insert_row-Insertion deps jt user text key req.body w1)))))

    replay_or_admit_settles :
        (key : Option JsString) (o : Option Job) (w : World deps)
        → Settled w.db (replay_or_admit deps user key req o w)
    replay_or_admit_settles key none w = admit_settles key w.db w refl
    replay_or_admit_settles key (some job) w =
        kept refl (λ reply e. retry_status deps job req.body {reply = reply} e)

    -- With a database that keeps the documented laws of its job table, every submission ends in
    -- one of three ways: the table is as before and an answer, if there is one, has status 200; or
    -- it has one new row and the answer is a 202 that shows it; or the submission has thrown, and
    -- the table has one new row, since the deletion that follows a failed hand-over has failed
    -- too.
    pub submit_settles :
        (w : World deps) → IsSettled w.db (submit deps user req w).0 (submit deps user req w).1.db
    unfolding submit
    submit_settles w =
        continue_settles w.db
          (λ key. find_existing deps user key >>= replay_or_admit deps user key req)
          (read_idempotency_key req.idempotency_key) w refl
          (λ key e.
            found_settles key (find_existing deps user key w).0 (find_existing deps user key w).1
              (find_existing_keeps key w))
      where
        find_existing_keeps :
            (key : Option JsString) (w : World deps) → (find_existing deps user key w).1 ≡ w
        find_existing_keeps none w = refl
        find_existing_keeps (some key) w = refl

        found_settles :
            (key : Option JsString) (r : Result (Option Job)) (v : World deps)
            → v ≡ w
            → Settled w.db (continue (replay_or_admit deps user key req) (r, v))
        found_settles key r v e =
            subst
              (λ (u : World deps).
                Settled w.db (continue (replay_or_admit deps user key req) (r, u)))
              (sym e)
              (continue_settles w.db (replay_or_admit deps user key req) r w refl
                (λ o _. replay_or_admit_settles key o w))
