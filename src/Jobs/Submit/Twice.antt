-- ===== src/Jobs/Submit/Twice.antt =====
-- Two submissions with one Idempotency-Key: the second is answered from the row of the first.
use mathlib.Core.List.{Memᴰ}
use bengali_tts_service.Base.{
  ◌≡◌, refl, sym, ap, ◌∙◌, true, false, Option, none, some, List, ◌++◌, All, arith, if◌then◌else◌,
  All-of_Mem, Mem-All, Mem-append,
}
use bengali_tts_service.Text.{JsString, text_eq}
use bengali_tts_service.Errors.{Result, ok, thrown, domain, idempotency_conflict}
use bengali_tts_service.Http.{success, validate}
use bengali_tts_service.Schema.{Job}
use bengali_tts_service.Deps.Prisma.{JobTable, meets}
use bengali_tts_service.Deps.Action.{AppDeps, World, bind-eq-ok}
use bengali_tts_service.Jobs.Shared.{
  AuthedUser, Reply, Submission, read_idempotency_key, submission_body,
}
use bengali_tts_service.Jobs.Submit.{SubmitRequest, keyed, submit, find_existing, replay_or_admit}
use bengali_tts_service.Jobs.Submit.Insertion.{retry_status}
use bengali_tts_service.Jobs.Submit.Admission.{submit_accepts}
use bengali_tts_service.Jobs.Submit.Replay.{submit_replays}
use bengali_tts_service.Jobs.Submit.Held.{
  IsThe, IsHeld, IsHeld-write_all, only-append, IsHeld-new, true-ne-false,
}
use bengali_tts_service.Worker.{Writer, write_all}

module _ (deps : AppDeps) (jt : JobTable deps.prisma) (user : AuthedUser) where
  -- Nothing is accepted while the caller has a row of the key.
  find_first_before :
      (req : SubmitRequest deps) (w w' : World deps) (reply : Reply Submission) (key : JsString)
      → submit deps user req w ≡ (ok reply, w')
      → reply.status ≡ 202
      → read_idempotency_key req.idempotency_key ≡ ok (some key)
      → deps.prisma.job_find_first (keyed user.id key) w.db ≡ ok none
  unfolding submit
  find_first_before req w w' reply key h is_202 read =
      let (o, found, rest) =
        bind-eq-ok deps (find_existing deps user (some key))
          (replay_or_admit deps user (some key) req) w w' (rw read at h) in
      found ∙ ap ok (fresh o rest)
    where
      fresh :
          (o : Option Job)
          → replay_or_admit deps user (some key) req o w ≡ (ok reply, w')
          → o ≡ none
      fresh none k = refl
      fresh (some job) k = absurd (
          omega (
            arith,
            is_202,
            retry_status deps job req.body {reply = reply}
                (ap (λ (r : Result (Reply Submission) × World deps). r.0) k),
          ))

  -- What an accepted submission with a key leaves in the table.
  submit-IsHeld :
      (req : SubmitRequest deps) (w w' : World deps) (reply : Reply Submission) (key : JsString)
      → submit deps user req w ≡ (ok reply, w')
      → reply.status ≡ 202
      → read_idempotency_key req.idempotency_key ≡ ok (some key)
      → (text : JsString) × (validate deps.schemas.submit req.body ≡ ok text)
        × IsHeld user.id key reply.body.job_id text (jt.rows w'.db)
  unfolding submission_body
  submit-IsHeld req w w' reply key h is_202 read =
      let a = submit_accepts deps jt user req w w' reply h is_202 in
      let none_before = find_first_before req w w' reply key h is_202 read in
      let key_is : a.key ≡ some key = ok_inj (sym a.key_read ∙ read) in
      let id_is : a.job.id ≡ reply.body.job_id =
        sym (ap (λ (r : Reply Submission). r.body.job_id) a.shown) in
      (
        a.text,
        a.parsed,
        rw a.admitted.row (
            IsHeld-new user.id key reply.body.job_id a.text a.job (jt.rows w.db) a.admitted.owner
              (a.admitted.keyed_by ∙ key_is) id_is a.admitted.input
              (All-of_Mem (λ j. meets (keyed user.id key) j ≡ false) (jt.rows w.db)
                (λ j m. jt.find_first_none (keyed user.id key) w.db j none_before m))),
      )
    where
      ok_inj : {a b : Option JsString} → ok a ≡ ok b → a ≡ b
      ok_inj e = cc

  -- With a database that keeps the documented laws of its job table: after a submission with a key was
  -- answered by 202, a later one of the same user with the same key, whose lookup the database answers
  -- and whose body parses, is answered from the row of the first one, whatever the workers have written
  -- meanwhile and whichever rows without that key have come before it: with its job and the status 200
  -- where the text is that of the first, as a conflict otherwise; and nothing changes.
  pub submit_twice :
      (first second : SubmitRequest deps) (w w' v : World deps) (reply : Reply Submission)
      (writes : List (JsString × Writer)) (newer : List Job) (o : Option Job) (key text : JsString)
      → submit deps user first w ≡ (ok reply, w')
      → reply.status ≡ 202
      → read_idempotency_key first.idempotency_key ≡ ok (some key)
      → read_idempotency_key second.idempotency_key ≡ ok (some key)
      → jt.rows v.db ≡ newer ++ write_all writes (jt.rows w'.db)
      → All (λ j. meets (keyed user.id key) j ≡ false) newer
      → deps.prisma.job_find_first (keyed user.id key) v.db ≡ ok o
      → deps.schemas.submit second.body ≡ success text
      → (job : Job) × Memᴰ job (jt.rows v.db)
        × (job.id ≡ reply.body.job_id)
        × (validate deps.schemas.submit first.body ≡ ok job.input_text)
        × (submit deps user second v ≡ (
          if text_eq text job.input_text
              then ok (record { status = 200; body = submission_body deps job })
              else thrown (domain idempotency_conflict),
          v,
        ))
  submit_twice first second w w' v reply writes newer o key text h is_202 read again rows others
        found parsed =
      let (input, input_is, held) = submit-IsHeld first w w' reply key h is_202 read in
      let id = reply.body.job_id in
      let later = IsHeld-write_all user.id key id input writes (jt.rows w'.db) held in
      let only =
        only-append user.id key id input newer (write_all writes (jt.rows w'.db)) others
          later.only in
      let there = Mem-append later.row newer (write_all writes (jt.rows w'.db)) later.listed in
      let (job, o_is) = finds o later.row found (rw rows there) later.holds in
      let (listed, meets_it) =
        jt.find_first_meets (keyed user.id key) v.db job (found ∙ ap ok o_is) in
      let (id_is, text_is) =
        Mem-All (IsThe user.id key id input) job (jt.rows v.db) (rw rows only) listed meets_it in
      (
        job,
        listed,
        id_is,
        input_is ∙ ap ok (sym text_is),
        submit_replays deps user second v again (found ∙ ap ok o_is) parsed,
      )
    where
      finds :
          (o : Option Job) (row : Job)
          → deps.prisma.job_find_first (keyed user.id key) v.db ≡ ok o
          → Memᴰ row (jt.rows v.db)
          → meets (keyed user.id key) row ≡ true
          → (job : Job) × (o ≡ some job)
      finds none row e m k =
          absurd (true-ne-false (sym k ∙ jt.find_first_none (keyed user.id key) v.db row e m))
      finds (some job) row e m k = (job, refl)
