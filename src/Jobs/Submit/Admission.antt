-- ===== src/Jobs/Submit/Admission.antt =====
-- What a 202 means.
use bengali_tts_service.Base.{◌≡◌, refl, sym, ap, ◌∙◌, Option, none, some, arith, ◌++◌}
use mathlib.Core.Path.{subst}
use bengali_tts_service.Text.{JsString, js}
use bengali_tts_service.RateLimit.{now_ms, take_token}
use bengali_tts_service.Errors.{Result, ok, run_effect, succeed}
use bengali_tts_service.TtsText.{validate_tts_text}
use bengali_tts_service.TtsText.Verdict.{IsSpeakable, validate_tts_text_accepts}
use bengali_tts_service.Errors.Answers.{run_effect_returns}
use bengali_tts_service.Http.{validate}
use bengali_tts_service.Schema.{Job}
use bengali_tts_service.Queue.{enqueue_tts_job}
use bengali_tts_service.Deps.Prisma.{JobTable}
use bengali_tts_service.Deps.Action.{AppDeps, World, Act, pure, lift, bind-eq-ok, ◌>>=◌, ◌>>◌}
use bengali_tts_service.Jobs.Shared.{
  AuthedUser, Reply, Submission, submission_body, read_idempotency_key,
}
use bengali_tts_service.Jobs.Submit.{
  delivery, correlation_id, SubmitRequest, Admitted, inserted, replayed, insert_row, hand_over,
  finish, admit, submit, rate_limit_gate, replay_or_admit, find_existing,
}
use bengali_tts_service.Jobs.Submit.Gates.{IsAdmitted, db-rate_limit_gate, rate_limit_gate_open}
use bengali_tts_service.Jobs.Submit.Insertion.{
  retry_status, IsInsertion, insert_row-IsInsertion, hand_over_keeps_db, hand_over_enqueued,
}

-- What an accepted submission has gone through: the script in Redis has allowed it, the body parsed to
-- a speakable text, the transaction admitted one row within the cap, the queue took the row's id
-- and the database is as the transaction left it; the answer shows that row.
pub record IsAccepted (deps : AppDeps) (jt : JobTable deps.prisma) (user : AuthedUser)
    (req : SubmitRequest deps) (w w' : World deps) (reply : Reply Submission) : Type 0 where
  pub job : Job
  pub text : JsString
  pub key : Option JsString
  pub key_read : read_idempotency_key req.idempotency_key ≡ ok key
  pub reached : deps.redis.unreachable w.redis ≡ none
  pub token :
      (take_token deps.config.tts_rate_limit_per_minute
        (now_ms (deps.redis.time w.redis))
        (deps.redis.hmget (js "rate:" ++ user.id) w.redis)).allowed
      ≡ 1
  pub parsed : validate deps.schemas.submit req.body ≡ ok text
  pub speakable : IsSpeakable deps.config.tts_max_text_length text
  pub admitted : IsAdmitted deps jt user text key w.db w'.db job
  pub queue : deps.queue.Queue
  pub enqueued :
      (enqueue_tts_job deps.queue job.id (delivery deps) (correlation_id req.id) queue).0
      ≡ succeed tt
  pub shown : reply ≡ record { status = 202; body = submission_body deps job }

module _ (deps : AppDeps) (jt : JobTable deps.prisma) (user : AuthedUser)
    (req : SubmitRequest deps) where
  -- What the end of an accepted submission has established.
  record IsFinished (text : JsString) (key : Option JsString) (w v w' : World deps)
      (reply : Reply Submission) : Type 0 where
    job : Job
    admitted : IsAdmitted deps jt user text key w.db w'.db job
    enqueued :
        (enqueue_tts_job deps.queue job.id (delivery deps) (correlation_id req.id) v.queue).0
        ≡ succeed tt
    shown : reply ≡ record { status = 202; body = submission_body deps job }

  replayed_not_202 :
      (r reply : Reply Submission) (v w' : World deps)
      → r.status ≡ 200
      → reply.status ≡ 202
      → ¬ (pure {deps = deps} r v ≡ (ok reply, w'))
  replayed_not_202 r reply v w' s t h = ground arith

  finish_accepts :
      (key : Option JsString) (text : JsString) (a : Admitted) (w v w' : World deps)
      (reply : Reply Submission)
      → IsInsertion deps jt user text key w v a
      → reply.status ≡ 202
      → finish deps req a v ≡ (ok reply, w')
      → IsFinished text key w v w' reply
  finish_accepts key text (replayed r) w v w' reply i is_202 h =
      absurd (replayed_not_202 r reply v w' i is_202 h)
  finish_accepts key text (inserted job) w v w' reply i is_202 h =
      let answer : Act deps (Reply Submission) =
        pure (record { status = 202; body = submission_body deps job }) in
      let (_, handed, k) = bind-eq-ok deps (hand_over deps req.id job) (λ _. answer) v w' h in
      let same : w'.db ≡ v.db =
        ap (λ (r : Result (Reply Submission) × World deps). r.1.db) (sym k)
        ∙ hand_over_keeps_db deps req.id job v handed in
      record {
        job = job;
        admitted =
            subst (λ (d : deps.prisma.Db). IsAdmitted deps jt user text key w.db d job) (sym same)
              i;
        enqueued = hand_over_enqueued deps req.id job v handed;
        shown =
            pure_inj (record { status = 202; body = submission_body deps job }) reply
              (hand_over deps req.id job v).1 w' k;
      }
    where
      pure_inj :
          (r s : Reply Submission) (u u' : World deps) → pure {deps = deps} r u ≡ (ok s, u') → s ≡ r
      pure_inj r s u u' e = cc

  abbrev checked : JsString → Act deps (Unit {0})
  checked text = lift (run_effect (validate_tts_text text deps.config.tts_max_text_length))

  abbrev rest_of : Option JsString → JsString → Act deps (Reply Submission)
  rest_of key text = checked text >> (insert_row deps user text key req.body >>= finish deps req)

  admit_accepts :
      (key : Option JsString) (w w' : World deps) (reply : Reply Submission)
      → read_idempotency_key req.idempotency_key ≡ ok key
      → reply.status ≡ 202
      → admit deps user key req w ≡ (ok reply, w')
      → IsAccepted deps jt user req w w' reply
  unfolding admit
  admit_accepts key w w' reply read is_202 h =
      let parse : Act deps JsString = lift (validate deps.schemas.submit req.body) in
      let (_, token, h1) =
        bind-eq-ok deps (rate_limit_gate deps user) (λ _. parse >>= rest_of key) w w' h in
      let w1 : World deps = (rate_limit_gate deps user w).1 in
      let (text, parsed, h2) = bind-eq-ok deps parse (rest_of key) w1 w' h1 in
      let (_, valid, h3) =
        bind-eq-ok deps (checked text)
          (λ _. insert_row deps user text key req.body >>= finish deps req) w1 w' h2 in
      let (a, ins, h4) =
        bind-eq-ok deps (insert_row deps user text key req.body) (finish deps req) w1 w' h3 in
      let w2 : World deps = (insert_row deps user text key req.body w1).1 in
      let i =
        insert_row-IsInsertion deps jt user text key req.body w1 w2 a
          (ap (λ (r : Result Admitted). (r, w2)) ins) in
      let f = finish_accepts key text a w1 w2 w' reply i is_202 h4 in
      record {
        job = f.job;
        text = text;
        key = key;
        key_read = read;
        reached = (rate_limit_gate_open deps user w token).0;
        token = (rate_limit_gate_open deps user w token).1;
        parsed = parsed;
        speakable = (validate_tts_text_accepts text deps.config.tts_max_text_length).0 (
            (run_effect_returns (validate_tts_text text deps.config.tts_max_text_length) tt).0
              valid);
        admitted =
            subst (λ (d : deps.prisma.Db). IsAdmitted deps jt user text key d w'.db f.job)
              (db-rate_limit_gate deps user w) f.admitted;
        queue = w2.queue;
        enqueued = f.enqueued;
        shown = f.shown;
      }

  replay_or_admit_accepts :
      (key : Option JsString) (o : Option Job) (w w' : World deps) (reply : Reply Submission)
      → read_idempotency_key req.idempotency_key ≡ ok key
      → reply.status ≡ 202
      → replay_or_admit deps user key req o w ≡ (ok reply, w')
      → IsAccepted deps jt user req w w' reply
  replay_or_admit_accepts key none w w' reply read is_202 h =
      admit_accepts key w w' reply read is_202 h
  replay_or_admit_accepts key (some job) w w' reply read is_202 h = absurd (
      omega (
        arith,
        is_202,
        retry_status deps job req.body {reply = reply}
            (ap (λ (r : Result (Reply Submission) × World deps). r.0) h),
      ))

  find_existing_keeps :
      (key : Option JsString) (w : World deps) → (find_existing deps user key w).1 ≡ w
  find_existing_keeps none w = refl
  find_existing_keeps (some key) w = refl

  -- With a database that keeps the documented laws of its job table, a 202 is given only to a
  -- submission that the token bucket's script has allowed on the caller's hash as it was, at the time
  -- of Redis, whose text is speakable, whose row the transaction
  -- admitted as the only new one, the caller having had fewer unfinished jobs than the cap, and
  -- whose id the queue took; and the answer shows that row.
  pub submit_accepts :
      (w w' : World deps) (reply : Reply Submission)
      → submit deps user req w ≡ (ok reply, w')
      → reply.status ≡ 202
      → IsAccepted deps jt user req w w' reply
  unfolding submit
  submit_accepts w w' reply h is_202 =
      let read : Act deps (Option JsString) = lift (read_idempotency_key req.idempotency_key) in
      let (key, e, h1) =
        bind-eq-ok deps read
          (λ key. find_existing deps user key >>= replay_or_admit deps user key req) w w' h in
      let (o, _, h2) =
        bind-eq-ok deps (find_existing deps user key) (replay_or_admit deps user key req) w w' h1 in
      replay_or_admit_accepts key o w w' reply e is_202 (rw (find_existing_keeps key w) at h2)
