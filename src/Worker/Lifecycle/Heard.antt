-- ===== src/Worker/Lifecycle/Heard.antt =====
-- What the gateway serves of a job that was accepted and has had all its deliveries.
use bengali_tts_service.Base.{ℕ, ◌≤◌, ◌≡◌, refl, ap, ◌∙◌, Option, some, List, [], ◌∷◌, length}
use bengali_tts_service.Text.{JsString}
use bengali_tts_service.Errors.{ok}
use bengali_tts_service.Http.{one, validate}
use bengali_tts_service.Schema.{Job}
use bengali_tts_service.Deps.Prisma.{JobTable}
use bengali_tts_service.Deps.Clients.{ObjectOutput, sent}
use bengali_tts_service.Deps.Retry.{RetryLaw}
use bengali_tts_service.Deps.Action.{AppDeps, World}
use bengali_tts_service.Jobs.Shared.{AuthedUser, Reply, Submission}
use bengali_tts_service.Jobs.Read.{recording, recording_key, get_audio}
use bengali_tts_service.Jobs.Read.Isolation.{owned}
use bengali_tts_service.Jobs.Submit.{SubmitRequest, submit}
use bengali_tts_service.Worker.Processor.{
  Surroundings, Shared, Tried, gives, raises, timeout_error, exception, audio_key, attempt_audio,
}
use bengali_tts_service.Worker.Processor.Settling.{IsElsewhere, recorded, settle, outcomes}
use bengali_tts_service.Worker.Processor.Served.{
  attempt_audio-key, audio_key-nonempty, fetched_at_once, found_owned, served_from, find_object,
  newest,
}
use bengali_tts_service.Worker.Lifecycle.Single.{KeepsSingle}
use bengali_tts_service.Worker.Lifecycle.Shown.{all_deliveries, found_settled}

some_inj : {A : Type 0} {a b : A} → some a ≡ some b → a ≡ b
some_inj h = cc

-- The key of a recording is the one of the owner and the job.
settle-key :
    (id user_id text key : JsString) (wav : List ℕ) (envs : List Surroundings)
    → settle (outcomes id user_id text envs) ≡ recorded key wav
    → key ≡ audio_key user_id id
settle-key id user_id text key wav [] h = cc
settle-key id user_id text key wav (env ∷ envs) h =
    decided (attempt_audio env id user_id text) refl h (settle-key id user_id text key wav envs)
  where
    decided :
        (r : Tried (JsString × List ℕ))
        → attempt_audio env id user_id text ≡ r
        → settle (r ∷ outcomes id user_id text envs) ≡ recorded key wav
        → (settle (outcomes id user_id text envs) ≡ recorded key wav → key ≡ audio_key user_id id)
        → key ≡ audio_key user_id id
    decided (gives (name, bytes)) e k later = attempt_audio-key env id user_id text key wav (cc)
    decided (raises timeout_error) e k later = cc
    decided (raises exception) e k later = later k

module _ (deps : AppDeps) (jt : JobTable deps.prisma) (law : RetryLaw deps.effects)
    (user : AuthedUser) (req : SubmitRequest deps) (w w' v : World deps) (reply : Reply Submission)
    (others : ℕ → Shared → Shared) (envs : List Surroundings) (objects : List (JsString × List ℕ))
    (c : ℕ) (cs text : JsString) (n : ℕ) (o : Option Job) where
  abbrev all_done : Shared
  all_done = all_deliveries deps others (c ∷ cs) envs (jt.rows w'.db) objects

  -- With a database that keeps the documented laws of its job table: when a submission was answered by
  -- 202, the queue has made the deliveries of its policy, and the attempts on the text that was submitted
  -- have come to a recording, then its user is served this recording by GET /v1/jobs/:id/audio, with
  -- the bytes that the engine has synthesized, whatever happened to other rows meanwhile; where the
  -- storage hands out what was stored last under the key that it is asked for.
  pub submission_heard :
      (key : JsString) (wav : List ℕ) (object : ObjectOutput) (s3' : deps.s3.S3)
      → submit deps user req w ≡ (ok reply, w')
      → reply.status ≡ 202
      → reply.body.job_id ≡ c ∷ cs
      → validate deps.schemas.submit req.body ≡ ok text
      → length envs ≡ deps.config.tts_job_attempts
      → 1 ≤ deps.config.tts_job_attempts
      → IsElsewhere (c ∷ cs) others
      → KeepsSingle (c ∷ cs) user.id others
      → jt.rows v.db ≡ (others n all_done).jobs
      → deps.prisma.job_find_first (owned (c ∷ cs) user.id) v.db ≡ ok o
      → settle (outcomes (c ∷ cs) user.id text envs) ≡ recorded key wav
      → deps.s3.get_object deps.config.s3_bucket key v.s3 ≡ (sent object, s3')
      → some object.bytes ≡ find_object key all_done.objects
      → (get_audio deps user (some (one (c ∷ cs))) v
          ≡ (ok (recording deps object), record v { s3 = s3' }))
        × (object.bytes ≡ wav)
  submission_heard key wav object s3' h is_202 id parsed long le elsewhere keeps rows found comes
        gets stored =
      let (row, o_is, is_id, shows) =
        found_settled deps jt user req w w' v reply others envs objects c cs text n o h is_202 id
          parsed long le elsewhere keeps rows found in
      let (status, key_is, (rest, objects_are)) = rw comes at shows in
      let named = settle-key (c ∷ cs) user.id text key wav envs comes in
      let fetchable : recording_key deps row.status row.audio_key v ≡ (ok key, v) =
        rw (status, key_is, named) (audio_key-nonempty deps user.id (c ∷ cs) v) in
      (
        served_from deps user v (some (one (c ∷ cs))) row key object s3'
            (found_owned deps user v c cs row (found ∙ ap ok o_is)) fetchable
            (fetched_at_once deps law key v.s3 s3' object gets),
        some_inj (stored ∙ (ap (find_object key) objects_are ∙ newest key wav rest)),
      )
