-- ===== src/Worker/Processor/Served.antt =====
-- worker/src/worker/processor.py and gateway/src/routes/jobs.ts together: the recording that a worker
-- has uploaded is the one that the gateway serves.
use bengali_tts_service.Base.{
  ℕ, ◌≡◌, refl, ap, ◌∙◌, ◌⊎◌, inl, inr, true, Option, none, some, arith, List, [], ◌∷◌,
  if◌then◌else◌,
}
use bengali_tts_service.Text.{JsString, js, text_eq}
use bengali_tts_service.Text.Laws.{text_eq_refl}
use bengali_tts_service.Errors.{ok, succeed, run_effect}
use bengali_tts_service.Http.{Loose, one, require_param}
use bengali_tts_service.Schema.{Job, completed}
use bengali_tts_service.Storage.{get_audio_object, get_once}
use bengali_tts_service.Deps.Prisma.{anywhere}
use bengali_tts_service.Deps.Clients.{ObjectOutput, sent}
use bengali_tts_service.Deps.Retry.{RetryLaw}
use bengali_tts_service.Deps.Action.{AppDeps, World, Act, pure, with_storage, bind-ok, ◌>>=◌}
use bengali_tts_service.Jobs.Shared.{AuthedUser, Reply, find_owned_job}
use bengali_tts_service.Jobs.Read.{Recording, recording, recording_key, get_audio}
use bengali_tts_service.Worker.{is_open, set, write, mark_active, mark_completed}
use bengali_tts_service.Worker.Processor.{
  Surroundings, Shared, Raised, Tried, gives, raises, audio_key, uploaded, attempt_audio, fetch_job,
  process, conclude,
}
use bengali_tts_service.Worker.Processor.Rows.{fetch_job-write}

Tried-cases :
    {A : Type 0} (r : Tried A) → ((a : A) × (r ≡ gives a)) ⊎ ((x : Raised) × (r ≡ raises x))
Tried-cases (gives a) = inl (a, refl)
Tried-cases (raises x) = inr (x, refl)

raises-ne-gives : {A : Type 0} (x : Raised) (a : A) → ¬ (raises x ≡ gives a)
raises-ne-gives x a h = cc

uploaded-key :
    (name key : JsString) (wav bytes : List ℕ) (r : Tried (Unit {0}))
    → uploaded name bytes r ≡ gives (key, wav)
    → key ≡ name
unfolding uploaded
uploaded-key name key wav bytes (gives u) h = cc
uploaded-key name key wav bytes (raises x) h = cc

-- The key of what was uploaded is the one of the owner and the job.
pub attempt_audio-key :
    (env : Surroundings) (id user_id text key : JsString) (wav : List ℕ)
    → attempt_audio env id user_id text ≡ gives (key, wav)
    → key ≡ audio_key user_id id
unfolding attempt_audio
attempt_audio-key env id user_id text key wav h = elim (Tried-cases (env.synthesize text)) [
  | inl (bytes, e) ↦
      uploaded-key (audio_key user_id id) key wav bytes (env.upload (audio_key user_id id) bytes)
        (rw (attempt_audio, e) at h)
  | inr (x, e) ↦ absurd (raises-ne-gives x (key, wav) (rw (attempt_audio, e) at h))
]

pub audio_key-nonempty :
    (deps : AppDeps) (user_id id : JsString) (w : World deps)
    → recording_key deps completed (some (audio_key user_id id)) w ≡ (ok (audio_key user_id id), w)
unfolding recording_key audio_key js
audio_key-nonempty deps user_id id w = refl

-- A first attempt that succeeds ends the retries.
pub fetched_at_once :
    (deps : AppDeps) (law : RetryLaw deps.effects) (key : JsString) (s s' : deps.s3.S3)
    (object : ObjectOutput)
    → deps.s3.get_object deps.config.s3_bucket key s ≡ (sent object, s')
    → get_audio_object deps.s3 deps.effects deps.config.s3_bucket key s ≡ (succeed object, s')
unfolding get_audio_object get_once
fetched_at_once deps law key s s' object h =
    law.retry_lem deps.s3.S3 ObjectOutput _ 2 (get_once deps.s3 deps.config.s3_bucket key) s
    ∙ rw h refl

module _ (deps : AppDeps) (user : AuthedUser) (w : World deps) where
  pub found_owned :
      (c : ℕ) (cs : JsString) (job : Job)
      → deps.prisma.job_find_first
          (record anywhere { id = some (c ∷ cs); user_id = some user.id })
          w.db
        ≡ ok (some job)
      → find_owned_job deps user (some (one (c ∷ cs))) w ≡ (ok job, w)
  unfolding find_owned_job require_param
  found_owned c cs job h = ground (arith, h)

  pub served_from :
      (param : Option Loose) (job : Job) (key : JsString) (object : ObjectOutput) (s' : deps.s3.S3)
      → find_owned_job deps user param w ≡ (ok job, w)
      → recording_key deps job.status job.audio_key w ≡ (ok key, w)
      → get_audio_object deps.s3 deps.effects deps.config.s3_bucket key w.s3 ≡ (succeed object, s')
      → get_audio deps user param w ≡ (ok (recording deps object), record w { s3 = s' })
  unfolding get_audio run_effect
  served_from param job key object s' f k g =
      let fetch : JsString → Act deps ObjectOutput =
        λ name. with_storage (get_audio_object deps.s3 deps.effects deps.config.s3_bucket name) in
      let answer : ObjectOutput → Act deps (Reply Recording) = λ o. pure (recording deps o) in
      bind-ok deps (find_owned_job deps user param)
        (λ j. recording_key deps j.status j.audio_key >>= λ name. fetch name >>= answer) w w f
      ∙ (bind-ok deps (recording_key deps job.status job.audio_key) (λ name. fetch name >>= answer)
            w w k
          ∙ bind-ok deps (fetch key) answer w (record w { s3 = s' })
              (ap (λ (x, v). (run_effect x, record w { s3 = v })) g))

-- The row after a delivery whose attempt succeeded.
completed_row :
    (env : Surroundings) (id : JsString) (made attempts : ℕ) (s : Shared) (row : Job)
    (key : JsString) (wav : List ℕ)
    → fetch_job id s.jobs ≡ some row
    → is_open row.status ≡ true
    → attempt_audio env id row.user_id row.input_text ≡ gives (key, wav)
    → let after = (process env id made attempts s).1 in
      (fetch_job id after.jobs
        ≡ some (set (mark_completed key env.ended_at) (set (mark_active env.active_at) row)))
      × (after.objects ≡ (key, wav) ∷ s.objects)
unfolding process conclude set
completed_row env id made attempts s row key wav h o e =
    rw (process, process, h, o, e)
      (
        fetch_job-write id (mark_completed key env.ended_at)
            (write id (mark_active env.active_at) s.jobs) (set (mark_active env.active_at) row)
            (fetch_job-write id (mark_active env.active_at) s.jobs row h o) refl,
        refl,
      )

-- What is stored under a key: the object that was uploaded last.
abbrev pub find_object : JsString → List (JsString × List ℕ) → Option (List ℕ)
find_object key [] = none
find_object key ((name, bytes) ∷ rest) =
    let older = find_object key rest in if text_eq key name then some bytes else older

some_inj : {A : Type 0} {a b : A} → some a ≡ some b → a ≡ b
some_inj h = cc

pub newest :
    (key : JsString) (wav : List ℕ) (objects : List (JsString × List ℕ))
    → find_object key ((key, wav) ∷ objects) ≡ some wav
newest key wav objects = rw (text_eq_refl key) refl

-- After a delivery whose attempt succeeded, a gateway that reads the row as the delivery has left it,
-- for the user who asks, and whose storage hands out what was stored last under the key that it is
-- asked for, answers with the recording: its bytes are those that the engine has synthesized, and
-- nothing but the state of the storage client has changed.
process-served :
    (env : Surroundings) (c : ℕ) (cs : JsString) (made attempts : ℕ) (s : Shared) (row : Job)
    (key : JsString) (wav : List ℕ) (deps : AppDeps) (law : RetryLaw deps.effects)
    (user : AuthedUser) (w : World deps) (s3' : deps.s3.S3) (object : ObjectOutput)
    → fetch_job (c ∷ cs) s.jobs ≡ some row
    → is_open row.status ≡ true
    → attempt_audio env (c ∷ cs) row.user_id row.input_text ≡ gives (key, wav)
    → deps.prisma.job_find_first
        (record anywhere { id = some (c ∷ cs); user_id = some user.id })
        w.db
      ≡ ok (fetch_job (c ∷ cs) (process env (c ∷ cs) made attempts s).1.jobs)
    → deps.s3.get_object deps.config.s3_bucket key w.s3 ≡ (sent object, s3')
    → some object.bytes ≡ find_object key (process env (c ∷ cs) made attempts s).1.objects
    → (get_audio deps user (some (one (c ∷ cs))) w
        ≡ (ok (recording deps object), record w { s3 = s3' }))
      × ((recording deps object).body.bytes ≡ wav)
unfolding set
process-served env c cs made attempts s row key wav deps law user w s3' object h o e reads gets
      same =
    let (after, stored) = completed_row env (c ∷ cs) made attempts s row key wav h o e in
    let job = set (mark_completed key env.ended_at) (set (mark_active env.active_at) row) in
    let named = attempt_audio-key env (c ∷ cs) row.user_id row.input_text key wav e in
    (
      served_from deps user w (some (one (c ∷ cs))) job key object s3'
          (found_owned deps user w c cs job (reads ∙ ap ok after))
          (rw named (audio_key-nonempty deps row.user_id (c ∷ cs) w))
          (fetched_at_once deps law key w.s3 s3' object gets),
      some_inj (same ∙ (ap (find_object key) stored ∙ newest key wav s.objects)),
    )
