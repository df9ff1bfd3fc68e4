-- ===== src/Jobs/Read/Audio.antt =====
-- When a recording is served.
use bengali_tts_service.Base.{
  ◌⊎◌, inl, inr, ◌≡◌, refl, sym, ap, ◌∙◌, ◌≢◌, Option, none, some, [], ◌∷◌, arith,
}
use bengali_tts_service.Text.{JsString}
use bengali_tts_service.Errors.{
  Result, ok, thrown, succeed, run_effect, domain, job_failed, job_not_ready,
}
use bengali_tts_service.Errors.Answers.{run_effect_returns}
use bengali_tts_service.Http.{Loose}
use bengali_tts_service.Schema.{Job, JobStatus, queued, active, completed, failed}
use bengali_tts_service.Storage.{get_audio_object}
use bengali_tts_service.Deps.Clients.{ObjectOutput}
use bengali_tts_service.Deps.Action.{AppDeps, World, Act, pure, with_storage, bind-eq-ok, ◌>>=◌}
use bengali_tts_service.Jobs.Shared.{AuthedUser, Reply, find_owned_job}
use bengali_tts_service.Jobs.Read.{Recording, recording, recording_key, present, get_audio}

-- A key is handed out exactly for a completed job with a key that is not empty.
recording_key_iff :
    (deps : AppDeps) (status : JobStatus) (audio_key : Option JsString) (key : JsString)
    (w w' : World deps)
    → recording_key deps status audio_key w ≡ (ok key, w')
    → (status ≡ completed) × (audio_key ≡ some key) × (key ≢ []) × (w' ≡ w)
unfolding recording_key
recording_key_iff deps queued a key w w' h = cc
recording_key_iff deps active a key w w' h = cc
recording_key_iff deps failed a key w w' h = cc
recording_key_iff deps completed none key w w' h = cc
recording_key_iff deps completed (some []) key w w' h = cc
recording_key_iff deps completed (some (c ∷ s)) key w w' h = (refl, cc, (λ e. cc), cc)

-- What a served recording comes from: a completed job that the lookup found, and the object that
-- storage returned for the job's key.
pub record IsServed (deps : AppDeps) (user : AuthedUser) (param : Option Loose) (w : World deps)
    (reply : Reply Recording) : Type 0 where
  pub job : Job
  pub key : JsString
  pub object : ObjectOutput
  pub found : (find_owned_job deps user param w).0 ≡ ok job
  pub is_completed : job.status ≡ completed
  pub has_key : job.audio_key ≡ some key
  pub fetched :
      (get_audio_object deps.s3 deps.effects deps.config.s3_bucket key
        (find_owned_job deps user param w).1.s3).0
      ≡ succeed object
  pub shown : reply ≡ recording deps object
  pub not_empty : key ≢ []

-- A recording is served only for a completed job that the scoped lookup found, with a key that is
-- not empty, and it is the object that storage returned for this key.
pub get_audio_serves :
    (deps : AppDeps) (user : AuthedUser) (param : Option Loose) (w w' : World deps)
    (reply : Reply Recording)
    → get_audio deps user param w ≡ (ok reply, w')
    → IsServed deps user param w reply
unfolding get_audio
get_audio_serves deps user param w w' reply h =
    let find : Act deps Job = find_owned_job deps user param in
    let fetch : JsString → Act deps ObjectOutput =
      λ key. with_storage (get_audio_object deps.s3 deps.effects deps.config.s3_bucket key) in
    let answer : ObjectOutput → Act deps (Reply Recording) =
      λ object. pure (recording deps object) in
    let key_of : Job → Act deps JsString = λ job. recording_key deps job.status job.audio_key in
    let (job, found, h1) =
      bind-eq-ok deps find (λ job. key_of job >>= λ key. fetch key >>= answer) w w' h in
    let w1 : World deps = (find w).1 in
    let (key, keyed, h2) = bind-eq-ok deps (key_of job) (λ key. fetch key >>= answer) w1 w' h1 in
    let w2 : World deps = (key_of job w1).1 in
    let (object, fetched, h3) = bind-eq-ok deps (fetch key) answer w2 w' h2 in
    let (done, has, not_empty, same) =
      recording_key_iff deps job.status job.audio_key key w1 w2
        (ap (λ (r : Result JsString). (r, w2)) keyed) in
    record {
      job = job;
      key = key;
      object = object;
      found = found;
      is_completed = done;
      has_key = has;
      fetched =
          (run_effect_returns
              (get_audio_object deps.s3 deps.effects deps.config.s3_bucket key w1.s3).0 object).0
            (ap
                (λ (v : World deps).
                  run_effect
                    (get_audio_object deps.s3 deps.effects deps.config.s3_bucket key v.s3).0)
                (sym same)
              ∙ fetched);
      shown = pure_inj (recording deps object) reply _ w' h3;
      not_empty = not_empty;
    }
  where
    pure_inj :
        (r s : Reply Recording) (u u' : World deps) → pure {deps = deps} r u ≡ (ok s, u') → s ≡ r
    pure_inj r s u u' e = cc

-- The refusal for a job without a recording.
abbrev refused_key : JobStatus → Result JsString
refused_key failed = thrown (domain job_failed)
refused_key _ = thrown (domain job_not_ready)

abbrev pub refused : JobStatus → Result (Reply Recording)
refused failed = thrown (domain job_failed)
refused _ = thrown (domain job_not_ready)

no_key :
    (deps : AppDeps) (status : JobStatus) (audio_key : Option JsString) (w : World deps)
    → (status ≢ completed) ⊎ (present audio_key ≡ none)
    → recording_key deps status audio_key w ≡ (refused_key status, w)
unfolding recording_key
no_key deps completed audio_key w (inl n) = absurd (n refl)
no_key deps completed audio_key w (inr e) = rw e refl
no_key deps failed audio_key w h = refl
no_key deps queued audio_key w h = refl
no_key deps active audio_key w h = refl

-- Of a job of the caller that the lookup finds, and that is not completed or has no key, or the empty
-- one, no recording is served: a failed job and any other one are refused, each in its way, and
-- nothing changes.
get_audio_refuses :
    (deps : AppDeps) (user : AuthedUser) (param : Option Loose) (w : World deps) (job : Job)
    → find_owned_job deps user param w ≡ (ok job, w)
    → (job.status ≢ completed) ⊎ (present job.audio_key ≡ none)
    → get_audio deps user param w ≡ (refused job.status, w)
unfolding get_audio
get_audio_refuses deps user param w job f h =
    let k = no_key deps job.status job.audio_key w h in ground (arith, k)
