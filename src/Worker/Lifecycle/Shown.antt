-- ===== src/Worker/Lifecycle/Shown.antt =====
-- What the gateway shows of a job that was accepted and has had all its deliveries.
use bengali_tts_service.Base.{
  ℕ, ◌≤◌, ◌≡◌, refl, sym, ap, ◌∙◌, true, false, Option, none, some, List, ◌∷◌, ◌++◌, length,
}
use mathlib.Core.List.{Memᴰ}
use mathlib.Core.Option.{get_or}
use bengali_tts_service.Text.{JsString, js}
use bengali_tts_service.Text.Laws.{text_eq_refl}
use bengali_tts_service.Errors.{ok}
use bengali_tts_service.Http.{one, validate}
use bengali_tts_service.Schema.{Job, completed, failed, queued}
use bengali_tts_service.Deps.Prisma.{JobTable}
use bengali_tts_service.Deps.Action.{AppDeps, World, pure, bind-ok}
use bengali_tts_service.Jobs.Shared.{
  AuthedUser, Reply, Submission, JobView, serialize_job, submission_body, find_owned_job,
}
use bengali_tts_service.Jobs.Read.{get_job}
use bengali_tts_service.Jobs.Read.Isolation.{owned, meets-owned, owned-meets}
use bengali_tts_service.Jobs.Submit.{SubmitRequest, submit}
use bengali_tts_service.Jobs.Submit.Admission.{submit_accepts}
use bengali_tts_service.Worker.{is_open}
use bengali_tts_service.Worker.Processor.{Surroundings, Shared, fetch_job}
use bengali_tts_service.Worker.Processor.Settling.{
  deliver, IsElsewhere, Outcome, recorded, gave_up, settle, outcomes, Shows, deliver_settles,
}
use bengali_tts_service.Worker.Processor.Served.{found_owned}
use bengali_tts_service.Worker.Lifecycle.Single.{
  IsSingle, IsSingle-new, KeepsSingle, deliver-IsSingle, fetch_job_sound,
}

-- The JSON of a job, by its outcome.
abbrev pub ShownAs : JsString → Outcome → JobView → Type 0
ShownAs id (recorded key wav) view =
    (view.status ≡ completed)
    × (view.audio_url ≡ some (js "/v1/jobs/" ++ (id ++ js "/audio")))
    × (view.error ≡ none)
ShownAs id (gave_up code) view =
    (view.status ≡ failed)
    × (view.audio_url ≡ none)
    × ((message : JsString) × (view.error ≡ some (record { code = code; message = message })))

serialize_job-ShownAs :
    (id : JsString) (outcome : Outcome) (row : Job) (s : Shared)
    → row.id ≡ id
    → Shows outcome row s
    → ShownAs id outcome (serialize_job row)
unfolding serialize_job
serialize_job-ShownAs id (recorded key wav) row s e (status, k, stored) =
    (status, rw (status, e) refl, rw status refl)
serialize_job-ShownAs id (gave_up code) row s e (status, why) =
    (status, rw status refl, (get_or row.error_message (js "Job failed"), rw (status, why) refl))

true-ne-false : ¬ (true ≡ false)
true-ne-false e = cc

-- The scoped lookup finds the single row of an id.
find_single :
    (deps : AppDeps) (jt : JobTable deps.prisma) (user : AuthedUser) (d : deps.prisma.Db)
    (id : JsString) (row : Job) (o : Option Job)
    → IsSingle id user.id (jt.rows d)
    → Memᴰ row (jt.rows d)
    → row.id ≡ id
    → deps.prisma.job_find_first (owned id user.id) d ≡ ok o
    → o ≡ some row
find_single deps jt user d id row none single listed is_id found =
    let mine = sym (single.owner row listed is_id) in
    absurd (
      true-ne-false (
        sym (meets-owned id user.id row (sym is_id) mine)
        ∙ jt.find_first_none (owned id user.id) d row found listed))
find_single deps jt user d id row (some j) single listed is_id found =
    let (there, m) = jt.find_first_meets (owned id user.id) d j found in
    let (e, _) = owned-meets id user.id j m in
    ap some (single.same j row there listed (sym e) is_id)

opened :
    (id : JsString) (job : Job) (l : List Job) → job.id ≡ id → fetch_job id (job ∷ l) ≡ some job
unfolding fetch_job
opened id job l e = rw (e, text_eq_refl id) refl

ok_inj : {A : Type 0} {a b : A} → ok a ≡ ok b → a ≡ b
ok_inj e = cc

is_open-queued : (job : Job) → job.status ≡ queued → is_open job.status ≡ true
is_open-queued job e = rw e refl

-- The table and the objects after the deliveries of a job that the policy has.
abbrev pub all_deliveries :
    AppDeps
    → (ℕ → Shared → Shared)
    → JsString
    → List Surroundings
    → List Job
    → List (JsString × List ℕ)
    → Shared
all_deliveries deps others id envs jobs objects =
    deliver others id 0 deps.config.tts_job_attempts envs
      (record { jobs = jobs; objects = objects })

module _ (deps : AppDeps) (jt : JobTable deps.prisma) (user : AuthedUser) (req : SubmitRequest deps)
    (w w' v : World deps) (reply : Reply Submission) (others : ℕ → Shared → Shared)
    (envs : List Surroundings) (objects : List (JsString × List ℕ)) (c : ℕ) (cs text : JsString)
    (n : ℕ) (o : Option Job) where
  abbrev settled : Shared
  settled = all_deliveries deps others (c ∷ cs) envs (jt.rows w'.db) objects

  abbrev outcome : Outcome
  outcome = settle (outcomes (c ∷ cs) user.id text envs)

  -- The row that the scoped lookup then finds.
  pub found_settled :
      submit deps user req w ≡ (ok reply, w')
      → reply.status ≡ 202
      → reply.body.job_id ≡ c ∷ cs
      → validate deps.schemas.submit req.body ≡ ok text
      → length envs ≡ deps.config.tts_job_attempts
      → 1 ≤ deps.config.tts_job_attempts
      → IsElsewhere (c ∷ cs) others
      → KeepsSingle (c ∷ cs) user.id others
      → jt.rows v.db ≡ (others n settled).jobs
      → deps.prisma.job_find_first (owned (c ∷ cs) user.id) v.db ≡ ok o
      → (row : Job) × (o ≡ some row) × (row.id ≡ c ∷ cs) × Shows outcome row settled
  unfolding submission_body
  found_settled h is_202 id parsed long le elsewhere keeps rows found =
      let a = submit_accepts deps jt user req w w' reply h is_202 in
      let job_id : a.job.id ≡ c ∷ cs =
        sym (ap (λ (r : Reply Submission). r.body.job_id) a.shown) ∙ id in
      let text_is : a.job.input_text ≡ text = a.admitted.input ∙ ok_inj (sym a.parsed ∙ parsed) in
      let start : Shared = record { jobs = jt.rows w'.db; objects = objects } in
      let there : fetch_job (c ∷ cs) start.jobs ≡ some a.job =
        rw a.admitted.row (opened (c ∷ cs) a.job (jt.rows w.db) job_id) in
      let single : IsSingle (c ∷ cs) user.id start.jobs = rw a.admitted.row (
        IsSingle-new (c ∷ cs) user.id a.job (jt.rows w.db) job_id a.admitted.owner
          a.admitted.new_id) in
      let (row, stays, shows) =
        deliver_settles (c ∷ cs) deps.config.tts_job_attempts others elsewhere envs start a.job
          there (is_open-queued a.job a.admitted.fresh) long le in
      let (listed, is_id) =
        fetch_job_sound (c ∷ cs) (others n settled).jobs row (elsewhere n settled ∙ stays) in
      let after = keeps n settled (
        deliver-IsSingle others (c ∷ cs) user.id 0 deps.config.tts_job_attempts envs start keeps
          single) in
      (
        row,
        find_single deps jt user v.db (c ∷ cs) row o (rw rows after) (rw rows listed) is_id found,
        is_id,
        rw (a.admitted.owner, text_is) at shows,
      )

  -- With a database that keeps the documented laws of its job table: when a submission was answered by
  -- 202 and the queue has made the deliveries of its policy, its user is shown the job by
  -- GET /v1/jobs/:id as completed, with the address of its recording, or as failed, with the code; and
  -- which of them is the outcome of the attempts on the text that was submitted, whatever happened to
  -- other rows before, between and after the deliveries, the id remaining the job's alone. The request
  -- changes nothing.
  pub submission_settles :
      submit deps user req w ≡ (ok reply, w')
      → reply.status ≡ 202
      → reply.body.job_id ≡ c ∷ cs
      → validate deps.schemas.submit req.body ≡ ok text
      → length envs ≡ deps.config.tts_job_attempts
      → 1 ≤ deps.config.tts_job_attempts
      → IsElsewhere (c ∷ cs) others
      → KeepsSingle (c ∷ cs) user.id others
      → jt.rows v.db ≡ (others n settled).jobs
      → deps.prisma.job_find_first (owned (c ∷ cs) user.id) v.db ≡ ok o
      → (view : JobView) × (get_job deps user (some (one (c ∷ cs))) v
          ≡ (ok (record { status = 200; body = view }), v))
        × (view.id ≡ c ∷ cs)
        × ShownAs (c ∷ cs) outcome view
  unfolding get_job serialize_job
  submission_settles h is_202 id parsed long le elsewhere keeps rows found =
      let (row, o_is, is_id, shows) =
        found_settled h is_202 id parsed long le elsewhere keeps rows found in
      (
        serialize_job row,
        bind-ok deps (find_owned_job deps user (some (one (c ∷ cs))))
            (λ job. pure (record { status = 200; body = serialize_job job })) v v
            (found_owned deps user v c cs row (found ∙ ap ok o_is)),
        is_id,
        serialize_job-ShownAs (c ∷ cs) outcome row settled is_id shows,
      )
