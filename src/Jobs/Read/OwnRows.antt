-- ===== src/Jobs/Read/OwnRows.antt =====
-- What a user is shown of a job depends on the user's own rows only.
use mathlib.Core.List.{Memᴰ}
use bengali_tts_service.Base.{◌≡◌, refl, sym, ap, ◌∙◌, true, false, Option, none, some, ◌↔◌, arith}
use bengali_tts_service.Text.{JsString, js}
use bengali_tts_service.Errors.{Result, ok, thrown, domain, not_found}
use bengali_tts_service.Http.{Loose, require_param}
use bengali_tts_service.Schema.{Job}
use bengali_tts_service.Deps.Prisma.{JobTable}
use bengali_tts_service.Deps.Action.{AppDeps, World, Act, pure, continue, with_storage, ◌>>=◌}
use bengali_tts_service.Storage.{get_audio_object}
use bengali_tts_service.Jobs.Shared.{AuthedUser, Reply, serialize_job, find_owned_job}
use bengali_tts_service.Jobs.Read.{Recording, recording, recording_key, get_job, get_audio}
use bengali_tts_service.Jobs.Read.Isolation.{owned, owned-meets}
use bengali_tts_service.Jobs.Stream.{open_stream, watch_job}

module _ (deps : AppDeps) (jt : JobTable deps.prisma) (user : AuthedUser) where
  -- The primary key: no two rows have one id.
  abbrev pub HasKey : deps.prisma.Db → Type 0
  HasKey d = (j k : Job) → Memᴰ j (jt.rows d) → Memᴰ k (jt.rows d) → j.id ≡ k.id → j ≡ k

  -- Two tables hold the same rows of the user.
  abbrev pub SameOwn : deps.prisma.Db → deps.prisma.Db → Type 0
  SameOwn d e = (j : Job) → j.user_id ≡ user.id → Memᴰ j (jt.rows d) ↔ Memᴰ j (jt.rows e)

  true-ne-false : ¬ (true ≡ false)
  true-ne-false h = cc

  -- A row that one lookup finds, the other does not miss.
  not_missed :
      (id : JsString) (d e : deps.prisma.Db) (j : Job)
      → ((k : Job) → k.user_id ≡ user.id → Memᴰ k (jt.rows d) → Memᴰ k (jt.rows e))
      → deps.prisma.job_find_first (owned id user.id) d ≡ ok (some j)
      → ¬ (deps.prisma.job_find_first (owned id user.id) e ≡ ok none)
  not_missed id d e j own f g =
      let (listed, m) = jt.find_first_meets (owned id user.id) d j f in
      let (_, owner) = owned-meets id user.id j m in
      true-ne-false (sym m ∙ jt.find_first_none (owned id user.id) e j g (own j (sym owner) listed))

  -- The scoped lookup finds the same in both tables.
  same_found :
      (id : JsString) (d e : deps.prisma.Db) (o p : Option Job)
      → HasKey e
      → SameOwn d e
      → deps.prisma.job_find_first (owned id user.id) d ≡ ok o
      → deps.prisma.job_find_first (owned id user.id) e ≡ ok p
      → o ≡ p
  same_found id d e none none unique own f g = refl
  same_found id d e (some j) none unique own f g =
      absurd (not_missed id d e j (λ k mine m. (own k mine).0 m) f g)
  same_found id d e none (some k) unique own f g =
      absurd (not_missed id e d k (λ j mine m. (own j mine).1 m) g f)
  same_found id d e (some j) (some k) unique own f g =
      let (j_in, mj) = jt.find_first_meets (owned id user.id) d j f in
      let (k_in, mk) = jt.find_first_meets (owned id user.id) e k g in
      let (j_id, owner) = owned-meets id user.id j mj in
      let (k_id, _) = owned-meets id user.id k mk in
      ap some (unique j k ((own j (sym owner)).0 j_in) k_in (sym j_id ∙ k_id))

  -- What the lookup ends with, by the row that was found.
  abbrev lookup_result : Option Job → Result Job
  lookup_result none = thrown (domain not_found)
  lookup_result (some job) = ok job

  looked_up :
      (param : Option Loose) (id : JsString) (w : World deps) (o : Option Job)
      → require_param param (js "id") ≡ ok id
      → deps.prisma.job_find_first (owned id user.id) w.db ≡ ok o
      → find_owned_job deps user param w ≡ (lookup_result o, w)
  unfolding find_owned_job
  looked_up param id w none e f = rw (e, f) refl
  looked_up param id w (some job) e f = rw (e, f) refl

  -- What follows a lookup.
  after_lookup :
      {B : Type 0} (f : Job → Act deps B) (o : Option Job) (v w : World deps)
      → ((job : Job) → (f job v).0 ≡ (f job w).0)
      → (continue f (lookup_result o, v)).0 ≡ (continue f (lookup_result o, w)).0
  after_lookup f none v w h = refl
  after_lookup f (some job) v w h = h job

  fetches : (job : Job) → Act deps (Reply Recording)
  fetches job = recording_key deps job.status job.audio_key >>= λ key.
      with_storage (get_audio_object deps.s3 deps.effects deps.config.s3_bucket key) >>= λ object.
      pure (recording deps object)

  fetches-agrees :
      (job : Job) (v w : World deps) → v.s3 ≡ w.s3 → (fetches job v).0 ≡ (fetches job w).0
  unfolding fetches recording_key
  fetches-agrees job v w h = ground (arith, h)

  same_answer :
      {B : Type 0} (f : Job → Act deps B) (param : Option Loose) (id : JsString) (v w : World deps)
      (o : Option Job)
      → find_owned_job deps user param v ≡ (lookup_result o, v)
      → find_owned_job deps user param w ≡ (lookup_result o, w)
      → ((job : Job) → (f job v).0 ≡ (f job w).0)
      → ((find_owned_job deps user param >>= f) v).0 ≡ ((find_owned_job deps user param >>= f) w).0
  same_answer f param id v w o e k h =
      ap (λ r. (continue f r).0) e ∙ (after_lookup f o v w h ∙ sym (ap (λ r. (continue f r).0) k))

  -- With a database that keeps the documented laws of its job table: where two tables hold the same
  -- rows of the caller, ids are unique in the second, and both answer the lookup, a request for the
  -- job, for its audio or for its event stream is answered alike over either of them, the storage
  -- being in the same state; whatever other users have.
  pub reads_own_rows :
      (param : Option Loose) (id : JsString) (v w : World deps) (o p : Option Job)
      → require_param param (js "id") ≡ ok id
      → SameOwn v.db w.db
      → HasKey w.db
      → v.s3 ≡ w.s3
      → deps.prisma.job_find_first (owned id user.id) v.db ≡ ok o
      → deps.prisma.job_find_first (owned id user.id) w.db ≡ ok p
      → ((get_job deps user param v).0 ≡ (get_job deps user param w).0)
        × ((get_audio deps user param v).0 ≡ (get_audio deps user param w).0)
        × ((watch_job deps user param v).0 ≡ (watch_job deps user param w).0)
  unfolding get_job get_audio watch_job fetches
  reads_own_rows param id v w o p e own unique s3 f g =
      let same = same_found id v.db w.db o p unique own f g in
      let here = looked_up param id v o e f in
      let there = looked_up param id w o e (g ∙ ap ok (sym same)) in
      (
        same_answer (λ job. pure (record { status = 200; body = serialize_job job })) param id v w o
            here there (λ job. refl),
        same_answer fetches param id v w o here there (λ job. fetches-agrees job v w s3),
        same_answer (λ job. pure (open_stream job)) param id v w o here there (λ job. refl),
      )
