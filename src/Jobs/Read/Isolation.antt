-- ===== src/Jobs/Read/Isolation.antt =====
-- A user sees no job of another user.
use bengali_tts_service.Base.{◌≡◌, sym, ap, ◌∙◌, ◌≢◌, true, Option, none, some, [], ◌∷◌, arith}
use mathlib.Core.List.{Memᴰ}
use bengali_tts_service.Text.{JsString, js}
use bengali_tts_service.Text.Laws.{text_eq_refl, text_eq_sound}
use bengali_tts_service.Errors.{ok, thrown, domain, not_found}
use bengali_tts_service.Http.{Loose, one, several, require_param}
use bengali_tts_service.Schema.{Job}
use bengali_tts_service.Deps.Prisma.{JobTable, JobWhere, anywhere, meets}
use bengali_tts_service.Deps.Action.{AppDeps, World, Act, lift, query, bind-eq-ok, ◌>>=◌}
use bengali_tts_service.Jobs.Shared.{AuthedUser, find_owned_job, found_or_missing}
use bengali_tts_service.Jobs.Read.{get_job, get_audio}

-- The row of one user under one id.
abbrev pub owned : JsString → JsString → JobWhere
owned id user_id = record anywhere { id = some id; user_id = some user_id }

pub owned-meets :
    (id user_id : JsString) (j : Job)
    → meets (owned id user_id) j ≡ true
    → (id ≡ j.id) × (user_id ≡ j.user_id)
owned-meets id user_id j h = ground (arith, text_eq_sound id j.id, text_eq_sound user_id j.user_id)

pub meets-owned :
    (id user_id : JsString) (j : Job)
    → id ≡ j.id
    → user_id ≡ j.user_id
    → meets (owned id user_id) j ≡ true
meets-owned id user_id j e f = rw (e, f) (ground (arith, text_eq_refl j.id, text_eq_refl j.user_id))

require_one :
    (param : Option Loose) (name : JsString) {id : JsString}
    → require_param param name ≡ ok id
    → param ≡ some (one id)
unfolding require_param
require_one none name h = cc
require_one (some (several l)) name h = cc
require_one (some (one [])) name h = cc
require_one (some (one (c ∷ s))) name h = ground arith

module _ (deps : AppDeps) (jt : JobTable deps.prisma) (user : AuthedUser) where
  -- With a database that keeps the documented laws of its job table, the scoped lookup returns
  -- only a row of the table, of the caller, under the id that was asked for, and changes nothing.
  find_owned_job_sound :
      (param : Option Loose) (w w' : World deps) (job : Job)
      → find_owned_job deps user param w ≡ (ok job, w')
      → Memᴰ job (jt.rows w.db) × (job.user_id ≡ user.id) × (param ≡ some (one job.id)) × (w' ≡ w)
  unfolding find_owned_job
  find_owned_job_sound param w w' job h =
      let read : Act deps JsString = lift (require_param param (js "id")) in
      let find : JsString → Act deps (Option Job) =
        λ id. query (deps.prisma.job_find_first (owned id user.id)) in
      let (id, e, h1) = bind-eq-ok deps read (λ id. find id >>= found_or_missing) w w' h in
      let (o, f, h2) = bind-eq-ok deps (find id) found_or_missing w w' h1 in
      let (same, here) = found o w w' job h2 in
      let (listed, meets_it) = jt.find_first_meets (owned id user.id) w.db job (f ∙ ap ok same) in
      let (id_is, owner) = owned-meets id user.id job meets_it in
      (
        listed,
        sym owner,
        require_one param (js "id") e ∙ ap (λ (s : JsString). some (one s)) id_is,
        here,
      )
    where
      found :
          (o : Option Job) (w w' : World deps) (job : Job)
          → found_or_missing {deps = deps} o w ≡ (ok job, w')
          → (o ≡ some job) × (w' ≡ w)
      found none w w' job k = cc
      found (some j) w w' job k = (cc, cc)

  -- Where the caller has no job of the id, the lookup ends in NotFound and changes nothing, whether
  -- or not another user has one.
  hidden :
      (param : Option Loose) (id : JsString) (w : World deps) (o : Option Job)
      → require_param param (js "id") ≡ ok id
      → deps.prisma.job_find_first (owned id user.id) w.db ≡ ok o
      → ((j : Job) → Memᴰ j (jt.rows w.db) → j.id ≡ id → j.user_id ≢ user.id)
      → find_owned_job deps user param w ≡ (thrown (domain not_found), w)
  unfolding find_owned_job
  hidden param id w none e f h = rw (e, f)
  hidden param id w (some j) e f h =
      let (listed, meets_it) = jt.find_first_meets (owned id user.id) w.db j f in
      let (id_is, owner) = owned-meets id user.id j meets_it in
      absurd (h j listed (sym id_is) (sym owner))

  -- With a database that keeps the documented laws of its job table and answers the lookup, the
  -- job and the audio of a well-formed id that the caller has no job of are both answered by the
  -- same NotFound, and nothing changes, whether the id is another user's or nobody's.
  foreign_is_missing :
      (param : Option Loose) (id : JsString) (w : World deps) (o : Option Job)
      → require_param param (js "id") ≡ ok id
      → deps.prisma.job_find_first (owned id user.id) w.db ≡ ok o
      → ((j : Job) → Memᴰ j (jt.rows w.db) → j.id ≡ id → j.user_id ≢ user.id)
      → (get_job deps user param w ≡ (thrown (domain not_found), w))
        × (get_audio deps user param w ≡ (thrown (domain not_found), w))
  unfolding get_job get_audio
  foreign_is_missing param id w o e f h =
      let k = hidden param id w o e f h in (ground (arith, k), ground (arith, k))
