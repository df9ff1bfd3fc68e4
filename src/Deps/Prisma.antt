-- ===== src/Deps/Prisma.antt =====
-- The database client of the gateway: its calls, and what they are documented to do.
use bengali_tts_service.Base.{
  ℕ, ◌≡◌, Bool, true, false, ◌&&◌, ◌||◌, Option, none, some, List, [], ◌∷◌, count_if, ◌≢◌, All,
  if◌then◌else◌,
}
use mathlib.Core.List.{Memᴰ}
use bengali_tts_service.Text.{JsString, text_eq}
use bengali_tts_service.Errors.{Result, ok, thrown, Thrown}
use bengali_tts_service.Schema.{User, Job, JobStatus, status_eq, ApiKey, queued}

-- A `where` of the gateway: each field that is given must agree.
pub record JobWhere : Type 0 where
  pub id : Option JsString
  pub user_id : Option JsString
  pub idempotency_key : Option JsString
  pub status_in : Option (List JobStatus)

abbrev pub anywhere : JobWhere
anywhere = record { id = none; user_id = none; idempotency_key = none; status_in = none }

-- `data` of a creation; the other columns have their defaults.
pub record JobCreate : Type 0 where
  pub user_id : JsString
  pub input_text : JsString
  pub idempotency_key : Option JsString

-- A page of the history: `take`, and the row after which it starts (`cursor`, `skip: 1`).
pub record PageQuery : Type 0 where
  pub user_id : JsString
  pub count : ℕ
  pub cursor : Option JsString

pub record Prisma : Type 1 where
  pub Db : Type 0
  pub job_find_first : JobWhere → Db → Result (Option Job)
  pub job_find_unique : JsString → Db → Result (Option Job)
  pub job_find_many : PageQuery → Db → Result (List Job)
  pub job_count : JobWhere → Db → Result ℕ
  pub job_create : JobCreate → Db → Result Job × Db
  pub job_delete : JsString → Db → Result (Unit {0}) × Db
  -- `pg_advisory_xact_lock(hashtext(id))`, once the lock is held.
  pub advisory_lock : JsString → Db → Result (Unit {0}) × Db
  -- The end of a transaction: a rollback is given the state at its beginning too.
  pub commit : Db → Result (Unit {0}) × Db
  pub rollback : Db → Db → Db
  pub user_find_unique : JsString → Db → Result (Option User)
  pub user_create : JsString → JsString → Db → Result User × Db
  pub api_key_find_unique : JsString → Db → Result (Option (ApiKey × User))
  pub api_key_create : JsString → JsString → JsString → Db → Result ApiKey × Db
  pub api_key_find_many : JsString → Db → Result (List ApiKey)
  -- Revoking: the id and the owner of the keys that are not revoked; the answer is a count.
  pub api_key_revoke_many : JsString → JsString → Db → Result ℕ × Db
  pub api_key_touch : JsString → Db → Db

-- Whether a row meets a `where`.
abbrev agrees : Option JsString → JsString → Bool
agrees none s = true
agrees (some t) s = text_eq t s

abbrev agrees_opt : Option JsString → Option JsString → Bool
agrees_opt none s = true
agrees_opt (some t) none = false
agrees_opt (some t) (some s) = text_eq t s

abbrev among : JobStatus → List JobStatus → Bool
among s [] = false
among s (t ∷ ts) = status_eq s t || among s ts

abbrev status_agrees : Option (List JobStatus) → JobStatus → Bool
status_agrees none s = true
status_agrees (some l) s = among s l

abbrev pub meets : JobWhere → Job → Bool
meets w j =
    agrees w.id j.id
    && agrees w.user_id j.user_id
    && agrees_opt w.idempotency_key j.idempotency_key
    && status_agrees w.status_in j.status

-- The rows that do not have an id.
unfoldable pub without : JsString → List Job → List Job
without id [] = []
without id (j ∷ l) = if text_eq id j.id then without id l else j ∷ without id l

-- The documented behaviour of the calls on jobs, over the rows of the table.
pub record JobTable (p : Prisma) : Type 0 where
  pub rows : p.Db → List Job
  pub find_first_meets :
      (w : JobWhere) (d : p.Db) (j : Job)
      → p.job_find_first w d ≡ ok (some j)
      → Memᴰ j (rows d) × (meets w j ≡ true)
  pub find_first_none :
      (w : JobWhere) (d : p.Db) (j : Job)
      → p.job_find_first w d ≡ ok none
      → Memᴰ j (rows d)
      → meets w j ≡ false
  pub count_lem :
      (w : JobWhere) (d : p.Db) (n : ℕ) → p.job_count w d ≡ ok n → n ≡ count_if (meets w) (rows d)
  pub create_lem :
      (c : JobCreate) (d d' : p.Db) (j : Job)
      → p.job_create c d ≡ (ok j, d')
      → (rows d' ≡ j ∷ rows d)
        × (j.user_id ≡ c.user_id)
        × (j.input_text ≡ c.input_text)
        × (j.idempotency_key ≡ c.idempotency_key)
        × (j.status ≡ queued)
        × All (λ other. j.id ≢ other.id) (rows d)
  pub create_thrown :
      (c : JobCreate) (d d' : p.Db) (t : Thrown)
      → p.job_create c d ≡ (thrown t, d')
      → rows d' ≡ rows d
  pub delete_lem :
      (id : JsString) (d d' : p.Db)
      → p.job_delete id d ≡ (ok tt, d')
      → rows d' ≡ without id (rows d)
  pub delete_thrown :
      (id : JsString) (d d' : p.Db) (t : Thrown)
      → p.job_delete id d ≡ (thrown t, d')
      → rows d' ≡ rows d
  pub lock_rows : (u : JsString) (d : p.Db) → rows (p.advisory_lock u d).1 ≡ rows d
  pub commit_rows : (d : p.Db) → (p.commit d).0 ≡ ok tt → rows (p.commit d).1 ≡ rows d
  pub rollback_rows : (before after : p.Db) → rows (p.rollback before after) ≡ rows before
