-- ===== src/Jobs/History.antt =====
-- GET /v1/jobs: a page of the caller's jobs, newest first.
pub mod Cursor
pub mod Walk
pub mod Moving
use bengali_tts_service.Base.{
  ℕ, suc, ◌+◌, Option, none, some, List, [], ◌∷◌, map, ltb, if◌then◌else◌, length, take,
}
use bengali_tts_service.Text.{JsString}
use bengali_tts_service.Http.{validate}
use bengali_tts_service.Schema.{Job}
use bengali_tts_service.Deps.Clients.{HistoryQuery}
use bengali_tts_service.Deps.Action.{AppDeps, Act, pure, lift, query, ◌>>=◌}
use bengali_tts_service.Jobs.Shared.{AuthedUser, Reply, JobView, serialize_job}

pub record Page : Type 0 where
  pub jobs : List JobView
  pub next_cursor : Option JsString

-- `page.at(-1)?.id ?? null`
unfoldable pub last_id : List Job → Option JsString
last_id [] = none
last_id (job ∷ []) = some job.id
last_id (job ∷ next ∷ rest) = last_id (next ∷ rest)

-- The page made of the rows read, one more than the page may hold.
unfoldable pub page_of : ℕ → List Job → Page
page_of limit rows =
    let page = take limit rows in
    record {
      jobs = map serialize_job page;
      next_cursor = if ltb limit (length rows) then last_id page else none;
    }

module _ (deps : AppDeps) where
  unfoldable pub history_page : AuthedUser → HistoryQuery → Act deps (Reply Page)
  history_page user q = do
    rows ← query (
        deps.prisma.job_find_many
          (record { user_id = user.id; count = q.limit + 1; cursor = q.cursor }))
    pure (record { status = 200; body = page_of q.limit rows })

  unfoldable pub list_jobs : AuthedUser → deps.schemas.Query → Act deps (Reply Page)
  list_jobs user params = do q ← lift (validate deps.schemas.history params); history_page user q
