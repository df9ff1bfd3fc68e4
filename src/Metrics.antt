-- ===== src/Metrics.antt =====
-- gateway/src/lib/metrics.ts: the gauge of the jobs by status, and the histogram of durations.
pub mod Scrapes
pub mod Gauge
use bengali_tts_service.Base.{
  ℕ, Bool, true, false, ◌&&◌, Option, none, some, List, [], ◌∷◌, map, ltb, if◌then◌else◌,
}
use bengali_tts_service.Base.Int.{ℤ, sub_ℕ}
use bengali_tts_service.Queue.{queue_depth}
use bengali_tts_service.Deps.Action.{AppDeps, Act, with_queue}
use bengali_tts_service.Schema.{Job, JobStatus, queued, active, completed, failed, status_eq}

abbrev pub job_statuses : List JobStatus
job_statuses = queued ∷ active ∷ completed ∷ failed ∷ []

-- `rows.find((r) => r.status === status)?._count._all ?? 0`
unfoldable pub group_count : JobStatus → List (JobStatus × ℕ) → ℕ
group_count status [] = 0
group_count status ((s, n) ∷ rest) = if status_eq s status then n else group_count status rest

-- The samples of `tts_jobs_by_status`, one for each status, from the groups that the database has.
unfoldable pub jobs_by_status : List (JobStatus × ℕ) → List (JobStatus × ℕ)
jobs_by_status groups = map (λ status. (status, group_count status groups)) job_statuses

-- An observation: the label, and the milliseconds, which a clock that goes back makes negative.
pub record Observation : Type 0 where
  pub status : JobStatus
  pub duration_ms : ℤ

-- The histogram's own state, and what it has observed, newest first.
pub record Durations : Type 0 where
  pub observed_up_to : ℕ
  pub observed : List Observation

-- `where: { completedAt: { gt: observedUpTo }, startedAt: { not: null } }`
abbrev pub is_new : ℕ → Job → Bool
is_new up_to job = elim job.completed_at [
  | none ↦ false
  | some t ↦ ltb up_to t && elim job.started_at [ none ↦ false | some s ↦ true ]
]

abbrev pub later : ℕ → ℕ → ℕ
later up_to t = if ltb up_to t then t else up_to

-- One turn of the loop.
unfoldable pub observe : Durations → Job → Durations
observe d row = elim row.started_at [
  | none ↦ d
  | some s ↦ elim row.completed_at [
    | none ↦ d
    | some t ↦ record {
      observed_up_to = later d.observed_up_to t;
      observed = record { status = row.status; duration_ms = sub_ℕ t s } ∷ d.observed;
    }
  ]
]

-- The loop over the rows of the table that the query selects: those that were new when it began.
unfoldable pub observe_new : ℕ → Durations → List Job → Durations
observe_new began d [] = d
observe_new began d (row ∷ rows) =
    observe_new began (if is_new began row then observe d row else d) rows

-- One scrape.
unfoldable pub collect : List Job → Durations → Durations
collect table d = observe_new d.observed_up_to d table

-- The gauge `tts_queue_depth`: a failure of the read is a throw of the collection.
unfoldable pub collect_depth : (deps : AppDeps) → Act deps ℕ
collect_depth deps = with_queue (queue_depth deps.queue deps.effects)
