-- ===== src/Metrics/Gauge.antt =====
-- gateway/src/lib/metrics.ts: what the gauge of the jobs by status shows of the table.
use bengali_tts_service.Base.{
  ℕ, ◌+◌, ◌≤◌, ◌≡◌, refl, ap, ◌∙◌, Bool, true, false, ◌||◌, List, [], ◌∷◌, map, arith, All,
  count_if, length, Bool-cases, inl, inr,
}
use bengali_tts_service.Schema.{Job, JobStatus, queued, active, completed, failed, status_eq}
use bengali_tts_service.Metrics.{job_statuses, group_count, jobs_by_status}

abbrev pub has_status : JobStatus → Job → Bool
has_status s job = status_eq job.status s

abbrev pub jobs_of : JobStatus → List Job → ℕ
jobs_of s table = count_if (has_status s) table

abbrev pub is_grouped : JobStatus → List (JobStatus × ℕ) → Bool
is_grouped s [] = false
is_grouped s ((t, n) ∷ rest) = status_eq t s || is_grouped s rest

-- What the database answers to a grouping of the table by status: a group has the number of the jobs
-- of its status, and every status that a job has has a group.
pub record IsGrouping (table : List Job) (groups : List (JobStatus × ℕ)) : Type 0 where
  pub counts : All (λ (s, n). n ≡ jobs_of s table) groups
  pub covers : (s : JobStatus) → 1 ≤ jobs_of s table → is_grouped s groups ≡ true

status_eq_sound : (s t : JobStatus) → status_eq s t ≡ true → s ≡ t
status_eq_sound s t h = ground (arith, h)

group_count_lem :
    (table : List Job) (s : JobStatus) (groups : List (JobStatus × ℕ))
    → All (λ (t, n). n ≡ jobs_of t table) groups
    → (1 ≤ jobs_of s table → is_grouped s groups ≡ true)
    → group_count s groups ≡ jobs_of s table
unfolding group_count
group_count_lem table s [] h c = ground (arith, c)
group_count_lem table s ((t, n) ∷ rest) (e, h) c = elim (Bool-cases (status_eq t s)) [
  | inl same ↦ rw same (e ∙ ap (λ u. jobs_of u table) (status_eq_sound t s same))
  | inr differ ↦ rw differ (group_count_lem table s rest h (λ some_job. rw differ at (c some_job)))
]

one_each :
    (table : List Job)
    → jobs_of queued table + jobs_of active table + jobs_of completed table + jobs_of failed table
      ≡ length table
one_each [] = omega arith
one_each (job ∷ rest) = ground (arith, one_each rest)

abbrev pub sum_samples : List (JobStatus × ℕ) → ℕ
sum_samples [] = 0
sum_samples ((s, n) ∷ rest) = n + sum_samples rest

-- The gauge of the jobs by status shows for each of the four statuses how many jobs of the table have
-- it, a status that no job has included, and in one order whatever the order of the groups; and its
-- samples add up to the number of jobs.
jobs_by_status_exact :
    (table : List Job) (groups : List (JobStatus × ℕ))
    → IsGrouping table groups
    → (jobs_by_status groups ≡ map (λ s. (s, jobs_of s table)) job_statuses)
      × (sum_samples (jobs_by_status groups) ≡ length table)
unfolding jobs_by_status
jobs_by_status_exact table groups g =
    let at : (s : JobStatus) → group_count s groups ≡ jobs_of s table =
      λ s. group_count_lem table s groups g.counts (g.covers s) in
    rw (at queued, at active, at completed, at failed) (refl, omega (arith, one_each table))
