-- ===== src/Worker/Processor/Settling.antt =====
-- worker/src/worker/processor.py under the queue's redelivery, which gives a job that raised to a
-- worker again until it has been delivered as often as its policy says.
use bengali_tts_service.Base.{
  ℕ, ◌+◌, ◌≤◌, ◌<◌, ◌≡◌, refl, ap, ◌∙◌, true, false, some, List, [], ◌∷◌, arith, leb, length,
  if◌then◌else◌, inl, inr, ◌⊎◌, ◌≢◌,
}
use bengali_tts_service.Text.{JsString, js}
use bengali_tts_service.Schema.{Job, completed, failed}
use bengali_tts_service.Worker.{
  is_open, Writer, set, write, mark_active, mark_queued, mark_completed, mark_failed,
}
use bengali_tts_service.Worker.Processor.{
  Surroundings, Shared, Delivery, Tried, gives, raises, timeout_error, exception, produced,
  unrecoverable, raised_again, skipped, update_jobs, fetch_job, attempt_audio, conclude, process,
}
use bengali_tts_service.Worker.Processor.Rows.{fetch_job-write}

-- Whether the queue delivers the job again: after an exception, while the policy has a delivery left.
abbrev pub redelivered : Delivery → ℕ → ℕ → Shared → Shared → Shared
redelivered raised_again made attempts s rest = if leb attempts (made + 1) then s else rest
redelivered (skipped why) made attempts s rest = s
redelivered (produced key) made attempts s rest = s
redelivered unrecoverable made attempts s rest = s

-- The deliveries of a job. `others` is what else happens to the table and the objects before each one.
abbrev pub deliver : (ℕ → Shared → Shared) → JsString → ℕ → ℕ → List Surroundings → Shared → Shared
deliver others id made attempts [] s = s
deliver others id made attempts (env ∷ envs) s =
    let (d, s') = process env id made attempts (others made s) in
    let rest = deliver others id (made + 1) attempts envs s' in redelivered d made attempts s' rest

-- What else happens leaves the job's row alone.
abbrev pub IsElsewhere : JsString → (ℕ → Shared → Shared) → Type 0
IsElsewhere id others = (n : ℕ) (s : Shared) → fetch_job id (others n s).jobs ≡ fetch_job id s.jobs

-- The abstract outcome of a job: its recording, or the code of its failure.
pub data Outcome : Type 0 where
  recorded : JsString → List ℕ → Outcome
  gave_up : JsString → Outcome

-- What the attempts come to, said without tables, statuses and deliveries: the first that is no
-- ordinary exception decides, and the last that the policy has gives up.
abbrev pub settle : List (Tried (JsString × List ℕ)) → Outcome
settle [] = gave_up (js "INTERNAL")
settle (gives (key, wav) ∷ rest) = recorded key wav
settle (raises timeout_error ∷ rest) = gave_up (js "TIMEOUT")
settle (raises exception ∷ rest) = settle rest

-- What a row and the objects show of an outcome.
abbrev pub Shows : Outcome → Job → Shared → Type 0
Shows (recorded key wav) row s =
    (row.status ≡ completed)
    × (row.audio_key ≡ some key)
    × ((rest : List (JsString × List ℕ)) × (s.objects ≡ (key, wav) ∷ rest))
Shows (gave_up code) row s = (row.status ≡ failed) × (row.error_code ≡ some code)

abbrev pub outcomes :
    JsString → JsString → JsString → List Surroundings → List (Tried (JsString × List ℕ))
outcomes id user_id input_text [] = []
outcomes id user_id input_text (env ∷ envs) =
    attempt_audio env id user_id input_text ∷ outcomes id user_id input_text envs

-- An attempt is an ordinary exception, or decides.
exception-or-not : (r : Tried (JsString × List ℕ)) → (r ≡ raises exception) ⊎ (r ≢ raises exception)
exception-or-not (gives a) = inr (λ h. cc)
exception-or-not (raises timeout_error) = inr (λ h. cc)
exception-or-not (raises exception) = inl refl

abbrev pub Settled : JsString → Outcome → Shared → Type 0
Settled id outcome s = (row : Job) × (fetch_job id s.jobs ≡ some row) × Shows outcome row s

module _ (id : JsString) (attempts : ℕ) (others : ℕ → Shared → Shared)
    (elsewhere : IsElsewhere id others) where
  abbrev started : Surroundings → Shared → Shared
  started env s = update_jobs (write id (mark_active env.active_at)) s

  abbrev go_on : ℕ → List Surroundings → Delivery × Shared → Shared
  go_on made envs (d, s) =
      redelivered d made attempts s (deliver others id (made + 1) attempts envs s)

  process_open :
      (made : ℕ) (env : Surroundings) (s : Shared) (row : Job) (r : Tried (JsString × List ℕ))
      → fetch_job id s.jobs ≡ some row
      → is_open row.status ≡ true
      → attempt_audio env id row.user_id row.input_text ≡ r
      → process env id made attempts s ≡ conclude env id (leb attempts (made + 1)) r (started env s)
  unfolding process
  process_open made env s row r h o e = rw (process, h, o, e) refl

  -- A delivery of an open row, by what its attempt ends with.
  deliver_open :
      (made : ℕ) (env : Surroundings) (envs : List Surroundings) (s : Shared) (row : Job)
      (r : Tried (JsString × List ℕ))
      → fetch_job id s.jobs ≡ some row
      → is_open row.status ≡ true
      → attempt_audio env id row.user_id row.input_text ≡ r
      → deliver others id made attempts (env ∷ envs) s
        ≡ go_on made envs
            (conclude env id (leb attempts (made + 1)) r (started env (others made s)))
  deliver_open made env envs s row r h o e =
      ap (λ p. go_on made envs p)
        (process_open made env (others made s) row r (elsewhere made s ∙ h) o e)

  -- The row after the first write of a delivery and another one.
  written :
      (env : Surroundings) (writer : Writer) (s : Shared) (row : Job)
      → fetch_job id s.jobs ≡ some row
      → is_open row.status ≡ true
      → fetch_job id (write id writer (started env s).jobs)
        ≡ some (set writer (set (mark_active env.active_at) row))
  unfolding set
  written env writer s row h o =
      fetch_job-write id writer (started env s).jobs (set (mark_active env.active_at) row)
        (fetch_job-write id (mark_active env.active_at) s.jobs row h o) refl

  -- The ends that are settled at once.
  Settled-now :
      (env : Surroundings) (envs : List Surroundings) (made : ℕ) (s : Shared) (row : Job)
      (r : Tried (JsString × List ℕ)) (outs : List (Tried (JsString × List ℕ)))
      → fetch_job id s.jobs ≡ some row
      → is_open row.status ≡ true
      → (r ≡ raises exception → leb attempts (made + 1) ≡ true)
      → (r ≡ raises exception → outs ≡ [])
      → Settled id
          (settle (r ∷ outs))
          (go_on made envs (conclude env id (leb attempts (made + 1)) r (started env s)))
  unfolding conclude set
  Settled-now env envs made s row (gives (key, wav)) outs h o final none_left =
      (_, written env (mark_completed key env.ended_at) s row h o, (refl, refl, (s.objects, refl)))
  Settled-now env envs made s row (raises timeout_error) outs h o final none_left =
      (_, written env (mark_failed (js "TIMEOUT") _ env.ended_at) s row h o, (refl, refl))
  Settled-now env envs made s row (raises exception) outs h o final none_left =
      rw (final refl, final refl, none_left refl)
        (_, written env (mark_failed (js "INTERNAL") _ env.ended_at) s row h o, (refl, refl))

  -- An exception that is not the last leaves the row open for the next delivery.
  abbrev requeued : Surroundings → Job → Job
  requeued env row = set mark_queued (set (mark_active env.active_at) row)

  again :
      (made : ℕ) (env : Surroundings) (envs : List Surroundings) (s : Shared)
      → leb attempts (made + 1) ≡ false
      → go_on made envs
          (conclude env id (leb attempts (made + 1)) (raises exception) (started env s))
        ≡ deliver others id
            (made + 1)
            attempts
            envs
            (update_jobs (write id mark_queued) (started env s))
  unfolding conclude
  again made env envs s more = rw (more, more) refl

  -- The deliveries that are left settle an open row.
  settles :
      (envs : List Surroundings) (made : ℕ) (s : Shared) (row : Job)
      → fetch_job id s.jobs ≡ some row
      → is_open row.status ≡ true
      → made + length envs ≡ attempts
      → made < attempts
      → Settled id
          (settle (outcomes id row.user_id row.input_text envs))
          (deliver others id made attempts envs s)
  unfolding set
  settles [] made s row h o n lt = absurd (omega (arith, n, lt))
  settles (env ∷ []) made s row h o n lt =
      let r = attempt_audio env id row.user_id row.input_text in
      rw (deliver_open made env [] s row r h o refl) (
        Settled-now env [] made (others made s) row r [] (elsewhere made s ∙ h) o
          (λ _. ground (arith, n)) (λ _. refl))
  settles (env ∷ next ∷ envs) made s row h o n lt =
      let r = attempt_audio env id row.user_id row.input_text in
      elim (exception-or-not r) [
        | inr decides ↦ rw (deliver_open made env (next ∷ envs) s row r h o refl) (
            Settled-now env (next ∷ envs) made (others made s) row r
              (outcomes id row.user_id row.input_text (next ∷ envs)) (elsewhere made s ∙ h) o
              (λ e. absurd (decides e)) (λ e. absurd (decides e)))
        | inl e ↦
            (let rest =
                settles (next ∷ envs) (made + 1)
                  (update_jobs (write id mark_queued) (started env (others made s)))
                  (requeued env row)
                  (written env mark_queued (others made s) row (elsewhere made s ∙ h) o) refl
                  (omega (arith, n)) (omega (arith, n)) in
              rw
                (
                  deliver_open made env (next ∷ envs) s row (raises exception) h o e
                      ∙ again made env (next ∷ envs) (others made s) (ground (arith, n)),
                  e,
                )
                rest)
      ]

  -- Whatever happens to other rows meanwhile, a job that is not finished settles within the deliveries
  -- that its policy has: its row ends as completed, with the key of the object that was uploaded last,
  -- or as failed, with a code. Which of them is the outcome of the attempts: the first that synthesizes
  -- and uploads, or times out, decides; other exceptions are tried again, and fail the job as INTERNAL
  -- when no delivery is left.
  pub deliver_settles :
      (envs : List Surroundings) (s : Shared) (row : Job)
      → fetch_job id s.jobs ≡ some row
      → is_open row.status ≡ true
      → length envs ≡ attempts
      → 1 ≤ attempts
      → Settled id
          (settle (outcomes id row.user_id row.input_text envs))
          (deliver others id 0 attempts envs s)
  deliver_settles envs s row h o n le =
      settles envs 0 s row h o (omega (arith, n)) (omega (arith, le))
