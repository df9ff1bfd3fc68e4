-- ===== src/Worker/Processor/Rows.antt =====
-- worker/src/worker/db.py: what a write does to the row that is read.
use bengali_tts_service.Base.{◌≡◌, refl, ap, ◌∙◌, some, List, [], ◌∷◌, true, Bool-cases, inl, inr}
use bengali_tts_service.Text.{JsString, text_eq}
use bengali_tts_service.Schema.{Job}
use bengali_tts_service.Worker.{
  is_open, where_open, Writer, mark_active, mark_queued, mark_completed, mark_failed, set, write,
}
use bengali_tts_service.Worker.Processor.{fetch_job}

some_inj : {A : Type 0} {a b : A} → some a ≡ some b → a ≡ b
some_inj h = cc

set-id : (writer : Writer) (job : Job) → (set writer job).id ≡ job.id
unfolding set
set-id (mark_active now) job = refl
set-id mark_queued job = refl
set-id (mark_completed key now) job = refl
set-id (mark_failed code message now) job = refl

open_written :
    (id : JsString) (writer : Writer) (job : Job)
    → text_eq id job.id ≡ true
    → is_open job.status ≡ true
    → where_open id (set writer) job ≡ set writer job
open_written id writer job same live = rw (same, live) refl

-- The row of an id after a write to that id.
pub fetch_job-write :
    (id : JsString) (writer : Writer) (l : List Job) (row : Job)
    → fetch_job id l ≡ some row
    → is_open row.status ≡ true
    → fetch_job id (write id writer l) ≡ some (set writer row)
unfolding fetch_job write set
fetch_job-write id writer [] row h o = cc
fetch_job-write id writer (job ∷ rest) row h o = elim (Bool-cases (text_eq id job.id)) [
  | inl same ↦
      (let e : job ≡ row = some_inj (rw same at h) in
        let live : is_open job.status ≡ true = ap (λ (j : Job). is_open j.status) e ∙ o in
        rw (open_written id writer job same live, set-id writer job, same)
          (ap (λ j. some (set writer j)) e))
  | inr differ ↦ rw (differ, differ) (fetch_job-write id writer rest row (rw differ at h) o)
]
