-- ===== src/Jobs/Submit/HandOver.antt =====
-- The hand-over of a new row to the queue, and the deletion that follows a failed one.
use bengali_tts_service.Base.{◌≡◌, ◌≢◌, refl, ap, List, ◌∷◌, All, arith, []}
use bengali_tts_service.Text.{JsString}
use bengali_tts_service.Text.Laws.{text_eq_refl, text_eq_ne}
use bengali_tts_service.Errors.{Result, ok, thrown, Thrown, run_effect}
use bengali_tts_service.Http.{Loose}
use bengali_tts_service.Schema.{Job}
use bengali_tts_service.Queue.{enqueue_tts_job}
use bengali_tts_service.Deps.Prisma.{without}
use bengali_tts_service.Deps.Action.{AppDeps, World}
use bengali_tts_service.Jobs.Submit.{delivery, correlation_id, hand_over}

-- Without the new row's id, the table is what it was.
without_lem : (id : JsString) (l : List Job) → All (λ other. id ≢ other.id) l → without id l ≡ l
unfolding without
without_lem id [] h = refl
without_lem id (j ∷ l) h = rw (text_eq_ne id j.id h.0) (ap (λ r. j ∷ r) (without_lem id l h.1))

pub without_first :
    (job : Job) (l : List Job) → All (λ other. job.id ≢ other.id) l → without job.id (job ∷ l) ≡ l
unfolding without
without_first job l h = rw (text_eq_refl job.id) (without_lem job.id l h)

module _ (deps : AppDeps) where
  abbrev pub enqueued : Loose → Job → World deps → Result (Unit {0})
  enqueued id job w =
      run_effect (enqueue_tts_job deps.queue job.id (delivery deps) (correlation_id id) w.queue).0

  pub hand_over_done :
      (id : Loose) (job : Job) (w : World deps)
      → enqueued id job w ≡ ok tt
      → ((hand_over deps id job w).0 ≡ ok tt) × ((hand_over deps id job w).1.db ≡ w.db)
  unfolding hand_over
  hand_over_done id job w h = ground arith

  pub hand_over_undone :
      (id : Loose) (job : Job) (w : World deps) (t : Thrown)
      → enqueued id job w ≡ thrown t
      → ((hand_over deps id job w).0 ≡ thrown t)
        × ((hand_over deps id job w).1.db ≡ (deps.prisma.job_delete job.id w.db).1)
  unfolding hand_over
  hand_over_undone id job w t h = ground arith
