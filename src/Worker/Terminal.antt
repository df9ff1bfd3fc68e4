-- ===== src/Worker/Terminal.antt =====
-- A terminal status is never left.
use bengali_tts_service.Base.{◌≡◌, true, false, List, [], ◌∷◌, arith, ◌≤◌, count_if, Mem-image}
use mathlib.Core.List.{Memᴰ}
use mathlib.Core.Path.{subst}
use bengali_tts_service.Text.{JsString}
use bengali_tts_service.Schema.{Job}
use bengali_tts_service.Deps.Prisma.{meets}
use bengali_tts_service.Jobs.Submit.{pending_of}
use bengali_tts_service.Worker.{is_open, where_open, Writer, set, write, write_all}

closed_stays :
    (id : JsString) (f : Job → Job) (job : Job)
    → is_open job.status ≡ false
    → where_open id f job ≡ job
closed_stays id f job h = ground arith

-- A job that is completed or failed is in the table unchanged after any writes of the workers, late
-- and repeated ones included: its status, its key and its times are final.
write_all-terminal :
    (writes : List (JsString × Writer)) (l : List Job) (job : Job)
    → is_open job.status ≡ false
    → Memᴰ job l
    → Memᴰ job (write_all writes l)
unfolding write_all write
write_all-terminal [] l job h m = m
write_all-terminal ((id, writer) ∷ rest) l job h m =
    write_all-terminal rest (write id writer l) job h (
      subst (λ j. Memᴰ j (write id writer l)) (closed_stays id (set writer) job h)
        (Mem-image (where_open id (set writer)) job l m))

-- A write makes no job unfinished that was not.
progress :
    (id : JsString) (writer : Writer) (user_id : JsString) (job : Job)
    → meets (pending_of user_id) (where_open id (set writer) job) ≡ true
    → meets (pending_of user_id) job ≡ true
unfolding set
progress id writer user_id job h = ground arith

-- A write of a worker leaves no user with more unfinished jobs.
pub write_pending :
    (id : JsString) (writer : Writer) (user_id : JsString) (l : List Job)
    → count_if (meets (pending_of user_id)) (write id writer l)
      ≤ count_if (meets (pending_of user_id)) l
unfolding write
write_pending id writer user_id [] = omega arith
write_pending id writer user_id (job ∷ l) =
    ground (arith, write_pending id writer user_id l, progress id writer user_id job)
