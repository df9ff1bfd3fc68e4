-- ===== src/Jobs/Stream/Overlap.antt =====
-- Frames after the end of the answer.
use bengali_tts_service.Base.{◌≡◌, refl, true, false, some, [], ◌∷◌, arith}
use bengali_tts_service.Errors.{ok}
use bengali_tts_service.Schema.{Job, JobStatus, status_eq}
use bengali_tts_service.Jobs.Shared.{serialize_job}
use bengali_tts_service.Jobs.Stream.{
  Stream, is_terminal, open_stream, on_poll, tick, answered, step, run,
}

apart : (a b : JobStatus) → is_terminal a ≡ true → is_terminal b ≡ false → status_eq a b ≡ false
unfolding is_terminal
apart a b h k = ground arith

apart_sym : (a b : JobStatus) → is_terminal a ≡ false → is_terminal b ≡ true → status_eq a b ≡ false
unfolding is_terminal
apart_sym a b h k = ground arith

-- When the first of the two polls has been answered.
abbrev after_first : Job → Job → Stream
after_first job final = record {
  frames = serialize_job final ∷ serialize_job job ∷ [];
  last_status = final.status;
  ended = true;
  ticking = false;
  registered = false;
  in_flight = 1;
}

abbrev after_second : Job → Job → Job → Stream
after_second job final stale = record (after_first job final) {
  frames = serialize_job stale ∷ serialize_job final ∷ serialize_job job ∷ [];
  last_status = stale.status;
  in_flight = 0;
}

-- Where two polls of a watched job overlap, and the one that is answered first sees a terminal row,
-- the other writes a frame after the end of the answer if it has read another status before, one that
-- is not terminal.
pub overlap_writes_after_end :
    (job final stale : Job)
    → is_terminal job.status ≡ false
    → is_terminal final.status ≡ true
    → is_terminal stale.status ≡ false
    → (first second : Stream) × (run
          (tick ∷ tick ∷ answered (ok (some final)) ∷ [])
          (open_stream job)
        ≡ some first)
      × (first.ended ≡ true)
      × (step (answered (ok (some stale))) first ≡ some second)
      × (second.frames ≡ serialize_job stale ∷ first.frames)
unfolding run step on_poll open_stream is_terminal
overlap_writes_after_end job final stale o t u = (
  after_first job final,
  after_second job final stale,
  rw (o, apart final.status job.status t o, t) refl,
  refl,
  rw (apart_sym stale.status final.status u t, u) refl,
  refl,
)
