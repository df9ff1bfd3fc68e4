-- ===== src/Tests/Deliveries.antt =====
-- Deliveries of a job to a worker.
use bengali_tts_service.Base.{[], ◌∷◌}
use bengali_tts_service.Text.{js}
use bengali_tts_service.Worker.Processor.{Surroundings, gives, raises, exception}

-- An engine that fails, and one that does not.
abbrev pub broken : Surroundings
broken = record {
  synthesize = λ text. raises exception;
  upload = λ key wav. gives tt;
  active_at = 1;
  ended_at = 2;
  limit_text = js "300";
}

abbrev pub working : Surroundings
working = record broken { synthesize = λ text. gives (82 ∷ 73 ∷ []) }
