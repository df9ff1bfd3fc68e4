-- ===== src/Worker/Lifecycle.antt =====
-- gateway/src/routes/jobs.ts and worker/src/worker/processor.py together: a job from its submission to
-- its recording.
pub mod Single
pub mod Shown
pub mod Heard
