-- ===== src/Jobs.antt =====
-- gateway/src/routes/jobs.ts: the routes of the jobs, one module for each, over what they share.
pub mod Shared
pub mod Submit
pub mod History
pub mod Read
pub mod Stream
