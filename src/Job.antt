-- ===== src/Job.antt =====
-- internal/domain/job: the queue of the analysis jobs.
pub mod Queue
pub mod Validity
pub mod Checkpoint
pub mod Scheduler
pub mod Places
pub mod Scheduled
