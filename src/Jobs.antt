-- ===== src/Jobs.antt =====
-- jobs/scheduled.ts: the cron jobs, which purge what has expired.
pub mod Scheduled
pub mod Purge
pub mod Trash
mod Tests
