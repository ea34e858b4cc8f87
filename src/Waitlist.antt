-- ===== src/Waitlist.antt =====
-- internal/waitlist: the periodic tasks.
pub mod Scheduler
pub mod Digest
