-- ===== src/Postgres.antt =====
-- internal/repository/postgres: the repositories over the same tables, as PostgreSQL answers them.
pub mod Server
pub mod Reads
pub mod Answers
pub mod Creating
pub mod Adding
pub mod Changing
pub mod Pages
pub mod Errors
pub mod Refusals
pub mod Rules
pub mod Users
pub mod Waiting
pub mod Scheduler
