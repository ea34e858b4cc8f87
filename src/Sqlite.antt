-- ===== src/Sqlite.antt =====
-- internal/repository/sqlite: the repositories over the tables. A SQL statement is its meaning on
-- lists of rows; the text it is written in, and the driver below it, are not modelled.
pub mod Rows
pub mod Users
pub mod Waiting
pub mod Scheduler
