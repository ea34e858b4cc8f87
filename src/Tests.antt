-- ===== src/Tests.antt =====
-- Concrete inputs, and the theorems at them.
pub mod Data
mod Requests
mod Tasks
mod Parts
mod Servers
