-- ===== src/Http/Admin.antt =====
-- internal/handler/admin.go: what its handlers share.
pub mod Params
pub mod Lists
pub mod Access
pub mod Digest
