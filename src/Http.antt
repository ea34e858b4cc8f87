-- ===== src/Http.antt =====
-- internal/handler: requests, responses, and the handlers of the service.
pub mod Types
pub mod Net
pub mod Tenant
pub mod Auth
pub mod Enlist
pub mod Admin
