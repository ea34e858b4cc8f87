-- ===== src/Config.antt =====
-- internal/config/config.go: the definitions of the projects, their check, and the defaults.
-- A Go map is ranged over in an order of the runtime's choice, here the order of its list.
pub mod Projects
pub mod Load
