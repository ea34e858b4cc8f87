-- ===== src/Notifier.antt =====
-- internal/notifier: the mails that the service sends.
pub mod Message
pub mod Compose
pub mod Send
