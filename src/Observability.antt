-- ===== src/Observability.antt =====
-- internal/observability: process health and the notifications of the service manager.
pub mod Health
pub mod Notifier
