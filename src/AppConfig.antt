-- ===== src/AppConfig.antt =====
-- internal/appconfig: the configuration of the product, its defaults, its sources and its checks.
pub mod Types
pub mod Validate
pub mod Resolve
