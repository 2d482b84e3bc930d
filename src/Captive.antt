-- ===== src/Captive.antt =====
-- internal/captive: the resources of temporary provisioning. The servers and D-Bus are not modelled.
pub mod Manager
pub mod Session
