-- ===== src/Appliance.antt =====
-- internal/appliance: the reconciliation engine, the controller and the supervisor.
pub mod Types
pub mod Evaluate
pub mod Engine
pub mod Controller
pub mod Supervisor
pub mod Observer
