-- ===== src/SetupFlow.antt =====
-- internal/setupflow: the setup workflow that the browser sees.
pub mod Types
pub mod Slot
pub mod Backend
pub mod Reads
