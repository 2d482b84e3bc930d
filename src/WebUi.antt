-- ===== src/WebUi.antt =====
-- internal/webui: the HTTP interface of the setup workflow.
pub mod Guard
pub mod Exchange
pub mod Handoff
pub mod Api
