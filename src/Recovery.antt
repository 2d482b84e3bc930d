-- ===== src/Recovery.antt =====
-- internal/recovery: manual recovery requests, and network changes behind a checkpoint.
pub mod Requests
pub mod Addr
pub mod Client
pub mod Exec
pub mod Protocol
pub mod Plan
pub mod Transition
pub mod Attempts
pub mod Fixtures
