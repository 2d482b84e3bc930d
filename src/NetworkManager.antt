-- ===== src/NetworkManager.antt =====
-- internal/networkmanager: what the adapter decides about profiles. The D-Bus calls themselves are
-- arguments of the definitions.
pub mod Types
pub mod Autoconnect
pub mod Finalize
pub mod Settings
pub mod Reader
pub mod Rebuild
pub mod Store
