-- ===== src/Basicstation.antt =====
-- internal/backend/basicstation: the backend for the Basic Station packet-forwarder.
pub mod Structs
pub mod Gateways
pub mod Sessions
pub mod Backend
pub mod RouterInfo
