-- ===== src/SemtechUdp.antt =====
-- internal/backend/semtechudp: the backend for the Semtech UDP packet-forwarder.
pub mod Registry
pub mod Backend
pub mod PfConfig
pub mod Configuration
