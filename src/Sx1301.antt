-- ===== src/Sx1301.antt =====
-- internal/config/sx1301v1: the configuration of gateways with an SX1301 concentrator.
pub mod Radios
pub mod Heard
