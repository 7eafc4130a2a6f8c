-- ===== src/Mqtt.antt =====
-- internal/integration/mqtt: the MQTT integration.
pub mod Subscription
pub mod Dispatch
