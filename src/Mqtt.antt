-- ===== src/Mqtt.antt =====
-- internal/mqtt and mqtt_adapter.go: the MQTT byte transport over the paho client.
pub mod Wait
pub mod Outbound
pub mod Lanes
pub mod Coalesce
pub mod Queue
pub mod Dispatch
pub mod Paho
pub mod Lifecycle
pub mod Subscribe
mod Examples
