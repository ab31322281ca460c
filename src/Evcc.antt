-- ===== src/Evcc.antt =====
-- internal/evcc: the MQTT topics, the store of the latest values, and the client around them.
pub mod Topics
pub mod Store
pub mod Client
mod Tests
