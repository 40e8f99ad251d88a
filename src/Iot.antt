-- ===== src/Iot.antt =====
-- The device plane: the topic grammar of backend/internal/iot/mqtt/topic.go and the registry of
-- backend/internal/iot/store.go, with its commands and its devices.
pub mod Topic
pub mod Segments
pub mod Registry
pub mod Commands
pub mod Consumer
pub mod Lifecycle
pub mod Deadline
pub mod Devices
pub mod Claims
pub mod Isolation
mod Examples
