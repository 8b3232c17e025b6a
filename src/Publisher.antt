-- ===== src/Publisher.antt =====
-- spectator/publisher.h: how the measurements of the registry reach the backend.
pub mod Payload
pub mod Batches
pub mod Response
pub mod Pool
pub mod Lifecycle
pub mod Send
mod Tests
