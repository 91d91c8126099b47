-- ===== src/Client.antt =====
-- src/claw_msg/client: the SDK with which an agent talks to a broker.
pub mod Replies
pub mod Http
pub mod Calls
pub mod Agent
pub mod Connection
